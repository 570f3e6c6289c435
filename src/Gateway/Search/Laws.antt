-- ===== src/Gateway/Search/Laws.antt =====
-- The rules of search: a documentation provider for its purpose, and else the one of the class.
use cesar_core.Base.{
  String, ◌≡◌, refl, Bool, true, false, ◌&&◌, Option, none, some, List, [], includes, if◌then◌else◌,
  Bool-cases, inl, inr, ◌==◌,
}
use cesar_core.ControlPlane.Registry.{Listed, search}
use cesar_core.Gateway.Table.{get, for_each}
use cesar_core.Gateway.Terms.{
  ServiceClass, economy, standard, quality, same_class, Context, Requirements,
}
use cesar_core.Gateway.Ai.Rules.{classes}
use cesar_core.Gateway.Services.{
  ServiceKey, service_key, ServiceRules, active_with, fill_class, offer, fill_class-get, first_rule,
  find_rule, key_for, and_assoc,
}
use cesar_core.Gateway.Search.{
  Config, Target, provider_for, documentation_provider, is_configured, target_for,
  technical_documentation, class_step, search_rules,
}

-- What is added for one class: `special` under one test, over `general` under another.
added :
    Bool
    → Bool
    → Bool
    → (String → Target)
    → Option String
    → Option String
    → Option Target
    → Option Target
added special_purpose general_purpose this target special general old =
    let under = if general_purpose && this then offer target general old else old in
    if special_purpose && this then offer target special under else under

class_step-get :
    (c : Config) (apps : List String) (sc : ServiceClass) (k : ServiceKey)
    (rules : ServiceRules Target)
    → get k (class_step c apps sc rules)
      ≡ added
          (includes apps k.application_id && technical_documentation == k.purpose)
          (includes apps k.application_id && "*" == k.purpose)
          (same_class sc k.service_class)
          (target_for c)
          (documentation_provider c)
          (provider_for c sc)
          (get k rules)
unfolding class_step added
class_step-get c apps sc k rules =
    rw
      (
        fill_class-get technical_documentation (λ _. documentation_provider c) (target_for c) apps
            sc k (fill_class "*" (provider_for c) (target_for c) apps sc rules),
        fill_class-get "*" (provider_for c) (target_for c) apps sc k rules,
        and_assoc (includes apps k.application_id) (technical_documentation == k.purpose)
            (same_class sc k.service_class),
        and_assoc (includes apps k.application_id) ("*" == k.purpose)
            (same_class sc k.service_class),
      )
      refl

by_purpose :
    (s g : Bool) (sc : ServiceClass) (target : String → Target) (special : Option String)
    (general : ServiceClass → Option String) (old : Option Target)
    → added s g (same_class quality sc) target special (general quality) (
        added s g
          (same_class standard sc)
          target
          special
          (general standard)
          (added s g (same_class economy sc) target special (general economy) old))
      ≡ added s g true target special (general sc) old
unfolding added same_class
by_purpose true true economy target special general old = refl
by_purpose true true standard target special general old = refl
by_purpose true true quality target special general old = refl
by_purpose true false economy target special general old = refl
by_purpose true false standard target special general old = refl
by_purpose true false quality target special general old = refl
by_purpose false true economy target special general old = refl
by_purpose false true standard target special general old = refl
by_purpose false true quality target special general old = refl
by_purpose false false sc target special general old = refl

loop-get :
    (c : Config) (apps : List String) (k : ServiceKey)
    → get k (for_each (class_step c apps) classes [])
      ≡ added
          (includes apps k.application_id && technical_documentation == k.purpose)
          (includes apps k.application_id && "*" == k.purpose)
          true
          (target_for c)
          (documentation_provider c)
          (provider_for c k.service_class)
          none
unfolding for_each get
loop-get c apps k =
    let one = class_step c apps economy [] in
    let two = class_step c apps standard one in
    rw
      (
        class_step-get c apps quality k two,
        class_step-get c apps standard k one,
        class_step-get c apps economy k [],
      )
      (by_purpose (includes apps k.application_id && technical_documentation == k.purpose)
        (includes apps k.application_id && "*" == k.purpose) k.service_class (target_for c)
        (documentation_provider c) (provider_for c) none)

-- The provider for a purpose: the documentation provider for its own, if there is one, and else the
-- general one.
abbrev pub picked : Bool → Option String → Option String → Option String
picked true (some special) general = some special
picked true none general = general
picked false special general = general

chosen :
    (known is_special wild : Bool) (target : String → Target) (special general : Option String)
    → first_rule
        (added (known && is_special) (known && wild) true target special general none)
        (added (known && false) (known && true) true target special general none)
      ≡ (if known then offer target (picked is_special special general) none else none)
unfolding added
chosen false is_special wild target special general = refl
chosen true true true target none none = refl
chosen true true true target none (some g) = refl
chosen true true true target (some s) none = refl
chosen true true true target (some s) (some g) = refl
chosen true true false target none none = refl
chosen true true false target none (some g) = refl
chosen true true false target (some s) none = refl
chosen true true false target (some s) (some g) = refl
chosen true false true target special none = refl
chosen true false true target special (some g) = refl
chosen true false false target special general = refl

pub find_rule-search_rules :
    (c : Config) (as_ : List Listed) (context : Context) (requirements : Requirements)
    → find_rule (search_rules c as_) context requirements ≡ (
        if is_configured c && includes (active_with search as_) context.application_id
        then offer
            (target_for c)
            (picked
              (technical_documentation == context.purpose)
              (documentation_provider c)
              (provider_for c requirements.service_class))
            none
        else none)
unfolding search_rules find_rule get
find_rule-search_rules c as_ context requirements = elim (Bool-cases (is_configured c)) [
  | inl e ↦ rw e (
      rw
        (
          loop-get c (active_with search as_) (key_for context requirements context.purpose),
          loop-get c (active_with search as_) (key_for context requirements "*"),
        )
        (chosen (includes (active_with search as_) context.application_id)
          (technical_documentation == context.purpose) ("*" == context.purpose) (target_for c)
          (documentation_provider c) (provider_for c requirements.service_class)))
  | inr e ↦ rw e refl
]
