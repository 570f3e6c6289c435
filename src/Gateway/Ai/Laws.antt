-- ===== src/Gateway/Ai/Laws.antt =====
-- The rules of the configuration, looked up, against a direct description of them.
use cesar_core.Base.{
  String, ◌≡◌, refl, ◌∙◌, Bool, true, false, ◌&&◌, Option, none, some, List, [], arith, includes,
  if◌then◌else◌, ◌==◌, Option-cases, inl, inr,
}
use cesar_core.Gateway.Table.{for_each, get}
use cesar_core.Gateway.Terms.{
  ServiceClass, economy, standard, quality, AiProfile, user, admin_dev, same_class, same_profile,
}
use cesar_core.Gateway.Ai.{PolicyKey, policy_key, Target, wildcard}
use cesar_core.Gateway.Ai.Rules.{
  Config, Rules, class_target, profile_target, class_step, profile_step, rules_of, model_for,
  model_for_profile,
}
use cesar_core.Gateway.Ai.Loops.{class_rules-get, profile_rules-get}

-- A later rule stands over an earlier one.
overlay : Option Target → Option Target → Option Target
overlay none old = old
overlay (some target) old = some target

-- The target of a model, if there is one and the test holds.
offered : Bool → (String → Target) → Option String → Option Target
offered false target o = none
offered true target none = none
offered true target (some model) = some (target model)

offered-none : (test : Bool) (target : String → Target) → offered test target none ≡ none
unfolding offered
offered-none true target = refl
offered-none false target = refl

class_step-get :
    (c : Config) (apps : List String) (sc : ServiceClass) (k : PolicyKey) (rules : Rules)
    → get k (class_step c apps sc rules)
      ≡ overlay
          (offered
            (includes apps k.application_id
              && (wildcard == k.purpose && same_class sc k.service_class))
            (class_target c)
            (model_for c sc))
          (get k rules)
unfolding class_step overlay offered
class_step-get c apps sc k rules = elim (Option-cases (model_for c sc)) [
  | inl e ↦ rw (e, class_step) (rw offered-none)
  | inr (model, e) ↦
      rw (e, class_step)
        (rw (class_rules-get apps sc (class_target c model) k rules) (ground arith))
]

profile_step-get :
    (c : Config) (apps : List String) (p : AiProfile) (k : PolicyKey) (rules : Rules)
    → get k (profile_step c apps p rules)
      ≡ overlay
          (offered
            (includes apps k.application_id
              && (wildcard == k.purpose && same_profile p k.ai_profile))
            (profile_target c p)
            (model_for_profile c p))
          (get k rules)
unfolding profile_step overlay offered
profile_step-get c apps p k rules = elim (Option-cases (model_for_profile c p)) [
  | inl e ↦ rw (e, profile_step) (rw offered-none)
  | inr (model, e) ↦
      rw (e, profile_step)
        (rw (profile_rules-get apps p (profile_target c p model) k rules) (ground arith))
]

rules_of-get :
    (c : Config) (apps : List String) (k : PolicyKey)
    → get k (rules_of c apps)
      ≡ overlay
          (offered
            (includes apps k.application_id
              && (wildcard == k.purpose && same_profile admin_dev k.ai_profile))
            (profile_target c admin_dev)
            (model_for_profile c admin_dev))
          (overlay
            (offered
              (includes apps k.application_id
                && (wildcard == k.purpose && same_profile user k.ai_profile))
              (profile_target c user)
              (model_for_profile c user))
            (overlay
              (offered
                (includes apps k.application_id
                  && (wildcard == k.purpose && same_class quality k.service_class))
                (class_target c)
                (model_for c quality))
              (overlay
                (offered
                  (includes apps k.application_id
                    && (wildcard == k.purpose && same_class standard k.service_class))
                  (class_target c)
                  (model_for c standard))
                (overlay
                  (offered
                    (includes apps k.application_id
                      && (wildcard == k.purpose && same_class economy k.service_class))
                    (class_target c)
                    (model_for c economy))
                  none))))
unfolding rules_of for_each get
rules_of-get c apps k = rw (
  profile_step-get c apps admin_dev k _,
  profile_step-get c apps user k _,
  class_step-get c apps quality k _,
  class_step-get c apps standard k _,
  class_step-get c apps economy k [],
)

-- What a profile and a class are offered, the profile first.
abbrev pub picked :
    (String → Target) → Option String → (String → Target) → Option String → Option Target
picked special model general other = elim model [
  | some m ↦ some (special m)
  | none ↦ elim other [ some m ↦ some (general m) | none ↦ none ]
]

picked_lem :
    (special : String → Target) (model : Option String) (general : String → Target)
    (other : Option String)
    → overlay (offered true special model) (overlay (offered true general other) none)
      ≡ picked special model general other
unfolding overlay offered
picked_lem special (some m) general other = refl
picked_lem special none general (some m) = refl
picked_lem special none general none = refl

merged :
    (c : Config) (known wild : Bool) (sc : ServiceClass) (p : AiProfile)
    → overlay
        (offered
          (known && (wild && same_profile admin_dev p))
          (profile_target c admin_dev)
          (model_for_profile c admin_dev))
        (overlay
          (offered
            (known && (wild && same_profile user p))
            (profile_target c user)
            (model_for_profile c user))
          (overlay
            (offered
              (known && (wild && same_class quality sc))
              (class_target c)
              (model_for c quality))
            (overlay
              (offered
                (known && (wild && same_class standard sc))
                (class_target c)
                (model_for c standard))
              (overlay
                (offered
                  (known && (wild && same_class economy sc))
                  (class_target c)
                  (model_for c economy))
                none))))
      ≡ (if known && wild
          then picked (profile_target c p) (model_for_profile c p) (class_target c) (model_for c sc)
          else none)
unfolding same_profile same_class overlay offered
merged c false wild sc p = refl
merged c true false sc p = refl
merged c true true economy user = picked_lem _ _ _ _
merged c true true standard user = picked_lem _ _ _ _
merged c true true quality user = picked_lem _ _ _ _
merged c true true economy admin_dev = picked_lem _ _ _ _
merged c true true standard admin_dev = picked_lem _ _ _ _
merged c true true quality admin_dev = picked_lem _ _ _ _

unfoldable pub rule_for : Config → List String → PolicyKey → Option Target
rule_for c apps k =
    if includes apps k.application_id && wildcard == k.purpose
    then picked (profile_target c k.ai_profile) (model_for_profile c k.ai_profile) (class_target c)
        (model_for c k.service_class)
    else none

-- The rule that the table holds for a key is the one that the configuration describes: for a listed
-- application and the wildcard alone, the model of the profile, or else that of the class.
pub rule_lem :
    (c : Config) (apps : List String) (k : PolicyKey) → get k (rules_of c apps) ≡ rule_for c apps k
unfolding rule_for
rule_lem c apps k =
    rules_of-get c apps k
    ∙ merged c (includes apps k.application_id) (wildcard == k.purpose) k.service_class k.ai_profile
