-- ===== src/Gateway/Services.antt =====
-- search/policy.py, fetch/policy.py and api/deps.py: what the rules of search and of fetch share.
use cesar_core.Base.{
  String, Bool, true, false, ◌&&◌, ◌||◌, Option, none, some, List, [], ◌∷◌, ◌==◌, if◌then◌else◌,
  eq_iff, ◌≡◌, refl, ◌↔◌, arith, includes, Option-cases, inl, inr,
}
use cesar_core.ControlPlane.Registry.{Capability, cap_eq, Listed}
use cesar_core.Gateway.Table.{Key, for_each, get, set, get-set}
use cesar_core.Gateway.Terms.{
  ServiceClass, economy, standard, quality, same_class, Context, Requirements,
}
use cesar_core.Gateway.Ai.Rules.{classes, is_on}

-- `PolicyKey`.
pub record ServiceKey : Type 0 where
  pub application_id : String
  pub purpose : String
  pub service_class : ServiceClass

unfoldable pub same_service_key : ServiceKey → ServiceKey → Bool
same_service_key j k =
    j.application_id == k.application_id
    && (j.purpose == k.purpose && same_class j.service_class k.service_class)

class_iff : (a b : ServiceClass) → (same_class a b ≡ true) ↔ (a ≡ b)
unfolding same_class
class_iff a b = (λ h. ground arith, λ e. ground arith)

pub service_key_iff : (j k : ServiceKey) → (same_service_key j k ≡ true) ↔ (j ≡ k)
unfolding same_service_key
service_key_iff j k = (
  λ h. ground (
    arith,
    eq_iff j.application_id k.application_id,
    eq_iff j.purpose k.purpose,
    class_iff j.service_class k.service_class,
  ),
  λ e. ground (
    arith,
    eq_iff j.application_id k.application_id,
    eq_iff j.purpose k.purpose,
    class_iff j.service_class k.service_class,
  ),
)

instance abbrev pub service_key : Key ServiceKey
service_key = record { same = same_service_key; same_iff = service_key_iff }

-- `capability in application.allowed_capabilities`.
unfoldable pub lists : Capability → List Capability → Bool
lists c [] = false
lists c (d ∷ ds) = cap_eq c d || lists c ds

-- The applications that the loops over `list_applications()` do not skip.
unfoldable pub active_with : Capability → List Listed → List String
unfolding lists
active_with c [] = []
active_with c (a ∷ as_) =
    let rest = active_with c as_ in
    if is_on a.application.state && lists c a.capabilities then a.application.id ∷ rest else rest

abbrev pub key_for : Context → Requirements → String → ServiceKey
key_for context requirements purpose = record {
  application_id = context.application_id;
  purpose = purpose;
  service_class = requirements.service_class;
}

abbrev pub ServiceRules : Type 0 → Type 0
ServiceRules Target = List (ServiceKey × Target)

pub and_assoc : (a b c : Bool) → (a && (b && c)) ≡ ((a && b) && c)
and_assoc true b c = refl
and_assoc false b c = refl

module _ {Target : Type 0} where
  -- A loop that gives one target to the applications, for a purpose and a class.
  unfoldable pub fill :
      String → ServiceClass → Target → List String → ServiceRules Target → ServiceRules Target
  fill purpose sc target apps rules =
      for_each
        (λ id rs.
          set (record { application_id = id; purpose = purpose; service_class = sc }) target rs)
        apps rules

  pub fill-get :
      (purpose : String) (sc : ServiceClass) (target : Target) (apps : List String) (k : ServiceKey)
      (rules : ServiceRules Target)
      → get k (fill purpose sc target apps rules) ≡ (
          if includes apps k.application_id
            && (purpose == k.purpose && same_class sc k.service_class)
          then some target
          else get k rules)
  unfolding fill for_each same_service_key
  fill-get purpose sc target [] k rules = refl
  fill-get purpose sc target (id ∷ apps) k rules =
      let first : ServiceKey = record {
        application_id = id;
        purpose = purpose;
        service_class = sc;
      } in
      rw (fill-get purpose sc target apps k (set first target rules))
        (rw (get-set first k target rules) (ground arith))

  -- The loop over the classes, where each has a provider or none.
  unfoldable pub fill_class :
      String
      → (ServiceClass → Option String)
      → (String → Target)
      → List String
      → ServiceClass
      → ServiceRules Target
      → ServiceRules Target
  fill_class purpose provider_for target apps sc rules = elim (provider_for sc) [
    | none ↦ rules
    | some provider ↦ fill purpose sc (target provider) apps rules
  ]

  -- The target of a provider, if there is one, and otherwise what there was.
  abbrev pub offer : (String → Target) → Option String → Option Target → Option Target
  offer target none old = old
  offer target (some provider) old = some (target provider)

  pub fill_class-get :
      (purpose : String) (provider_for : ServiceClass → Option String) (target : String → Target)
      (apps : List String) (sc : ServiceClass) (k : ServiceKey) (rules : ServiceRules Target)
      → get k (fill_class purpose provider_for target apps sc rules) ≡ (
          if includes apps k.application_id
            && (purpose == k.purpose && same_class sc k.service_class)
          then offer target (provider_for sc) (get k rules)
          else get k rules)
  unfolding fill_class
  fill_class-get purpose provider_for target apps sc k rules =
      elim (Option-cases (provider_for sc)) [
        | inl e ↦ rw (e, fill_class) (ground arith)
        | inr (provider, e) ↦
            rw (e, fill_class) (fill-get purpose sc (target provider) apps k rules)
      ]

  by_class :
      (test : Bool) (sc : ServiceClass) (provider_for : ServiceClass → Option String)
      (target : String → Target) (old : Option Target)
      → (if test && same_class quality sc
          then offer target (provider_for quality) (
              if test && same_class standard sc
              then offer target (provider_for standard) (
                  if test && same_class economy sc
                  then offer target (provider_for economy) old
                  else old)
              else if test && same_class economy sc
              then offer target (provider_for economy) old
              else old)
          else if test && same_class standard sc
          then offer target (provider_for standard) (
              if test && same_class economy sc
              then offer target (provider_for economy) old
              else old)
          else if test && same_class economy sc
          then offer target (provider_for economy) old
          else old)
        ≡ (if test then offer target (provider_for sc) old else old)
  unfolding same_class
  by_class true economy provider_for target old = refl
  by_class true standard provider_for target old = refl
  by_class true quality provider_for target old = refl
  by_class false sc provider_for target old = refl

  -- What the loop over the classes gives a key: the target of its class.
  pub classes-get :
      (purpose : String) (provider_for : ServiceClass → Option String) (target : String → Target)
      (apps : List String) (k : ServiceKey) (rules : ServiceRules Target)
      → get k (for_each (fill_class purpose provider_for target apps) classes rules) ≡ (
          if includes apps k.application_id && purpose == k.purpose
          then offer target (provider_for k.service_class) (get k rules)
          else get k rules)
  unfolding for_each
  classes-get purpose provider_for target apps k rules =
      let one = fill_class purpose provider_for target apps economy rules in
      let two = fill_class purpose provider_for target apps standard one in
      rw
        (
          fill_class-get purpose provider_for target apps quality k two,
          fill_class-get purpose provider_for target apps standard k one,
          fill_class-get purpose provider_for target apps economy k rules,
          and_assoc (includes apps k.application_id) (purpose == k.purpose)
              (same_class quality k.service_class),
          and_assoc (includes apps k.application_id) (purpose == k.purpose)
              (same_class standard k.service_class),
          and_assoc (includes apps k.application_id) (purpose == k.purpose)
              (same_class economy k.service_class),
        )
        (by_class (includes apps k.application_id && purpose == k.purpose) k.service_class
          provider_for target (get k rules))

  -- `first or second`; a target is never falsy.
  abbrev pub first_rule : Option Target → Option Target → Option Target
  first_rule (some target) second = some target
  first_rule none second = second

  -- `self._rules.get(exact_key) or self._rules.get(wildcard_key)`.
  unfoldable pub find_rule : ServiceRules Target → Context → Requirements → Option Target
  find_rule rules context requirements =
      first_rule (get (key_for context requirements context.purpose) rules)
        (get (key_for context requirements "*") rules)

  pub if-offer :
      (test : Bool) (target : String → Target) (o : Option String) (t : Target)
      → (if test then offer target o none else none) ≡ some t
      → (test ≡ true) × ((provider : String) × (o ≡ some provider) × (target provider ≡ t))
  if-offer true target none t h = cc
  if-offer true target (some provider) t h = (refl, (provider, refl, ground arith))
  if-offer false target o t h = cc
