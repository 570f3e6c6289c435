-- ===== src/Gateway/Ai/Resolved.antt =====
-- The resolution of a request by ai/policy.py, over the rules of the configuration.
use cesar_core.Base.{
  ℕ, ◌≤◌, String, ◌≡◌, ◌↔◌, refl, sym, ◌∙◌, Bool, true, false, not, ◌&&◌, Option, none, some, List,
  arith, includes, is_some, if◌then◌else◌, ◌==◌, Bool-cases, Option-cases, inl, inr,
}
use cesar_core.ControlPlane.Registry.{Registry, Listed}
use cesar_core.Security.Authentication.{is_active}
use cesar_core.Gateway.Table.{get}
use cesar_core.Gateway.Terms.{is_free_only, returned}
use cesar_core.Gateway.Ai.{
  Request, Target, policy_key, key_of, or_target, wildcard, chosen, over_limit, permitted, resolve,
}
use cesar_core.Gateway.Ai.Rules.{
  Config, Rules, is_configured, rules_of, ai_rules, active_ai, model_for, model_for_profile,
  class_target, profile_target,
}
use cesar_core.Gateway.Ai.Laws.{picked, rule_for, rule_lem}

-- What the request asks for, chosen without a table: by its profile, or else by its class.
abbrev pub target_of : Config → Request → Option Target
target_of c request =
    picked (profile_target c request.ai_profile) (model_for_profile c request.ai_profile)
      (class_target c) (model_for c request.requirements.service_class)

joined :
    (known wild : Bool) (target : Option Target)
    → or_target (if known && wild then target else none) (if known && true then target else none)
      ≡ (if known then target else none)
joined true true none = refl
joined true true (some t) = refl
joined true false target = refl
joined false wild target = refl

chosen-rules_of :
    (c : Config) (apps : List String) (request : Request)
    → chosen (rules_of c apps) request
      ≡ (if includes apps request.context.application_id then target_of c request else none)
unfolding chosen rule_for
chosen-rules_of c apps request =
    rw
      (
        rule_lem c apps (key_of request request.context.purpose),
        rule_lem c apps (key_of request wildcard),
      )
      (joined (includes apps request.context.application_id) (wildcard == request.context.purpose)
        (target_of c request))

-- The tests on a target.
pub record IsPermitted (request : Request) (target : Target) : Type 0 where
  pub free : is_free_only request.requirements.cost_policy ≡ true → target.paid ≡ false
  pub within :
      (tokens limit : ℕ)
      → request.max_tokens ≡ some tokens
      → target.max_tokens_limit ≡ some limit
      → tokens ≤ limit
  pub enforced : (tokens : ℕ) → request.max_tokens ≡ some tokens → target.enforces_max_tokens ≡ true

free_enough : (free paid : Bool) → (free ≡ true → paid ≡ false) → (free && paid) ≡ false
free_enough true paid h = h refl
free_enough false paid h = refl

within_limit :
    (tokens limit : Option ℕ)
    → ((a b : ℕ) → tokens ≡ some a → limit ≡ some b → a ≤ b)
    → over_limit tokens limit ≡ false
unfolding over_limit
within_limit none limit h = refl
within_limit (some a) none h = refl
within_limit (some a) (some b) h = ground (arith, h a b refl refl)

enforces :
    (tokens : Option ℕ) (test : Bool)
    → ((a : ℕ) → tokens ≡ some a → test ≡ true)
    → (is_some tokens && not test) ≡ false
enforces none test h = refl
enforces (some a) test h = rw (h a refl)

permitted_iff :
    (request : Request) (target t : Target)
    → (permitted request target ≡ returned t) ↔ (target ≡ t) × IsPermitted request t
unfolding permitted
permitted_iff request target t = (
  λ h. (
    ground arith,
    record {
      free = λ f. ground arith;
      within = λ tokens limit e f. ground arith;
      enforced = λ tokens e. ground arith;
    },
  ),
  λ h.
      rw
        (
          free_enough (is_free_only request.requirements.cost_policy) target.paid
              (λ f. ground (arith, h.0, h.1.free f)),
          within_limit request.max_tokens target.max_tokens_limit
              (λ tokens limit e f. h.1.within tokens limit e (ground (arith, h.0))),
          enforces request.max_tokens target.enforces_max_tokens
              (λ tokens e. ground (arith, h.0, h.1.enforced tokens e)),
        )
        (ground (arith, h.0)),
)

-- The conditions of a call of AI.
pub record IsAllowed (c : Config) (as_ : List Listed) (r : Registry) (request : Request)
    (t : Target) : Type 0 where
  pub configured : is_configured c ≡ true
  pub listed : includes (active_ai as_) request.context.application_id ≡ true
  pub is_on : is_active request.context.application_id r ≡ some true
  pub target : target_of c request ≡ some t
  pub is_permitted : IsPermitted request t

chosen-ai_rules :
    (c : Config) (as_ : List Listed) (request : Request)
    → chosen (ai_rules c as_) request ≡ (
        if is_configured c && includes (active_ai as_) request.context.application_id
        then target_of c request
        else none)
unfolding ai_rules chosen get
chosen-ai_rules c as_ request = elim (Bool-cases (is_configured c)) [
  | inl e ↦ rw e (chosen-rules_of c (active_ai as_) request)
  | inr e ↦ rw e
]

resolved :
    (r : Registry) (rules : Rules) (request : Request) (t : Target)
    → resolve r rules request ≡ returned t
    → (is_active request.context.application_id r ≡ some true)
      × ((chosen rules request ≡ some t) × IsPermitted request t)
unfolding resolve
resolved r rules request t h = elim (Option-cases (chosen rules request)) [
  | inl e ↦ absurd (ground arith)
  | inr (target, e) ↦
      let (same, fine) = (permitted_iff request target t).0 (ground arith) in
      (ground arith, (ground arith, fine))
]

if-some :
    (test : Bool) (o : Option Target) (t : Target)
    → (if test then o else none) ≡ some t
    → (test ≡ true) × (o ≡ some t)
if-some true o t h = (refl, h)
if-some false o t h = cc

-- Over the rules of the configuration, a request resolves to a target exactly when AI is configured,
-- the application is active and lists AI, the target is the one of its profile or else of its class,
-- and its cost and its tokens are permitted; its purpose does not matter.
pub resolve-ai_rules_iff :
    (c : Config) (as_ : List Listed) (r : Registry) (request : Request) (t : Target)
    → (resolve r (ai_rules c as_) request ≡ returned t) ↔ IsAllowed c as_ r request t
unfolding resolve
resolve-ai_rules_iff c as_ r request t = (
  λ h.
      let (is_on, (found, fine)) = resolved r (ai_rules c as_) request t h in
      let (tests, target) =
        if-some (is_configured c && includes (active_ai as_) request.context.application_id)
          (target_of c request) t (sym (chosen-ai_rules c as_ request) ∙ found) in
      record {
        configured = ground (arith, tests);
        listed = ground (arith, tests);
        is_on = is_on;
        target = target;
        is_permitted = fine;
      },
  λ h.
      rw (h.is_on, resolve)
        (rw (chosen-ai_rules c as_ request, h.configured, h.listed, h.target)
          ((permitted_iff request t t).1 (refl, h.is_permitted))),
)
