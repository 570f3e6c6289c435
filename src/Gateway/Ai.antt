-- ===== src/Gateway/Ai.antt =====
-- ai/contracts.py and ai/policy.py: the requests of AI, and the target that the policy chooses.
pub mod Rules
pub mod Loops
pub mod Laws
pub mod Resolved
pub mod Usage
pub mod Grounding
pub mod Provider
pub mod Budget
pub mod Failures
pub mod Route
pub mod Answered
pub mod Samples
pub mod Examples
mod GroundedExamples
use cesar_core.Base.{
  ℕ, String, Bool, true, false, not, ◌&&◌, Option, none, some, List, ◌==◌, ltb, is_some,
  if◌then◌else◌, eq_iff, ◌≡◌, ◌↔◌, ap, arith,
}
use cesar_core.ControlPlane.Registry.{Registry}
use cesar_core.Security.Authentication.{is_active}
use cesar_core.Gateway.Table.{Key, get}
use cesar_core.Gateway.Terms.{
  ServiceClass, AiProfile, Requirements, Context, same_class, same_profile, is_free_only, Outcome,
  raised, returned,
}

pub data Role : Type 0 where
  system user assistant : Role

pub record Message : Type 0 where
  pub role : Role
  pub content : String

-- `AIRequest`.
pub record Request : Type 0 where
  pub context : Context
  pub ai_profile : AiProfile
  pub requirements : Requirements
  pub messages : List Message
  pub max_tokens : Option ℕ
  pub require_search_grounding : Bool

-- `AIModelTarget`.
pub record Target : Type 0 where
  pub model : String
  pub provider : Option String
  pub paid : Bool
  pub max_tokens_limit : Option ℕ
  pub enforces_max_tokens : Bool

-- The errors of ai/errors.py; those of the upstream carry its status and its identifier of the
-- request, where they are known. `crashed` is an exception that nothing expects.
pub data Failure : Type 0 where
  application_denied not_configured cost_denied limit_exceeded max_tokens_unsupported : Failure
  upstream_auth upstream_request upstream_response upstream_unavailable :
      (status_code : Option ℕ) (upstream_request_id : Option String) → Failure
  crashed : Failure

-- `PolicyKey`.
pub record PolicyKey : Type 0 where
  pub application_id : String
  pub purpose : String
  pub service_class : ServiceClass
  pub ai_profile : AiProfile

unfoldable pub same_key : PolicyKey → PolicyKey → Bool
same_key j k =
    j.application_id == k.application_id
    && (j.purpose == k.purpose
        && (same_class j.service_class k.service_class && same_profile j.ai_profile k.ai_profile))

same_class_iff : (a b : ServiceClass) → (same_class a b ≡ true) ↔ (a ≡ b)
unfolding same_class
same_class_iff a b = (λ h. ground arith, λ e. ground arith)

same_profile_iff : (a b : AiProfile) → (same_profile a b ≡ true) ↔ (a ≡ b)
unfolding same_profile
same_profile_iff a b = (λ h. ground arith, λ e. ground arith)

pub same_key_iff : (j k : PolicyKey) → (same_key j k ≡ true) ↔ (j ≡ k)
unfolding same_key
same_key_iff j k = (
  λ h. ground (
    arith,
    eq_iff j.application_id k.application_id,
    eq_iff j.purpose k.purpose,
    same_class_iff j.service_class k.service_class,
    same_profile_iff j.ai_profile k.ai_profile,
  ),
  λ e. ground (
    arith,
    eq_iff j.application_id k.application_id,
    eq_iff j.purpose k.purpose,
    same_class_iff j.service_class k.service_class,
    same_profile_iff j.ai_profile k.ai_profile,
  ),
)

instance abbrev pub policy_key : Key PolicyKey
policy_key = record { same = same_key; same_iff = same_key_iff }

-- `WILDCARD_PURPOSE`.
abbrev pub wildcard : String
wildcard = "*"

abbrev pub key_of : Request → String → PolicyKey
key_of request purpose = record {
  application_id = request.context.application_id;
  purpose = purpose;
  service_class = request.requirements.service_class;
  ai_profile = request.ai_profile;
}

-- `first or second`; a target is never falsy.
abbrev pub or_target : Option Target → Option Target → Option Target
or_target (some target) second = some target
or_target none second = second

-- `self._rules.get(exact_key) or self._rules.get(wildcard_key)`.
unfoldable pub chosen : List (PolicyKey × Target) → Request → Option Target
chosen rules request =
    or_target (get (key_of request request.context.purpose) rules)
      (get (key_of request wildcard) rules)

-- `request.max_tokens > target.max_tokens_limit`, where both are set.
unfoldable pub over_limit : Option ℕ → Option ℕ → Bool
over_limit (some tokens) (some limit) = ltb limit tokens
over_limit _ _ = false

-- The tests of `resolve` on the target.
unfoldable pub permitted : Request → Target → Outcome Failure Target
unfolding over_limit
permitted request target =
    if is_free_only request.requirements.cost_policy && target.paid
    then raised cost_denied
    else if over_limit request.max_tokens target.max_tokens_limit
    then raised limit_exceeded
    else if is_some request.max_tokens && not target.enforces_max_tokens
    then raised max_tokens_unsupported
    else returned target

unfoldable pub resolve : Registry → List (PolicyKey × Target) → Request → Outcome Failure Target
resolve r rules request = elim (is_active request.context.application_id r) [
  | none ↦ raised crashed
  | some false ↦ raised application_denied
  | some true ↦ elim (chosen rules request) [
    | none ↦ raised not_configured
    | some target ↦ permitted request target
  ]
]
