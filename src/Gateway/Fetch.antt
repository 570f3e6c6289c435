-- ===== src/Gateway/Fetch.antt =====
-- fetch/contracts.py, fetch/config.py, fetch/policy.py and `get_fetch_manager` of api/deps.py: the
-- requests of fetch, and the target that the policy chooses.
pub mod Url
pub mod Provider
pub mod Route
pub mod Laws
pub mod Answered
pub mod Examples
use cesar_core.Base.{
  ℕ, String, Bool, true, false, ◌&&◌, ◌||◌, Option, none, some, List, [], is_some, if◌then◌else◌,
}
use cesar_core.ControlPlane.Registry.{Registry, fetch, Listed}
use cesar_core.Security.Authentication.{is_active}
use cesar_core.Gateway.Table.{for_each}
use cesar_core.Gateway.Terms.{
  ServiceClass, economy, standard, quality, Requirements, Context, is_free_only, Outcome, raised,
  returned,
}
use cesar_core.Gateway.Ai.Rules.{classes, text_or, normalized}
use cesar_core.Gateway.Services.{ServiceRules, active_with, fill_class, find_rule}

-- `FetchRequest`.
pub record Request : Type 0 where
  pub context : Context
  pub requirements : Requirements
  pub url : String

-- `FetchProviderTarget`.
pub record Target : Type 0 where
  pub provider : String
  pub paid : Bool

-- The errors of fetch/errors.py; `crashed` is an exception that nothing expects.
pub data Failure : Type 0 where
  application_denied not_configured cost_denied : Failure
  upstream_auth upstream_request upstream_response upstream_unavailable :
      (status_code : Option ℕ) (upstream_request_id : Option String) → Failure
  crashed : Failure

-- `FetchConfig`.
pub record Config : Type 0 where
  pub enabled : Bool
  pub default_provider : Option String
  pub economy_provider : Option String
  pub standard_provider : Option String
  pub quality_provider : Option String
  pub provider_is_paid : Bool
  pub max_content_length : ℕ

class_provider : Config → ServiceClass → Option String
class_provider c economy = c.economy_provider
class_provider c standard = c.standard_provider
class_provider c quality = c.quality_provider

unfoldable pub provider_for : Config → ServiceClass → Option String
unfolding class_provider normalized
provider_for c sc = normalized (text_or (class_provider c sc) c.default_provider)

unfoldable pub is_configured : Config → Bool
is_configured c =
    c.enabled
    && (is_some (provider_for c economy)
        || (is_some (provider_for c standard) || is_some (provider_for c quality)))

abbrev pub target_for : Config → String → Target
target_for c provider = record { provider = provider; paid = c.provider_is_paid }

-- The rules of `get_fetch_manager`.
unfoldable pub fetch_rules : Config → List Listed → ServiceRules Target
fetch_rules c as_ =
    if is_configured c
    then for_each (fill_class "*" (provider_for c) (target_for c) (active_with fetch as_)) classes
        []
    else []

-- `FetchPolicy.resolve`.
unfoldable pub resolve : Registry → ServiceRules Target → Request → Outcome Failure Target
resolve r rules request = elim (is_active request.context.application_id r) [
  | none ↦ raised crashed
  | some false ↦ raised application_denied
  | some true ↦ elim (find_rule rules request.context request.requirements) [
    | none ↦ raised not_configured
    | some target ↦
        if is_free_only request.requirements.cost_policy && target.paid
        then raised cost_denied
        else returned target
  ]
]
