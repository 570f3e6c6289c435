-- ===== src/Gateway/Search.antt =====
-- search/contracts.py, search/config.py, search/policy.py and `get_search_manager` of api/deps.py: the
-- requests of search, and the target that the policy chooses.
pub mod Values
pub mod Provider
pub mod Route
pub mod Laws
pub mod Answered
pub mod Examples
use cesar_core.Base.{
  ℕ, String, Bool, true, false, not, ◌&&◌, ◌||◌, Option, none, some, List, [], ◌==◌, ltb, is_some,
  if◌then◌else◌,
}
use cesar_core.ControlPlane.Registry.{Registry, search, Listed}
use cesar_core.ControlPlane.Token.{is_blank}
use cesar_core.Security.Authentication.{is_active}
use cesar_core.Gateway.Table.{for_each}
use cesar_core.Gateway.Terms.{
  ServiceClass, economy, standard, quality, Requirements, Context, is_free_only, Outcome, raised,
  returned,
}
use cesar_core.Gateway.Ai.Rules.{classes, text_or, normalized}
use cesar_core.Gateway.Services.{ServiceRules, active_with, fill_class, find_rule}

-- `SearchRequest`.
pub record Request : Type 0 where
  pub context : Context
  pub requirements : Requirements
  pub query : String
  pub max_results : ℕ

-- `SearchProviderTarget`.
pub record Target : Type 0 where
  pub provider : String
  pub paid : Bool
  pub max_results_limit : ℕ

-- The errors of search/errors.py; `crashed` is an exception that nothing expects.
pub data Failure : Type 0 where
  application_denied not_configured cost_denied limit_exceeded : Failure
  upstream_auth upstream_request upstream_response upstream_unavailable :
      (status_code : Option ℕ) (upstream_request_id : Option String) → Failure
  crashed : Failure

-- `SearchConfig`.
pub record Config : Type 0 where
  pub enabled : Bool
  pub default_provider : Option String
  pub economy_provider : Option String
  pub standard_provider : Option String
  pub quality_provider : Option String
  pub technical_documentation_provider : Option String
  pub provider_health_url : Option String
  pub provider_is_paid : Bool
  pub max_results_limit : ℕ

class_provider : Config → ServiceClass → Option String
class_provider c economy = c.economy_provider
class_provider c standard = c.standard_provider
class_provider c quality = c.quality_provider

-- The provider searxng-search is left out where the address of its health is not set.
abbrev pub is_checked : Config → String → Bool
is_checked c selected =
    not (selected == "searxng-search") || is_some (text_or c.provider_health_url none)

unfoldable pub provider_for : Config → ServiceClass → Option String
unfolding class_provider normalized
provider_for c sc = elim (normalized (text_or (class_provider c sc) c.default_provider)) [
  | none ↦ none
  | some selected ↦ if is_checked c selected then some selected else none
]

-- `normalized_technical_documentation_provider`.
unfoldable pub documentation_provider : Config → Option String
unfolding normalized
documentation_provider c = normalized c.technical_documentation_provider

unfoldable pub is_configured : Config → Bool
is_configured c =
    c.enabled
    && ((is_some (provider_for c economy)
          || (is_some (provider_for c standard) || is_some (provider_for c quality)))
        || is_some (documentation_provider c))

abbrev pub target_for : Config → String → Target
target_for c provider = record {
  provider = provider;
  paid = c.provider_is_paid;
  max_results_limit = c.max_results_limit;
}

-- `TECHNICAL_DOCUMENTATION_PURPOSE`.
abbrev pub technical_documentation : String
technical_documentation = "technical_documentation"

-- The loop of `get_search_manager` for one class: its general provider, and the one for documentation.
unfoldable pub class_step :
    Config → List String → ServiceClass → ServiceRules Target → ServiceRules Target
class_step c apps sc rules =
    fill_class technical_documentation (λ _. documentation_provider c) (target_for c) apps sc
      (fill_class "*" (provider_for c) (target_for c) apps sc rules)

unfoldable pub search_rules : Config → List Listed → ServiceRules Target
search_rules c as_ =
    if is_configured c then for_each (class_step c (active_with search as_)) classes [] else []

-- `SearchPolicy.resolve`.
unfoldable pub resolve : Registry → ServiceRules Target → Request → Outcome Failure Target
resolve r rules request = elim (is_active request.context.application_id r) [
  | none ↦ raised crashed
  | some false ↦ raised application_denied
  | some true ↦ elim (find_rule rules request.context request.requirements) [
    | none ↦ raised not_configured
    | some target ↦
        if is_free_only request.requirements.cost_policy && target.paid
        then raised cost_denied
        else if ltb target.max_results_limit request.max_results
        then raised limit_exceeded
        else returned target
  ]
]
