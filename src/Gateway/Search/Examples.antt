-- ===== src/Gateway/Search/Examples.antt =====
-- Runs of a search.
use cesar_core.Base.{String, ◌≡◌, refl, true, false, none, some, List, [], ◌∷◌}
use cesar_core.ControlPlane.Registry
use cesar_core.ControlPlane.Registry.{
  Registry, Listed, Capability, cap_eq, get_application, listed, granted, find, bootstrap, seeds,
  known_rows, seed, ignore_application, get_quota,
}
use cesar_core.ControlPlane.Registry.Steps.{empty}
use cesar_core.ControlPlane.Token.{
  File, holds, strip, left_strip, right_strip, is_space, starts_with,
}
use cesar_core.ControlPlane.Rollups.{Row, row_of, upsert, record_usage}
use cesar_core.Security.Authentication.{is_active}
use cesar_core.Gateway.Json.{
  Json, int, float, str, arr, obj, nil, cons, end, field, member, optional_int, truthy,
}
use cesar_core.Gateway.Omniroute.{Reply, answered, received, raise_for_status}
use cesar_core.Gateway.Omniroute
use cesar_core.Gateway.Table.{for_each, get, set}
use cesar_core.Gateway.Terms.{
  standard, same_class, is_free_only, free_only, Context, answer, returned,
}
use cesar_core.Gateway.Ai.Rules.{normalized}
use cesar_core.Gateway.Services.{same_service_key, lists, active_with, fill, fill_class, find_rule}
use cesar_core.Gateway.Search.{
  Config, Request, provider_for, documentation_provider, is_configured, class_step, search_rules,
  resolve,
}
use cesar_core.Gateway.Search.Provider.{
  Payload, Answer, envelope, read_envelope, first_results, search_web, manage,
}
use cesar_core.Gateway.Search.Values.{
  required_string, non_negative_int, positive_int, non_negative_number, normalize_result,
  normalize_usage, normalize_issue, each, normalize_issues, total_results, results_of,
}
use cesar_core.Gateway.Search.Route.{success_use, respond, search_route}

abbrev pub context : Context
context = record {
  application_id = "gg_oferta";
  purpose = "technical_documentation";
  request_id = "r1";
  correlation_id = "c1";
}

abbrev pub request : Request
request = record {
  context = context;
  requirements = record { service_class = standard; cost_policy = free_only };
  query = "price";
  max_results = 1;
}

-- A general provider, and one for documentation.
abbrev pub config : Config
config = record {
  enabled = true;
  default_provider = some "general";
  economy_provider = none;
  standard_provider = none;
  quality_provider = none;
  technical_documentation_provider = some "manuals";
  provider_health_url = none;
  provider_is_paid = false;
  max_results_limit = 20;
}

abbrev pub booted : Registry
booted = (bootstrap 1 2 60 30 empty).0

abbrev pub applications : List Listed
applications = elim (get_application "gg_oferta" booted) [ none ↦ [] | some a ↦ a ∷ [] ]

-- The documentation provider is chosen for its purpose.
picked_manuals :
    resolve booted (search_rules config applications) request
    ≡ returned (record { provider = "manuals"; paid = false; max_results_limit = 20 })
unfolding resolve find_rule search_rules is_configured provider_for documentation_provider
    class_step normalized strip left_strip right_strip is_space for_each fill_class fill set get
    same_service_key same_class is_free_only active_with lists cap_eq bootstrap known_rows seeds
    seed ignore_application find granted get_quota Registry.same_key get_application listed
    is_active
picked_manuals = refl

abbrev pub hit : String → Json
hit title = obj (field "title" (str title) (field "url" (str "https://a.example") end))

-- Two results, of which one was asked for.
abbrev pub two_hits : Payload → Reply
two_hits payload =
    answered 200
      (some (
        obj (
          field "provider" (str "general") (
            field "query" (str "price") (
              field "results" (arr (cons (hit "one") (cons (hit "two") nil))) (
                field "usage"
                  (obj (field "queries_used" (int 1) (field "search_cost_usd" (float "0.01") end)))
                  end))))))
      (some "u1") none

abbrev pub key_file : File String
key_file = holds "secret"

abbrev pub found : Answer
found = record {
  request_id = "r1";
  correlation_id = "c1";
  results =
      record {
        title = "one";
        url = "https://a.example";
        snippet = "";
        position = none;
        score = none;
        published_at = none;
      }
      ∷ [];
  provider = "general";
  usage = record { queries_used = 1; search_cost_usd = float "0.01"; llm_tokens = none };
  total_results_available = none;
  cached = false;
  fallback_used = true;
  upstream_request_id = some "u1";
  upstream_issues = [];
}

abbrev pub once : List Row
once = row_of (success_use 7 context found) ∷ []

pub searched :
    search_route key_file two_hits 7 booted (search_rules config applications) request []
    ≡ (once, answer found)
unfolding search_route respond manage search_web Omniroute.request received raise_for_status
    read_envelope envelope required_string non_negative_int positive_int non_negative_number
    normalize_result normalize_usage normalize_issue each normalize_issues total_results results_of
    first_results member optional_int truthy starts_with record_usage upsert
searched = rw picked_manuals refl
