-- ===== src/Gateway/Search/Route.antt =====
-- api/routes/search.py: the answer of the API to a request of search, and the rollup that it records.
-- The texts of the errors, the metrics and the traces are left out.
use cesar_core.Base.{ℕ, String, false, Option, none, some, List}
use cesar_core.ControlPlane.Registry.{Registry, search}
use cesar_core.ControlPlane.Token.{File}
use cesar_core.ControlPlane.Rollups.{success, error, Row, Use, record_usage}
use cesar_core.Gateway.Omniroute.{Reply}
use cesar_core.Gateway.Terms.{
  Context, Sent, answer, detail, internal_error, Outcome, raised, returned,
}
use cesar_core.Gateway.Services.{ServiceRules}
use cesar_core.Gateway.Search.{
  Request, Target, Failure, application_denied, not_configured, cost_denied, limit_exceeded,
  upstream_auth, upstream_request, upstream_response, upstream_unavailable, crashed,
}
use cesar_core.Gateway.Search.Provider.{Payload, Answer, manage}

-- `response.usage.llm_tokens or 0`.
abbrev pub or_zero : Option ℕ → ℕ
or_zero none = 0
or_zero (some n) = n

unfoldable pub success_use : ℕ → Context → Answer → Use
success_use now context a = record {
  at = now;
  application_id = context.application_id;
  capability = search;
  status_class = success;
  provider = a.provider;
  cached = a.cached;
  tokens = or_zero a.usage.llm_tokens;
  queries = a.usage.queries_used;
}

unfoldable pub error_use : ℕ → Context → Use
error_use now context = record {
  at = now;
  application_id = context.application_id;
  capability = search;
  status_class = error;
  provider = "";
  cached = false;
  tokens = 0;
  queries = 0;
}

-- `_error_response`.
unfoldable pub error_response :
    ℕ → Context → List Row → ℕ → String → Option String → List Row × Sent Answer
error_response now context rows status_code code id = (
  record_usage (error_use now context) rows,
  detail status_code code context.request_id context.correlation_id id,
)

-- The `except` clauses of `search_web`, by the failure.
unfoldable pub refuse : ℕ → Context → List Row → Failure → List Row × Sent Answer
unfolding error_response
refuse now context rows application_denied =
    error_response now context rows 403 "search_policy_denied" none
refuse now context rows cost_denied =
    error_response now context rows 403 "search_policy_denied" none
refuse now context rows limit_exceeded =
    error_response now context rows 403 "search_policy_denied" none
refuse now context rows not_configured =
    error_response now context rows 503 "search_not_configured" none
refuse now context rows (upstream_auth status id) =
    error_response now context rows 502 "search_upstream_error" id
refuse now context rows (upstream_request status id) =
    error_response now context rows 502 "search_upstream_error" id
refuse now context rows (upstream_response status id) =
    error_response now context rows 502 "search_upstream_error" id
refuse now context rows (upstream_unavailable status id) =
    error_response now context rows 503 "search_upstream_unavailable" id
refuse now context rows crashed = (rows, internal_error)

unfoldable pub respond : ℕ → Context → List Row → Outcome Failure Answer → List Row × Sent Answer
unfolding refuse
respond now context rows (raised failure) = refuse now context rows failure
respond now context rows (returned a) = (record_usage (success_use now context a) rows, answer a)

module _ (key_file : File String) (network : Payload → Reply) where
  unfoldable pub search_route :
      ℕ → Registry → ServiceRules Target → Request → List Row → List Row × Sent Answer
  search_route now r rules request rows =
      respond now request.context rows (manage key_file network r rules request)
