-- ===== src/Gateway/Fetch/Route.antt =====
-- api/routes/fetch.py: the answer of the API to a request of fetch, and the rollup that it records.
-- The texts of the errors, the metrics and the traces are left out.
use cesar_core.Base.{ℕ, String, false, Option, none, List, if◌then◌else◌}
use cesar_core.ControlPlane.Registry.{Registry, fetch}
use cesar_core.ControlPlane.Token.{File}
use cesar_core.ControlPlane.Rollups.{success, error, Row, Use, record_usage}
use cesar_core.Gateway.Omniroute.{Reply}
use cesar_core.Gateway.Terms.{
  Context, Sent, answer, detail, internal_error, Outcome, raised, returned,
}
use cesar_core.Gateway.Services.{ServiceRules}
use cesar_core.Gateway.Fetch.{
  Request, Target, Failure, application_denied, not_configured, cost_denied, upstream_auth,
  upstream_request, upstream_response, upstream_unavailable, crashed,
}
use cesar_core.Gateway.Fetch.Url.{Library, accepts_target}
use cesar_core.Gateway.Fetch.Provider.{Payload, Answer, manage}

unfoldable pub success_use : ℕ → Context → Answer → Use
success_use now context a = record {
  at = now;
  application_id = context.application_id;
  capability = fetch;
  status_class = success;
  provider = a.provider;
  cached = false;
  tokens = 0;
  queries = 0;
}

unfoldable pub error_use : ℕ → Context → Use
error_use now context = record {
  at = now;
  application_id = context.application_id;
  capability = fetch;
  status_class = error;
  provider = "";
  cached = false;
  tokens = 0;
  queries = 0;
}

-- `_error_response`.
unfoldable pub error_response :
    ℕ → Context → List Row → ℕ → String → Option String → List Row × Sent Answer
error_response now context rows status_code code id = (
  record_usage (error_use now context) rows,
  detail status_code code context.request_id context.correlation_id id,
)

-- The `except` clauses of `fetch_url`, by the failure.
unfoldable pub refuse : ℕ → Context → List Row → Failure → List Row × Sent Answer
unfolding error_response
refuse now context rows application_denied =
    error_response now context rows 403 "fetch_policy_denied" none
refuse now context rows cost_denied = error_response now context rows 403 "fetch_policy_denied" none
refuse now context rows not_configured =
    error_response now context rows 503 "fetch_not_configured" none
refuse now context rows (upstream_auth status id) =
    error_response now context rows 502 "fetch_upstream_error" id
refuse now context rows (upstream_request status id) =
    error_response now context rows 502 "fetch_upstream_error" id
refuse now context rows (upstream_response status id) =
    error_response now context rows 502 "fetch_upstream_error" id
refuse now context rows (upstream_unavailable status id) =
    error_response now context rows 503 "fetch_upstream_unavailable" id
refuse now context rows crashed = (rows, internal_error)

unfoldable pub respond : ℕ → Context → List Row → Outcome Failure Answer → List Row × Sent Answer
unfolding refuse
respond now context rows (raised failure) = refuse now context rows failure
respond now context rows (returned a) = (record_usage (success_use now context a) rows, answer a)

module _ (library : Library) (key_file : File String) (network : Payload → Reply) where
  unfoldable pub fetch_url :
      ℕ → ℕ → Registry → ServiceRules Target → Request → List Row → List Row × Sent Answer
  unfolding error_response
  fetch_url now max_content_length r rules request rows =
      if accepts_target library request.url
      then respond now request.context rows
          (manage key_file network max_content_length r rules request)
      else error_response now request.context rows 400 "fetch_target_rejected" none
