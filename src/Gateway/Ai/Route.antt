-- ===== src/Gateway/Ai/Route.antt =====
-- api/routes/ai.py: the answer of the API to a request of AI, and the rollup that it records. The
-- texts of the errors, the metrics and the traces are left out.
use cesar_core.Base.{ℕ, String, false, Option, none, some, List}
use cesar_core.ControlPlane.Registry.{Registry, ai}
use cesar_core.ControlPlane.Token.{File}
use cesar_core.ControlPlane.Rollups.{success, error, Row, Use, record_usage}
use cesar_core.Gateway.Json.{Json}
use cesar_core.Gateway.Omniroute.{Reply}
use cesar_core.Gateway.Terms.{Sent, answer, detail, internal_error}
use cesar_core.Gateway.Terms.{Context, Outcome, raised, returned}
use cesar_core.Gateway.Ai.{
  Request, Failure, application_denied, not_configured, cost_denied, limit_exceeded,
  max_tokens_unsupported, upstream_auth, upstream_request, upstream_response, upstream_unavailable,
  crashed,
}
use cesar_core.Gateway.Ai.Rules.{Rules, text_or}
use cesar_core.Gateway.Ai.Usage.{Usage}
use cesar_core.Gateway.Ai.Grounding.{Payload}
use cesar_core.Gateway.Ai.Provider.{Answer, generate}

-- `response.usage.total_tokens if … else 0`.
unfoldable pub tokens_of : Option Usage → ℕ
tokens_of none = 0
tokens_of (some usage) = elim usage.total_tokens [ none ↦ 0 | some n ↦ n ]

-- `response.provider or response.provider_gateway`.
unfoldable pub provider_of : Option String → String
provider_of provider = elim (text_or provider none) [ none ↦ "omniroute" | some name ↦ name ]

unfoldable pub success_use : ℕ → Context → Answer → Use
success_use now context a = record {
  at = now;
  application_id = context.application_id;
  capability = ai;
  status_class = success;
  provider = provider_of a.provider;
  cached = false;
  tokens = tokens_of a.usage;
  queries = 0;
}

unfoldable pub error_use : ℕ → Context → Use
error_use now context = record {
  at = now;
  application_id = context.application_id;
  capability = ai;
  status_class = error;
  provider = "";
  cached = false;
  tokens = 0;
  queries = 0;
}

-- `_error_response`.
unfoldable pub error_response :
    ℕ → Context → List Row → ℕ → String → Option String → List Row × Sent Answer
error_response now context rows status_code code id = (
  record_usage (error_use now context) rows,
  detail status_code code context.request_id context.correlation_id id,
)

-- The `except` clauses of `generate_ai`, by the failure.
unfoldable pub refuse : ℕ → Context → List Row → Failure → List Row × Sent Answer
unfolding error_response
refuse now context rows application_denied =
    error_response now context rows 403 "ai_policy_denied" none
refuse now context rows cost_denied = error_response now context rows 403 "ai_policy_denied" none
refuse now context rows max_tokens_unsupported =
    error_response now context rows 403 "ai_policy_denied" none
refuse now context rows limit_exceeded = error_response now context rows 403 "ai_policy_denied" none
refuse now context rows not_configured =
    error_response now context rows 503 "ai_not_configured" none
refuse now context rows (upstream_auth status id) =
    error_response now context rows 502 "ai_upstream_error" id
refuse now context rows (upstream_request status id) =
    error_response now context rows 502 "ai_upstream_error" id
refuse now context rows (upstream_response status id) =
    error_response now context rows 502 "ai_upstream_error" id
refuse now context rows (upstream_unavailable status id) =
    error_response now context rows 503 "ai_upstream_unavailable" id
refuse now context rows crashed = (rows, internal_error)

unfoldable pub respond : ℕ → Context → List Row → Outcome Failure Answer → List Row × Sent Answer
unfolding refuse
respond now context rows (raised failure) = refuse now context rows failure
respond now context rows (returned a) = (record_usage (success_use now context a) rows, answer a)

module _ (loads : String → Option Json) (key_file : File String)
    (network_first network_second : Payload → Reply) where
  unfoldable pub generate_ai : ℕ → Registry → Rules → Request → List Row → List Row × Sent Answer
  generate_ai now r rules request rows =
      respond now request.context rows
        (generate loads key_file network_first network_second r rules request)
