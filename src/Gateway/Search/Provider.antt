-- ===== src/Gateway/Search/Provider.antt =====
-- search/providers/omniroute.py and search/manager.py: one search, through the upstream gateway.
use cesar_core.Base.{
  ℕ, zero, suc, String, Bool, not, Option, none, some, List, [], ◌∷◌, ◌==◌, if◌then◌else◌,
}
use cesar_core.ControlPlane.Registry.{Registry}
use cesar_core.ControlPlane.Token.{File}
use cesar_core.Gateway.Json.{member, truthy}
use cesar_core.Gateway.Omniroute.{
  Reply, Response, Error, auth_error, client_error, server_error, connection_error, timeout_error,
  os_error, uncaught,
}
use cesar_core.Gateway.Omniroute
use cesar_core.Gateway.Terms.{Outcome, raised, returned, ◌>>=◌}
use cesar_core.Gateway.Services.{ServiceRules}
use cesar_core.Gateway.Search.{
  Request, Target, Failure, upstream_auth, upstream_request, upstream_response,
  upstream_unavailable, crashed, resolve,
}
use cesar_core.Gateway.Search.Values.{
  Result, Usage, Issue, required_string, normalize_usage, normalize_issues, total_results, echoes,
  results_of,
}

-- The body of a call, less the type of search, which is always the Web's.
pub record Payload : Type 0 where
  pub query : String
  pub provider : String
  pub max_results : ℕ

-- `SearchResponse`; the latency is left out.
pub record Answer : Type 0 where
  pub request_id : String
  pub correlation_id : String
  pub results : List Result
  pub provider : String
  pub usage : Usage
  pub total_results_available : Option ℕ
  pub cached : Bool
  pub fallback_used : Bool
  pub upstream_request_id : Option String
  pub upstream_issues : List Issue

-- The `except` clauses of the call.
unfoldable pub failure_of : Error → Failure
failure_of (auth_error status id) = upstream_auth (some status) id
failure_of (client_error status id) = upstream_request (some status) id
failure_of (server_error status id) = upstream_unavailable (some status) id
failure_of connection_error = upstream_unavailable none none
failure_of timeout_error = upstream_unavailable none none
failure_of os_error = upstream_unavailable none none
failure_of uncaught = crashed

abbrev pub called : Outcome Error Response → Outcome Failure Response
called (raised error) = raised (failure_of error)
called (returned response) = returned response

unfoldable pub envelope : Request → Target → Response → Option Answer
unfolding results_of normalize_usage normalize_issues
envelope request target response = elim (required_string (member "provider" response.body)) [
  | none ↦ none
  | some provider ↦
      if not (echoes (member "query" response.body) request.query)
      then none
      else elim (results_of response.body) [
        | none ↦ none
        | some results ↦ elim (normalize_usage (member "usage" response.body)) [
          | none ↦ none
          | some usage ↦ elim (normalize_issues (member "errors" response.body)) [
            | none ↦ none
            | some issues ↦ some (record {
              request_id = request.context.request_id;
              correlation_id = request.context.correlation_id;
              results = results;
              provider = provider;
              usage = usage;
              total_results_available = total_results (member "metrics" response.body);
              cached = truthy (member "cached" response.body);
              fallback_used = not (provider == target.provider);
              upstream_request_id = response.upstream_request_id;
              upstream_issues = issues;
            })
          ]
        ]
      ]
]

unfoldable pub read_envelope : Request → Target → Response → Outcome Failure Answer
unfolding envelope
read_envelope request target response = elim (envelope request target response) [
  | none ↦ raised (upstream_response (some response.status_code) response.upstream_request_id)
  | some a ↦ returned a
]

-- `results[:n]`.
unfoldable pub first_results : ℕ → List Result → List Result
first_results zero rs = []
first_results (suc n) [] = []
first_results (suc n) (r ∷ rs) = r ∷ first_results n rs

module _ (key_file : File String) (network : Payload → Reply) where
  -- `OmniRouteSearchProvider.search`.
  unfoldable pub search_web : Request → Target → Outcome Failure Answer
  search_web request target = do
    response ← called (
        Omniroute.request key_file (
          network (record {
            query = request.query;
            provider = target.provider;
            max_results = request.max_results;
          })))
    read_envelope request target response

  -- `SearchManager.search`.
  unfoldable pub manage : Registry → ServiceRules Target → Request → Outcome Failure Answer
  manage r rules request = do
    target ← resolve r rules request
    found ← search_web request target
    returned (record found { results = first_results request.max_results found.results })
