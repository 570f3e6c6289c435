-- ===== src/Gateway/Ai/Provider.antt =====
-- ai/providers/omniroute.py and ai/manager.py: a request of AI, through the upstream gateway.
use cesar_core.Base.{String, Bool, not, Option, none, some, List, [], all, if◌then◌else◌}
use cesar_core.ControlPlane.Registry.{Registry}
use cesar_core.ControlPlane.Token.{File, is_blank, strip}
use cesar_core.Gateway.Json.{Json, str, Fields, member, at_key, optional_string, truthy}
use cesar_core.Gateway.Omniroute.{
  Reply, Response, Error, auth_error, client_error, server_error, connection_error, timeout_error,
  os_error, uncaught,
}
use cesar_core.Gateway.Omniroute
use cesar_core.Gateway.Terms.{Outcome, raised, returned, ◌>>=◌}
use cesar_core.Gateway.Ai.{
  Request, Target, Failure, upstream_auth, upstream_request, upstream_response,
  upstream_unavailable, crashed, PolicyKey, resolve,
}
use cesar_core.Gateway.Ai.Usage.{
  Usage, normalize_usage, sum_usage, completion_of, verify_max_tokens,
}
use cesar_core.Gateway.Ai.Grounding.{Payload, plain_messages, message_of, grounded_followup}

-- `AIResponse`; the latency is left out.
pub record Answer : Type 0 where
  pub request_id : String
  pub correlation_id : String
  pub content : String
  pub provider : Option String
  pub model : String
  pub usage : Option Usage
  pub fallback_used : Bool
  pub upstream_request_id : Option String
  pub grounding_requested : Bool
  pub grounding_performed : Bool
  pub grounding_sources : List String

-- The `except` clauses of a call.
unfoldable pub failure_of : Error → Failure
failure_of (auth_error status id) = upstream_auth (some status) id
failure_of (client_error status id) = upstream_request (some status) id
failure_of (server_error status id) = upstream_unavailable (some status) id
failure_of connection_error = upstream_unavailable none none
failure_of timeout_error = upstream_unavailable none none
failure_of os_error = upstream_unavailable none none
failure_of uncaught = crashed

abbrev pub called : Outcome Error Response → Outcome Failure Response
called (raised error) = raised (failure_of error)
called (returned response) = returned response

-- `first or second`, of texts that are not empty.
abbrev pub or_text : Option String → Option String → Option String
or_text (some s) second = some s
or_text none second = second

abbrev pub text_or : Option String → String → String
text_or (some s) default = s
text_or none default = default

unfoldable pub first_payload : Request → Target → Payload
unfolding plain_messages
first_payload request target = record {
  model = target.model;
  messages = plain_messages request.messages;
  provider = target.provider;
  max_tokens = request.max_tokens;
  web_search = request.require_search_grounding;
}

-- `choice["message"]["content"]`, where it is a text.
unfoldable pub content_of : Fields → Option String
content_of body = elim (message_of body) [
  | none ↦ none
  | some message ↦ elim (at_key "content" message) [ some (str s) ↦ some s | _ ↦ none ]
]

-- The validator of `AIResponse` on its sources.
abbrev pub are_sources : List String → Bool
are_sources = all (λ s. not (is_blank (strip s)))

-- `complete` from its last response: `first` is the usage of the call before it, if there was one.
unfoldable pub finish :
    Request → Target → Option Usage → List String → Response → Outcome Failure Answer
unfolding content_of
finish request target first sources response =
    let invalid =
      raised (upstream_response (some response.status_code) response.upstream_request_id) in
    let usage = sum_usage first (normalize_usage (member "usage" response.body)) in
    elim (content_of response.body) [
      | none ↦ invalid
      | some content ↦
          if not (verify_max_tokens request.max_tokens (completion_of usage))
          then invalid
          else if not (are_sources sources)
          then raised crashed
          else returned (record {
            request_id = request.context.request_id;
            correlation_id = request.context.correlation_id;
            content = content;
            provider =
                or_text
                  (or_text
                    (optional_string
                      (elim response.selected_provider [ none ↦ none | some s ↦ some (str s) ]))
                    (optional_string (member "provider" response.body)))
                  target.provider;
            model = text_or (optional_string (member "model" response.body)) target.model;
            usage = usage;
            fallback_used = truthy (member "fallback_used" response.body);
            upstream_request_id = response.upstream_request_id;
            grounding_requested = request.require_search_grounding;
            grounding_performed = request.require_search_grounding;
            grounding_sources = sources;
          })
    ]

-- `network` is what the network does with the first and with the second call.
module _ (loads : String → Option Json) (key_file : File String)
    (network_first network_second : Payload → Reply) where
  -- The second call of a request that asks for a search.
  unfoldable pub ground_and_finish : Request → Target → Response → Outcome Failure Answer
  ground_and_finish request target first =
      let usage = normalize_usage (member "usage" first.body) in
      do
        followup ← grounded_followup loads request target first.body usage
        last ← called (Omniroute.request key_file (network_second followup.0))
        finish request target usage followup.1 last

  unfoldable pub complete : Request → Target → Outcome Failure Answer
  complete request target = do
    first ← called (Omniroute.request key_file (network_first (first_payload request target)))
    (if request.require_search_grounding
        then ground_and_finish request target first
        else finish request target none [] first)

  -- `AIManager.generate`.
  unfoldable pub generate : Registry → List (PolicyKey × Target) → Request → Outcome Failure Answer
  generate r rules request = do target ← resolve r rules request; complete request target
