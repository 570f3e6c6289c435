-- ===== src/Gateway/Fetch/Provider.antt =====
-- fetch/providers/omniroute.py and fetch/manager.py: one fetch, through the upstream gateway.
use Prim.Native.String.{count}
use cesar_core.Base.{
  ℕ, zero, suc, String, Bool, true, false, not, ◌&&◌, Option, none, some, ltb, if◌then◌else◌,
}
use cesar_core.ControlPlane.Registry.{Registry}
use cesar_core.ControlPlane.Token.{File, is_blank, strip}
use cesar_core.Gateway.Json.{Json, null, str, obj, Fields, member}
use cesar_core.Gateway.Omniroute.{
  Reply, Response, Error, auth_error, client_error, server_error, connection_error, timeout_error,
  os_error, uncaught,
}
use cesar_core.Gateway.Omniroute
use cesar_core.Gateway.Terms.{Outcome, raised, returned, ◌>>=◌}
use cesar_core.Gateway.Services.{ServiceRules}
use cesar_core.Gateway.Fetch.{
  Request, Target, Failure, upstream_auth, upstream_request, upstream_response,
  upstream_unavailable, crashed, resolve,
}

-- The body of a call, less the parts that never vary.
pub record Payload : Type 0 where
  pub url : String
  pub provider : String

-- `FetchResponse`; the latency, and the cost, which is 0, are left out.
pub record Answer : Type 0 where
  pub request_id : String
  pub correlation_id : String
  pub provider : String
  pub url : String
  pub fetched : Bool
  pub title : Option String
  pub content : Option String
  pub truncated : Bool
  pub upstream_request_id : Option String

-- The `except` clauses of the call.
unfoldable pub failure_of : Error → Failure
failure_of (auth_error status id) = upstream_auth (some status) id
failure_of (client_error status id) = upstream_request (some status) id
failure_of (server_error status id) = upstream_unavailable (some status) id
failure_of connection_error = upstream_unavailable none none
failure_of timeout_error = upstream_unavailable none none
failure_of os_error = upstream_unavailable none none
failure_of uncaught = crashed

abbrev pub called : Outcome Error Response → Outcome Failure Response
called (raised error) = raised (failure_of error)
called (returned response) = returned response

-- `_required_string`: `none` where it raises.
unfoldable pub required_string : Option Json → Option String
required_string (some (str s)) = if is_blank s then none else some s
required_string _ = none

-- The title in the metadata: `none` where it raises.
unfoldable pub title_of : Option Json → Option (Option String)
title_of none = some none
title_of (some null) = some none
title_of (some (obj metadata)) = elim (member "title" metadata) [
  | some (str title) ↦ some (if is_blank (strip title) then none else some title)
  | _ ↦ some none
]
title_of (some _) = none

-- `text[:n]`.
unfoldable pub take_chars : ℕ → String → String
take_chars zero text = ""
take_chars (suc n) String.[] = ""
take_chars (suc n) (String.◌∷◌ c s) = String.◌∷◌ c (take_chars n s)

-- The parts of the envelope: the provider, the address, the content and the title.
unfoldable pub envelope : Fields → Option (String × String × String × Option String)
unfolding required_string title_of
envelope body = elim (required_string (member "provider" body)) [
  | none ↦ none
  | some provider ↦ elim (required_string (member "url" body)) [
    | none ↦ none
    | some url ↦ elim (member "content" body) [
      | some (str content) ↦ elim (title_of (member "metadata" body)) [
        | none ↦ none
        | some title ↦ some (provider, url, content, title)
      ]
      | _ ↦ none
    ]
  ]
]

-- `stripped` past the limit, and whether it is cut.
unfoldable pub cut : ℕ → String → String × Bool
cut max_content_length stripped =
    if not (is_blank stripped) && ltb max_content_length (count stripped)
    then (take_chars max_content_length stripped, true)
    else (stripped, false)

-- The answer, from the last lines of `fetch`.
unfoldable pub answer_of :
    ℕ → Request → Response → String → String → String → Option String → Answer
unfolding cut
answer_of max_content_length request response provider url content title =
    let stripped = strip content in
    record {
      request_id = request.context.request_id;
      correlation_id = request.context.correlation_id;
      provider = provider;
      url = url;
      fetched = not (is_blank stripped);
      title = if is_blank stripped then none else title;
      content = if is_blank stripped then none else some (cut max_content_length stripped).0;
      truncated = (cut max_content_length stripped).1;
      upstream_request_id = response.upstream_request_id;
    }

unfoldable pub read_envelope : ℕ → Request → Response → Outcome Failure Answer
unfolding envelope answer_of
read_envelope max_content_length request response = elim (envelope response.body) [
  | none ↦ raised (upstream_response (some response.status_code) response.upstream_request_id)
  | some (provider, url, content, title) ↦
      returned (answer_of max_content_length request response provider url content title)
]

module _ (key_file : File String) (network : Payload → Reply) where
  -- `OmniRouteFetchProvider.fetch`.
  unfoldable pub fetch_page : ℕ → Request → Target → Outcome Failure Answer
  fetch_page max_content_length request target = do
    response ← called (
        Omniroute.request key_file
          (network (record { url = request.url; provider = target.provider })))
    read_envelope max_content_length request response

  -- `FetchManager.fetch`.
  unfoldable pub manage : ℕ → Registry → ServiceRules Target → Request → Outcome Failure Answer
  manage max_content_length r rules request = do
    target ← resolve r rules request
    fetch_page max_content_length request target
