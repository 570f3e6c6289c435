-- ===== src/Gateway/Ai/Failures.antt =====
-- How a request fails where its first call does, and where a use is not reported.
use cesar_core.Base.{
  ℕ, ◌≤◌, String, ◌≡◌, refl, true, ◌||◌, Option, none, some, List, [], arith, leb, ltb, nat_eq,
  if◌then◌else◌, inl, inr,
}
use cesar_core.ControlPlane.Token.{File}
use cesar_core.Gateway.Json.{Json, null, bool, int, negative, float, str, arr, obj, member}
use cesar_core.Gateway.Omniroute.{
  Reply, timed_out, unreachable, broken, answered, Response, has_key, received, raise_for_status,
  with_body,
}
use cesar_core.Gateway.Omniroute
use cesar_core.Gateway.Terms.{outcome-cases, raised, returned}
use cesar_core.Gateway.Ai.{
  Request, Target, Failure, upstream_auth, upstream_request, upstream_response,
  upstream_unavailable, crashed,
}
use cesar_core.Gateway.Ai.Usage.{Usage, normalize_usage, sum_usage, verify_max_tokens}
use cesar_core.Gateway.Ai.Grounding.{Payload}
use cesar_core.Gateway.Ai.Budget.{finish-usage}
use cesar_core.Gateway.Ai.Provider.{
  Answer, failure_of, called, content_of, are_sources, finish, first_payload, complete,
}

-- The failure that a reply to the first call means, if any: a status that refuses the credential, one
-- that refuses the request, an upstream that is down, or an answer that is no object of JSON.
unfoldable pub failure_for : Reply → Option Failure
failure_for timed_out = some (upstream_unavailable none none)
failure_for unreachable = some (upstream_unavailable none none)
failure_for broken = some crashed
failure_for (answered status body id provider) =
    if leb 400 status
    then some (
        if nat_eq status 401 || nat_eq status 403
        then upstream_auth (some status) id
        else if ltb status 500
        then upstream_request (some status) id
        else upstream_unavailable (some status) id)
    else elim body [ some (obj fields) ↦ none | _ ↦ some crashed ]

received-failure :
    (reply : Reply) (failure : Failure)
    → failure_for reply ≡ some failure
    → called (received reply) ≡ raised failure
unfolding failure_for received raise_for_status failure_of
received-failure timed_out failure h = ground arith
received-failure unreachable failure h = ground arith
received-failure broken failure h = ground arith
received-failure (answered status none id provider) failure h = ground arith
received-failure (answered status (some (obj fields)) id provider) failure h = ground arith
received-failure (answered status (some null) id provider) failure h = ground arith
received-failure (answered status (some (bool b)) id provider) failure h = ground arith
received-failure (answered status (some (int n)) id provider) failure h = ground arith
received-failure (answered status (some (negative n)) id provider) failure h = ground arith
received-failure (answered status (some (float s)) id provider) failure h = ground arith
received-failure (answered status (some (str s)) id provider) failure h = ground arith
received-failure (answered status (some (arr vs)) id provider) failure h = ground arith

module _ (loads : String → Option Json) (key_file : File String)
    (network_first network_second : Payload → Reply) where
  -- Where the key of the upstream can be read, and the reply to the first call means a failure, the
  -- request fails with exactly that failure, whatever a second call would give.
  pub first_call_failure :
      (request : Request) (target : Target) (failure : Failure)
      → has_key key_file ≡ true
      → failure_for (network_first (first_payload request target)) ≡ some failure
      → complete loads key_file network_first network_second request target ≡ raised failure
  unfolding complete Omniroute.request
  first_call_failure request target failure key h =
      rw (key, received-failure (network_first (first_payload request target)) failure h)

-- A response with a text and no use, after a call that used no more than the limit, is answered.
answered_alone :
    (request : Request) (target : Target) (first : Usage) (sources : List String)
    (response : Response) (content : String) (limit used : ℕ)
    → request.max_tokens ≡ some limit
    → member "usage" response.body ≡ none
    → content_of response.body ≡ some content
    → are_sources sources ≡ true
    → first.completion_tokens ≡ some used
    → leb used limit ≡ true
    → (a : Answer) × (finish request target (some first) sources response ≡ returned a)
unfolding finish normalize_usage sum_usage verify_max_tokens content_of
answered_alone request target first sources response content limit used e u c ok reported within =
    elim (outcome-cases (finish request target (some first) sources response)) [
      | inl (failure, h) ↦ absurd (ground arith)
      | inr (a, h) ↦ (a, h)
    ]

-- Where the last response has a text and reports no use at all, a request with a limit and without a
-- search is refused; but after a search that has its sources and used no more than the limit, the
-- same response is answered, with the use of the first call alone.
pub unreported_usage :
    (request : Request) (target : Target) (first : Usage) (sources : List String)
    (response : Response) (content : String) (limit used : ℕ)
    → request.max_tokens ≡ some limit
    → member "usage" response.body ≡ none
    → content_of response.body ≡ some content
    → are_sources sources ≡ true
    → first.completion_tokens ≡ some used
    → used ≤ limit
    → (finish request target none [] response
        ≡ raised (upstream_response (some response.status_code) response.upstream_request_id))
      × ((a : Answer) × (finish request target (some first) sources response ≡ returned a)
          × (a.usage ≡ some first))
unfolding finish normalize_usage sum_usage verify_max_tokens content_of
unreported_usage request target first sources response content limit used e u c ok reported within =
    let (a, h) =
      answered_alone request target first sources response content limit used e u c ok reported
        (ground arith) in
    (
      ground arith,
      (a, h, rw ((finish-usage request target (some first) sources response a h).0, u) refl),
    )
