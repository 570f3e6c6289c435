-- ===== src/Gateway/Omniroute.antt =====
-- omniroute/client.py and omniroute/errors.py: one call of the upstream gateway. What the network does
-- is the `Reply`.
use cesar_core.Base.{
  ℕ, String, Bool, ◌&&◌, ◌||◌, Option, none, some, leb, ltb, nat_eq, if◌then◌else◌,
}
use cesar_core.Gateway.Json.{Json, obj, Fields}
use cesar_core.ControlPlane.Token.{File, holds}
use cesar_core.Gateway.Terms.{Outcome, raised, returned}

-- What the library for HTTP gives: a timeout, a failure to connect, any other exception of it, or an
-- answer. The body is `none` where it is no JSON.
pub data Reply : Type 0 where
  timed_out unreachable broken : Reply
  answered : (status_code : ℕ) (body : Option Json) (request_id provider : Option String) → Reply

-- `OmniRouteResponse`.
pub record Response : Type 0 where
  pub status_code : ℕ
  pub body : Fields
  pub upstream_request_id : Option String
  pub selected_provider : Option String

-- The errors of omniroute/errors.py, `OSError`, and `uncaught` for any other exception.
pub data Error : Type 0 where
  auth_error client_error server_error :
      (status_code : ℕ) (upstream_request_id : Option String) → Error
  connection_error timeout_error os_error uncaught : Error

-- `_raise_for_status`: `none` where it returns.
unfoldable pub raise_for_status : ℕ → Option String → Option Error
raise_for_status status id =
    if nat_eq status 401 || nat_eq status 403
    then some (auth_error status id)
    else if leb 400 status && ltb status 500
    then some (client_error status id)
    else if leb 500 status
    then some (server_error status id)
    else none

-- `OmniRouteResponse(…)` of the body, which must be an object.
abbrev pub with_body : ℕ → Option Json → Option String → Option String → Outcome Error Response
with_body status (some (obj fields)) id provider = returned (record {
  status_code = status;
  body = fields;
  upstream_request_id = id;
  selected_provider = provider;
})
with_body status _ id provider = raised uncaught

-- `read_api_key`: whether the file of the key can be read.
abbrev pub has_key : File String → Bool
has_key (holds text) = Bool.true
has_key _ = Bool.false

-- `request` past the key, from what the network does.
unfoldable pub received : Reply → Outcome Error Response
unfolding raise_for_status
received timed_out = raised timeout_error
received unreachable = raised connection_error
received broken = raised uncaught
received (answered status body id provider) = elim (raise_for_status status id) [
  | some error ↦ raised error
  | none ↦ with_body status body id provider
]

unfoldable pub request : File String → Reply → Outcome Error Response
unfolding received
request key_file reply = if has_key key_file then received reply else raised os_error

-- `chat_authentication_enforced`, and its versions for search and fetch.
unfoldable pub authentication_enforced : Reply → Outcome Error Bool
unfolding raise_for_status
authentication_enforced timed_out = raised timeout_error
authentication_enforced unreachable = raised connection_error
authentication_enforced broken = raised uncaught
authentication_enforced (answered status body id provider) =
    if nat_eq status 401 || nat_eq status 403
    then returned Bool.true
    else if leb 500 status
    then elim (raise_for_status status id) [
      | some error ↦ raised error
      | none ↦ returned Bool.false
    ]
    else returned Bool.false

-- `_credential_reaches_target_validation`.
unfoldable pub credential_accepted : Reply → Outcome Error Bool
unfolding raise_for_status
credential_accepted timed_out = raised timeout_error
credential_accepted unreachable = raised connection_error
credential_accepted broken = raised uncaught
credential_accepted (answered status body id provider) =
    if nat_eq status 401 || nat_eq status 403
    then returned Bool.false
    else if leb 500 status
    then elim (raise_for_status status id) [
      | some error ↦ raised error
      | none ↦ returned (nat_eq status 400)
    ]
    else returned (nat_eq status 400)
