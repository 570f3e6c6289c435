-- ===== src/Admission.antt =====
-- api/deps.py and api/app.py, with the dependencies of the routes of AI, search and fetch: what a
-- request passes from its headers to the handler of its route, and what the API answers. FastAPI
-- solves the dependencies in their order: the identity, then the headers, then the context, and
-- last the body; `HTTPBearer` splits the header of the credential. The texts and codes of the
-- refusals, the metrics and the traces are left out.
pub mod Passed
pub mod Laws
pub mod Refused
pub mod PostAi
pub mod PostSearch
pub mod PostFetch
pub mod Counters
pub mod Windowed
pub mod Limit
pub mod Samples
mod AiExamples
mod SearchExamples
mod FetchExamples
mod Examples
use Prim.Native.String.{◌++◌}
use mathlib.Core.Option
use cesar_core.Base.{
  ℕ, ◌*◌, String, Bool, true, false, ◌||◌, Option, none, some, List, [], ◌∷◌, if◌then◌else◌,
}
use cesar_core.ControlPlane.Registry.{Capability}
use cesar_core.ControlPlane.Token.{Bytes, is_blank}
use cesar_core.ControlPlane.Credentials.{Store}
use cesar_core.ControlPlane.Rollups.{Row}
use cesar_core.Security.Authentication.{
  Config, Denial, not_configured, invalid_credential, Access, denied, granted_to, authenticate,
}
use cesar_core.Security.Authentication
use cesar_core.Security.Authorization.{
  Verdict, passed, access_denied, unavailable, exceeded, authorized_context,
}
use cesar_core.Security.Authorization
use cesar_core.Security.Quota.{Redis, consume}
use cesar_core.Gateway.Terms.{Context, Sent}

-- What is read of a request: what `HTTPBearer` makes of its credential, and its headers; with the
-- identifiers that are drawn for it, and the time of Redis.
pub record Incoming : Type 0 where
  pub credentials : Option (String × String)
  pub service : Option String
  pub purpose : Option String
  pub correlation : Option String
  pub new_request_id : String
  pub new_correlation_id : String
  pub at : ℕ

pub record Settings : Type 0 where
  pub security : Config
  pub quota_namespace : String
  pub durable : Bool

-- What the requests share: the tables, the counters of Redis, and the rollups.
pub record World (Db : Type 0) : Type 0 where
  pub store : Store
  pub counters : Db
  pub rows : List Row

pub data Header : Type 0 where
  www_authenticate : Header
  retry_after : (seconds : ℕ) → Header

-- The response: a refusal with its status, the error of the framework for an exception that nothing
-- expects, or what the handler sends.
pub data Response (Answer : Type 0) : Type 0 where
  refused : (status_code : ℕ) → List Header → Response Answer
  crashed : Response Answer
  handled : Sent Answer → Response Answer

-- `resolve_correlation_id`.
unfoldable pub resolve_correlation_id : Option String → String → String
resolve_correlation_id none new = new
resolve_correlation_id (some header) new = if is_blank header then new else header

-- `f"{credentials.scheme} {credentials.credentials}"`.
abbrev pub authorization : Option (String × String) → Option String
authorization none = none
authorization (some (scheme, text)) = some (scheme ++ (" " ++ text))

-- `handle_security_error`, for the errors of the authentication and of what follows.
unfoldable pub refused_identity : {Answer : Type 0} → Denial → Response Answer
refused_identity not_configured = refused 503 []
refused_identity invalid_credential = refused 401 (www_authenticate ∷ [])
refused_identity Denial.access_denied = refused 403 []
refused_identity Denial.crashed = crashed

-- `none` where the request may go on.
unfoldable pub refused_verdict : {Answer : Type 0} → Verdict → Option (Response Answer)
refused_verdict passed = none
refused_verdict access_denied = some (refused 403 [])
refused_verdict unavailable = some (refused 503 [])
refused_verdict (exceeded seconds) = some (refused 429 (retry_after seconds ∷ []))
refused_verdict Verdict.crashed = some crashed

-- `ApplicationContext`, whose texts must not be empty: `none` where it raises.
unfoldable pub context_of : Incoming → String → String → String → Option Context
context_of i application_id service purpose =
    if is_blank service || is_blank purpose
    then none
    else some (record {
      application_id = application_id;
      purpose = purpose;
      request_id = i.new_request_id;
      correlation_id = resolve_correlation_id i.correlation i.new_correlation_id;
    })

-- Both headers, or `none` where one is missing.
abbrev pub both_headers : Incoming → Option (String × String)
both_headers i = elim i.service [
  | none ↦ none
  | some service ↦ Option.map (λ purpose. (service, purpose)) i.purpose
]

abbrev pub window_seconds : ℕ
window_seconds = 60

module _ {Db : Type 0} (redis : Redis Db) (utf8 : String → Bytes)
    (hmac_sha256 : Bytes → Bytes → Bytes) (hex_tail : Bytes → String) where
  -- `get_authenticated_application`.
  unfoldable pub identify : Settings → Incoming → Store → Access String
  identify settings i s =
      authenticate utf8 hmac_sha256 hex_tail settings.security (authorization i.credentials) s

  -- `_authorized_context` of an identity, up to the context.
  unfoldable pub authorize : Settings → Capability → Incoming → String → World Db → Db × Verdict
  authorize settings c i id w =
      authorized_context (consume redis settings.durable i.at) settings.quota_namespace
        window_seconds id c w.store.registry w.counters

module _ {Answer Body : Type 0} (handler : Context → Body → List Row → List Row × Sent Answer) where
  -- The handler on a valid body.
  unfoldable pub handle :
      {Db : Type 0} → ℕ → Option Context → Option Body → World Db → World Db × Response Answer
  handle invalid none body w = (w, crashed)
  handle invalid (some context) none w = (w, refused invalid [])
  handle invalid (some context) (some body) w =
      let result = handler context body w.rows in (record w { rows = result.0 }, handled result.1)

  -- What follows `_authorized_context`.
  unfoldable pub proceed :
      {Db : Type 0}
      → ℕ
      → Incoming
      → String
      → String × String
      → Option Body
      → World Db
      → Db × Verdict
      → World Db × Response Answer
  proceed invalid i id (service, purpose) body w (db, verdict) =
      let after = record w { counters = db } in
      elim (refused_verdict verdict) [
        | some response ↦ (after, response)
        | none ↦ handle invalid (context_of i id service purpose) body after
      ]

module _ {Db : Type 0} (redis : Redis Db) (utf8 : String → Bytes)
    (hmac_sha256 : Bytes → Bytes → Bytes) (hex_tail : Bytes → String) {Answer Body : Type 0}
    (handler : Context → Body → List Row → List Row × Sent Answer) where
  -- A request of a route; `invalid` is the status for a header or a body that its models refuse,
  -- 400 for AI and 422 for the others, and a body is `none` where they refuse it.
  unfoldable pub serve :
      Settings → Capability → ℕ → Incoming → Option Body → World Db → World Db × Response Answer
  unfolding identify authorize
  serve settings c invalid i body w =
      elim (identify redis utf8 hmac_sha256 hex_tail settings i w.store) [
        | denied denial ↦ (w, refused_identity denial)
        | granted_to id ↦ elim (both_headers i) [
          | none ↦ (w, refused invalid [])
          | some texts ↦
              proceed handler invalid i id texts body w
                (authorize redis utf8 hmac_sha256 hex_tail settings c i id w)
        ]
      ]
