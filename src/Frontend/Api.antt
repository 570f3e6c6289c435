-- ===== src/Frontend/Api.antt =====
-- frontend/src/api.ts: one request to the administrative API.
pub mod Laws
mod Examples
use Prim.Native.String
use cesar_core.Base.{
  ℕ, String, Bool, true, false, ◌&&◌, not, Option, none, some, ◌==◌, leb, ltb, nat_eq, or_else,
  if◌then◌else◌, Dict, insert,
}

-- What a promise settles to; a rejection carries the `message` of its error.
pub data Reply {ℓ} (A : Type ℓ) : Type ℓ where
  ok : A → Reply A
  failed : String → Reply A

-- `RequestInit`, as far as the callers fill it. The headers stand under lower-case names, as
-- `new Headers` keeps them.
pub record Init : Type 0 where
  pub method : Option String
  pub headers : Dict String
  pub body : Option String

-- What `api` hands to `fetch`.
pub record Call : Type 0 where
  pub url : String
  pub method : Option String
  pub headers : Dict String
  pub body : Option String
  pub same_origin : Bool

-- A text is truthy unless it is empty, and `undefined` is not.
abbrev pub truthy : Option String → Bool
truthy none = false
truthy (some s) = not (s == "")

-- `init.method && init.method !== "GET"`.
abbrev pub is_write : Option String → Bool
is_write none = false
is_write (some m) = not (m == "") && not (m == "GET")

with_content_type : Init → Dict String
with_content_type init =
    if truthy init.body then insert "content-type" "application/json" init.headers else init.headers

with_csrf : String → Init → Dict String → Dict String
with_csrf csrf init headers =
    if is_write init.method then insert "x-csrf-token" csrf headers else headers

-- The request that `api(path, init)` sends while the module's `csrf` is the given one.
unfoldable pub request : String → String → Init → Call
unfolding with_content_type with_csrf
request csrf path init = record {
  url = String.◌++◌ "/admin/api" path;
  method = init.method;
  headers = with_csrf csrf init (with_content_type init);
  body = init.body;
  same_origin = true;
}

-- A response of `fetch`: its status, and what `json()` settles to. `J` is the type of JSON values.
pub record Response (J : Type 0) : Type 0 where
  pub status : ℕ
  pub json : Reply J

abbrev pub is_ok : ℕ → Bool
is_ok status = leb 200 status && ltb status 300

-- The body of an accepted request; `none` is `undefined`.
unfoldable pub result : {J : Type 0} → ℕ → Reply J → Reply (Option J)
result status (failed message) = if nat_eq status 204 then ok none else failed message
result status (ok j) = if nat_eq status 204 then ok none else ok (some j)

-- `detail_of` reads `.detail` of a JSON value: it throws on `null`, and gives nothing where the
-- value has no such property.
module _ {J : Type 0} (detail_of : J → Reply (Option String)) where
  -- The message of the error that a refused request raises.
  unfoldable pub refusal : Reply J → String
  refusal (failed _) = "Request failed"
  refusal (ok j) = elim (detail_of j) [
    | failed message ↦ message
    | ok detail ↦ or_else detail "Request failed"
  ]

  -- What `api` settles to, from what `fetch` settles to.
  unfoldable pub settle : Reply (Response J) → Reply (Option J)
  unfolding refusal result
  settle (failed message) = failed message
  settle (ok response) =
      if is_ok response.status
      then result response.status response.json
      else failed (refusal response.json)

-- `setCsrf`: the module's variable and the key of the session storage.
pub record Tokens : Type 0 where
  pub csrf : String
  pub session_storage : Dict String

unfoldable pub set_csrf : String → Tokens → Tokens
set_csrf value t = record {
  csrf = value;
  session_storage = insert "cesar-core-csrf" value t.session_storage;
}
