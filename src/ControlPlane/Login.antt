-- ===== src/ControlPlane/Login.antt =====
-- admin/auth.py with `login` and `logout` of admin/routes.py: how an administrator gets and uses a
-- session. SHA-256, Argon2, `urlsplit`, `lower` and the random texts are parameters; the audit trail
-- and the attributes of the cookie are left out.
pub mod Laws
pub mod Fresh
pub mod Examples
use Prim.Native.Char.{code}
use Prim.Native.String
use cesar_core.Base.{
  ℕ, String, Bool, true, false, not, ◌&&◌, Option, none, some, List, ◌==◌, ltb, nat_eq,
  if◌then◌else◌,
}
use cesar_core.ControlPlane.Registry.{ok, err}
use cesar_core.ControlPlane.Token.{
  Bytes, File, holds, unset, missing, unreadable, is_blank, starts_with, strip,
}
use cesar_core.ControlPlane.Sessions.{Session, create_session, validate_session, revoke_session}
use cesar_core.Security.Authentication.{is_file}
use cesar_core.Gateway.Terms.{Outcome, raised, returned, ◌>>=◌}

-- The part of `AdminConfig` that is read here; the times are in the unit of the sessions.
pub record Config : Type 0 where
  pub password_hash_file : File String
  pub credential_pepper_file : File Bytes
  pub allowed_origin : Option String
  pub session_absolute : ℕ
  pub session_idle : ℕ
  pub login_attempts_per_minute : ℕ

-- The cookie and the headers that are read.
pub record Request : Type 0 where
  pub cookie : Option String
  pub origin : Option String
  pub host : Option String
  pub csrf : Option String

-- What is a text that is not empty, as a condition of Python tests it.
abbrev pub filled : Option String → Option String
filled none = none
filled (some s) = if is_blank s then none else some s

unfoldable pub is_configured : Config → Bool
is_configured c =
    is_file c.password_hash_file
    && (is_file c.credential_pepper_file
        && elim (filled c.allowed_origin) [ none ↦ false | some s ↦ true ])

-- `text.rstrip("/")`.
unfoldable pub strip_slashes : String → String
strip_slashes String.[] = ""
strip_slashes (String.◌∷◌ c s) =
    let rest = strip_slashes s in
    if is_blank rest && nat_eq (code c) b'/' then "" else String.◌∷◌ c rest

abbrev pub is_text : Option String → String → Bool
is_text none s = false
is_text (some t) s = t == s

abbrev pub or_blank : Option String → String
or_blank none = ""
or_blank (some s) = s

-- What a request of the API comes to, with the status of an `HTTPException`.
abbrev pub Checked : Type 0 → Type 0
Checked = Outcome ℕ

module _ (digest : String → Bytes) (netloc lower : String → String) where
  unfoldable pub validate_origin : Request → Config → Checked String
  validate_origin request c = elim (filled c.allowed_origin) [
    | none ↦ raised 503
    | some allowed ↦
        if not (is_text request.origin (strip_slashes allowed))
        then raised 403
        else if not (lower (or_blank request.host) == lower (netloc allowed))
        then raised 403
        else returned allowed
  ]

  -- The CSRF token of a request that writes.
  unfoldable pub checked_csrf : Request → Config → Checked String
  unfolding validate_origin
  checked_csrf request c = do
    allowed ← validate_origin request c
    elim (filled request.csrf) [ none ↦ raised 403 | some csrf ↦ returned csrf ]

  -- The last lines of `require_session`.
  unfoldable pub validated :
      Option Bytes → ℕ → String → Config → List Session → List Session × Checked Session
  validated csrf now token c ss =
      let result = validate_session (digest token) csrf c.session_idle now ss in
      (result.0, elim result.1 [ none ↦ raised 401 | some s ↦ returned s ])

  -- `require_session`, where the Boolean is `write`.
  unfoldable pub require_session :
      Bool → Request → Config → ℕ → List Session → List Session × Checked Session
  unfolding validated checked_csrf
  require_session write request c now ss =
      if not (is_configured c) then (ss, raised 503) else elim (filled request.cookie) [
        | none ↦ (ss, raised 401)
        | some token ↦
            if write
            then elim (checked_csrf request c) [
              | raised status ↦ (ss, raised status)
              | returned csrf ↦ validated (some (digest csrf)) now token c ss
            ]
            else validated none now token c ss
      ]

  -- `logout`.
  unfoldable pub logout : Request → Config → ℕ → List Session → List Session × Checked Session
  logout request c now ss =
      let result = require_session true request c now ss in
      elim result.1 [
        | raised status ↦ result
        | returned s ↦ elim (filled request.cookie) [
          | none ↦ result
          | some token ↦ (revoke_session (digest token) now result.0, returned s)
        ]
      ]

  -- `verify_password`, past the test of the configuration; `verify` is Argon2's.
  unfoldable pub is_password : (String → String → Bool) → String → File String → Bool
  is_password verify password (holds text) =
      starts_with "$argon2id$" (strip text) && verify (strip text) password
  is_password verify password _ = false

  -- `rate_limit_login`: `count` is the number of attempts that Redis counts, if it answers.
  unfoldable pub rate_limit : Option ℕ → Config → Checked ℕ
  rate_limit none c = raised 503
  rate_limit (some count) c =
      if ltb c.login_attempts_per_minute count then raised 429 else returned count

  -- `login`, with the texts that `issue_session` draws: the session's identifier, its token and its
  -- CSRF token. An error of the table is the status 500.
  unfoldable pub login :
      (String → String → Bool)
      → Option ℕ
      → String
      → String
      → String
      → Request
      → Config
      → String
      → ℕ
      → List Session
      → List Session × Checked (String × String)
  unfolding validate_origin rate_limit is_password
  login verify count id token csrf request c password now ss =
      elim (do allowed ← validate_origin request c; rate_limit count c) [
        | raised status ↦ (ss, raised status)
        | returned attempts ↦
            if not (is_configured c)
            then (ss, raised 503)
            else if not (is_password verify password c.password_hash_file)
            then (ss, raised 401)
            else elim (create_session id (digest token) (digest csrf) c.session_absolute now ss) [
              | err failure ↦ (ss, raised 500)
              | ok sessions ↦ (sessions, returned (token, csrf))
            ]
      ]
