-- ===== src/ControlPlane/Login/Examples.antt =====
-- Runs of a login and of the requests after it.
use Prim.Native.Char.{code}
use cesar_core.Base.{arith, ℕ, String, ◌≡◌, refl, Bool, true, false, none, some, [], ◌∷◌}
use cesar_core.ControlPlane.Token.{
  Bytes, holds, compare_digest, starts_with, strip, left_strip, right_strip, is_space,
}
use cesar_core.ControlPlane.Sessions.{
  Session, open_session, id_used, hash_used, create_session, touch, is_current, validate_session,
  revoke_session,
}
use cesar_core.Gateway.Terms.{raised, returned}
use cesar_core.ControlPlane.Login.{
  Config, Request, is_configured, strip_slashes, validate_origin, checked_csrf, validated,
  require_session, logout, is_password, rate_limit, login,
}
use cesar_core.ControlPlane.Login.Fresh.{new_session, with_session, login-require_session}
use cesar_core.ControlPlane.Login.Laws.{IsGranted, require_session-IsGranted}

abbrev pub repeated : ℕ → ℕ → Bytes
repeated ℕ.zero b = []
repeated (ℕ.suc n) b = b ∷ repeated n b

-- A digest of 32 bytes, from the first character.
abbrev pub digest : String → Bytes
digest String.[] = repeated 32 0
digest (String.◌∷◌ c s) = repeated 32 (code c)

abbrev pub same_text : String → String
same_text text = text

abbrev pub host_of : String → String
host_of text = "core.example"

abbrev pub config : Config
config = record {
  password_hash_file = holds "$argon2id$hash";
  credential_pepper_file = holds (repeated 40 7);
  allowed_origin = some "https://core.example";
  session_absolute = 300;
  session_idle = 60;
  login_attempts_per_minute = 5;
}

-- A request of the interface with the cookie and the CSRF token that a login gave.
abbrev pub asked : Request
asked = record {
  cookie = some "token";
  origin = some "https://core.example";
  host = some "core.example";
  csrf = some "csrf";
}

abbrev pub any_password : String → String → Bool
any_password encoded password = true

abbrev opened : Session
opened = record {
  id = "s";
  token_hash = digest "token";
  csrf_hash = digest "csrf";
  created_at = 100;
  last_seen_at = 100;
  expires_at = 400;
  revoked_at = none;
}

logged_in :
    login digest host_of same_text any_password
      (some 1)
      "s"
      "token"
      "csrf"
      asked
      config
      "secret"
      100
      []
    ≡ (opened ∷ [], returned ("token", "csrf"))
unfolding login is_configured validate_origin rate_limit is_password strip_slashes create_session
    id_used hash_used starts_with strip left_strip right_strip is_space
logged_in = refl

-- The sixth attempt of a minute is refused.
too_many :
    login digest host_of same_text any_password
      (some 6)
      "s"
      "token"
      "csrf"
      asked
      config
      "secret"
      100
      []
    ≡ ([], raised 429)
unfolding login validate_origin rate_limit strip_slashes
too_many = refl

granted :
    (require_session digest host_of same_text true asked config 150 (opened ∷ [])).1
    ≡ returned opened
unfolding require_session is_configured checked_csrf validate_origin strip_slashes validated
    validate_session open_session is_current compare_digest
granted = refl

require_session-IsGranted_example : IsGranted digest host_of same_text true asked config 150 opened
require_session-IsGranted_example =
    require_session-IsGranted digest host_of same_text true asked config 150 (opened ∷ []) opened
      granted

-- After a logout, the token opens nothing.
gone :
    (require_session digest host_of same_text false asked config 152
      (logout digest host_of same_text asked config 151 (opened ∷ [])).0).1
    ≡ raised 401
unfolding logout require_session is_configured checked_csrf validate_origin strip_slashes validated
    validate_session open_session is_current compare_digest touch revoke_session
gone = refl

login-require_session_example :
    (require_session digest host_of same_text true
      (with_session digest host_of same_text asked "token" "csrf")
      config
      150
      (opened ∷ [])).1
    ≡ returned (new_session "s" (digest "token") (digest "csrf") 300 100)
login-require_session_example =
    login-require_session digest host_of same_text any_password (some 1) "s" "token" "csrf" asked
      config "secret" 100 150 [] (opened ∷ []) ("token", "csrf") logged_in refl refl (omega arith)
      (omega arith)
