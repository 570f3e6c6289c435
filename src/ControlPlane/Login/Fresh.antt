-- ===== src/ControlPlane/Login/Fresh.antt =====
-- A session that a login opened, in the requests after it.
use cesar_core.Base.{
  ℕ, ◌+◌, ◌<◌, String, ◌≡◌, refl, ◌∙◌, Bool, true, false, Option, none, some, List, [], ◌∷◌, ◌++◌,
  arith, ◌⊎◌, inl, inr,
}
use cesar_core.ControlPlane.Registry.{Result, Error, ok, err}
use cesar_core.ControlPlane.Token.{Bytes, is_blank, compare_digest}
use cesar_core.ControlPlane.Token.Laws.{compare_digest_refl}
use cesar_core.ControlPlane.Sessions.{
  Session, is_open, open_session, is_current, hash_used, create_session, validate_session,
}
use cesar_core.Gateway.Terms.{returned, outcome-cases}
use cesar_core.ControlPlane.Login.{
  Config, Request, filled, is_configured, validate_origin, checked_csrf, validated, require_session,
  login,
}

-- The row of a new session.
abbrev pub new_session : String → Bytes → Bytes → ℕ → ℕ → Session
new_session id token_hash csrf_hash lifetime now = record {
  id = id;
  token_hash = token_hash;
  csrf_hash = csrf_hash;
  created_at = now;
  last_seen_at = now;
  expires_at = now + lifetime;
  revoked_at = none;
}

appended-open :
    (hash : Bytes) (ss : List Session) (s : Session)
    → hash_used hash ss ≡ false
    → is_open hash s ≡ true
    → open_session hash (ss ++ s ∷ []) ≡ some s
unfolding open_session hash_used
appended-open hash [] s unused e = rw e refl
appended-open hash (x ∷ ss) s unused e = ground (arith, appended-open hash ss s)

created-open :
    (id : String) (token_hash csrf_hash : Bytes) (lifetime now : ℕ) (ss ts : List Session)
    → create_session id token_hash csrf_hash lifetime now ss ≡ ok ts
    → open_session token_hash ts ≡ some (new_session id token_hash csrf_hash lifetime now)
unfolding create_session
created-open id token_hash csrf_hash lifetime now ss ts h =
    let made : ss ++ new_session id token_hash csrf_hash lifetime now ∷ [] ≡ ts = ground arith in
    rw (← made) (
      appended-open token_hash ss (new_session id token_hash csrf_hash lifetime now) (ground arith)
        (ground (arith, compare_digest_refl token_hash)))

created-validate :
    (id : String) (token_hash csrf_hash : Bytes) (lifetime idle now later : ℕ)
    (ss ts : List Session) (csrf : Option Bytes)
    → create_session id token_hash csrf_hash lifetime now ss ≡ ok ts
    → later < now + lifetime
    → later < now + idle
    → (elim csrf [ none ↦ true | some hash ↦ compare_digest csrf_hash hash ]) ≡ true
    → (validate_session token_hash csrf idle later ts).1
      ≡ some (new_session id token_hash csrf_hash lifetime now)
unfolding validate_session is_current
created-validate id token_hash csrf_hash lifetime idle now later ss ts csrf h live fresh same =
    ground (arith, created-open id token_hash csrf_hash lifetime now ss ts h)

Result-cases {ℓ} :
    {A : Type ℓ} (x : Result A) → ((e : Error) × (x ≡ err e)) ⊎ ((a : A) × (x ≡ ok a))
Result-cases (ok a) = inr (a, refl)
Result-cases (err e) = inl (e, refl)

module _ (digest : String → Bytes) (netloc lower : String → String) where
  login_parts :
      (verify : String → String → Bool) (count : Option ℕ) (id token csrf : String)
      (request : Request) (c : Config) (password : String) (now : ℕ) (ss ts : List Session)
      (pair : String × String)
      → login digest netloc lower verify count id token csrf request c password now ss
        ≡ (ts, returned pair)
      → (allowed : String) × (validate_origin digest netloc lower request c ≡ returned allowed)
        × (is_configured c ≡ true)
        × (create_session id (digest token) (digest csrf) c.session_absolute now ss ≡ ok ts)
  unfolding login
  login_parts verify count id token csrf request c password now ss ts pair h =
      elim (outcome-cases (validate_origin digest netloc lower request c)) [
        | inl (status, e) ↦ absurd (ground arith)
        | inr (allowed, e) ↦
            elim (Result-cases
              (create_session id (digest token) (digest csrf) c.session_absolute now ss)) [
                | inl (failure, f) ↦ absurd (ground arith)
                | inr (sessions, f) ↦ (allowed, e, ground arith, ground arith)
              ]
      ]

  -- A request with the cookie and the CSRF token of a session, from where the login came.
  abbrev pub with_session : Request → String → String → Request
  with_session request token csrf = record request { cookie = some token; csrf = some csrf }

  origin_same :
      (request : Request) (c : Config) (token csrf : String)
      → validate_origin digest netloc lower (with_session request token csrf) c
        ≡ validate_origin digest netloc lower request c
  unfolding validate_origin
  origin_same request c token csrf = refl

  csrf_carried :
      (request : Request) (c : Config) (token csrf allowed : String)
      → is_blank csrf ≡ false
      → validate_origin digest netloc lower request c ≡ returned allowed
      → checked_csrf digest netloc lower (with_session request token csrf) c ≡ returned csrf
  unfolding checked_csrf
  csrf_carried request c token csrf allowed filled origin =
      rw (origin_same request c token csrf ∙ origin, filled) refl

  granted_write :
      (request : Request) (c : Config) (token csrf : String) (now : ℕ) (ts : List Session)
      (s : Session)
      → is_configured c ≡ true
      → is_blank token ≡ false
      → checked_csrf digest netloc lower (with_session request token csrf) c ≡ returned csrf
      → (validate_session (digest token) (some (digest csrf)) c.session_idle now ts).1 ≡ some s
      → (require_session digest netloc lower true (with_session request token csrf) c now ts).1
        ≡ returned s
  unfolding require_session validated
  granted_write request c token csrf now ts s configured filled carried h = ground arith

  -- After a login that drew two tokens that are not empty, a request that carries them from where
  -- the login came may write, at any time before both the lifetime and the idle time of the session
  -- end.
  pub login-require_session :
      (verify : String → String → Bool) (count : Option ℕ) (id token csrf : String)
      (request : Request) (c : Config) (password : String) (now later : ℕ) (ss ts : List Session)
      (pair : String × String)
      → login digest netloc lower verify count id token csrf request c password now ss
        ≡ (ts, returned pair)
      → is_blank token ≡ false
      → is_blank csrf ≡ false
      → later < now + c.session_absolute
      → later < now + c.session_idle
      → (require_session digest netloc lower true (with_session request token csrf) c later ts).1
        ≡ returned (new_session id (digest token) (digest csrf) c.session_absolute now)
  login-require_session verify count id token csrf request c password now later ss ts pair h t x
        live fresh =
      let (allowed, origin, configured, made) =
        login_parts verify count id token csrf request c password now ss ts pair h in
      granted_write request c token csrf later ts _ configured t
        (csrf_carried request c token csrf allowed x origin)
        (created-validate id (digest token) (digest csrf) c.session_absolute c.session_idle now
          later ss ts (some (digest csrf)) made live fresh (compare_digest_refl (digest csrf)))
