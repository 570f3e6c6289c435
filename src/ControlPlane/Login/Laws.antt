-- ===== src/ControlPlane/Login/Laws.antt =====
-- What a request of the administrative API has shown, and what a login and a logout do to it.
use cesar_core.Base.{
  ℕ, ◌+◌, ◌<◌, String, ◌≡◌, refl, ap, ◌∙◌, Bool, true, false, Option, none, some, List, arith,
  Option-cases, inl, inr, eq_iff,
}
use cesar_core.ControlPlane.Token.{Bytes}
use cesar_core.ControlPlane.Sessions.{Session, validate_session}
use cesar_core.ControlPlane.Sessions.Laws.{validate_session-IsValid}
use cesar_core.Gateway.Terms.{returned, chained, outcome-cases}
use cesar_core.ControlPlane.Login.{
  Config, Request, filled, is_configured, strip_slashes, is_text, or_blank, validate_origin,
  checked_csrf, validated, require_session,
}

module _ (digest : String → Bytes) (netloc lower : String → String) where
  -- What a request that writes has shown: it comes from the allowed origin, by its host, and carries
  -- the CSRF token of the session.
  pub IsWrite : Bool → Request → Config → Session → Type 0
  IsWrite false request c s = Unit
  IsWrite true request c s =
      (allowed : String) × (csrf : String) × (c.allowed_origin ≡ some allowed)
      × (request.origin ≡ some (strip_slashes allowed))
      × (lower (or_blank request.host) ≡ lower (netloc allowed))
      × (request.csrf ≡ some csrf)
      × (s.csrf_hash ≡ digest csrf)

  -- What holds of a session that a request is granted.
  pub record IsGranted (write : Bool) (request : Request) (c : Config) (now : ℕ) (s : Session)
      : Type 0 where
    pub configured : is_configured c ≡ true
    pub token : String
    pub carries : request.cookie ≡ some token
    pub matches : s.token_hash ≡ digest token
    pub live : s.revoked_at ≡ none
    pub unexpired : now < s.expires_at
    pub fresh : now < s.last_seen_at + c.session_idle
    pub is_write : IsWrite write request c s

filled-some : (o : Option String) (s : String) → filled o ≡ some s → o ≡ some s
filled-some none s h = h
filled-some (some t) s h = ground arith

is_text-some : (o : Option String) (s : String) → is_text o s ≡ true → o ≡ some s
is_text-some none s h = cc
is_text-some (some t) s h = ap some ((eq_iff t s).0 h)

module _ (digest : String → Bytes) (netloc lower : String → String) where
  origin_shown :
      (request : Request) (c : Config) (allowed : String)
      → validate_origin digest netloc lower request c ≡ returned allowed
      → (c.allowed_origin ≡ some allowed)
        × (request.origin ≡ some (strip_slashes allowed))
        × (lower (or_blank request.host) ≡ lower (netloc allowed))
  unfolding validate_origin
  origin_shown request c allowed h = elim (Option-cases (filled c.allowed_origin)) [
    | inl e ↦ absurd (ground arith)
    | inr (a, e) ↦
        let same : a ≡ allowed = ground arith in
        (
          filled-some c.allowed_origin allowed (e ∙ ap some same),
          is_text-some request.origin (strip_slashes allowed) (ground arith),
          (eq_iff (lower (or_blank request.host)) (lower (netloc allowed))).0 (ground arith),
        )
  ]

  csrf_shown :
      (request : Request) (c : Config) (csrf : String)
      → checked_csrf digest netloc lower request c ≡ returned csrf
      → (allowed : String) × (validate_origin digest netloc lower request c ≡ returned allowed)
        × (request.csrf ≡ some csrf)
  unfolding checked_csrf
  csrf_shown request c csrf h =
      let (allowed, e, h₁) = chained (validate_origin digest netloc lower request c) _ h in
      (
        allowed,
        e,
        elim (Option-cases (filled request.csrf)) [
          | inl f ↦ absurd (ground arith)
          | inr (t, f) ↦ filled-some request.csrf csrf (ground arith)
        ],
      )

  validated-some :
      (csrf : Option Bytes) (now : ℕ) (token : String) (c : Config) (ss : List Session)
      (s : Session)
      → (validated digest netloc lower csrf now token c ss).1 ≡ returned s
      → (validate_session (digest token) csrf c.session_idle now ss).1 ≡ some s
  unfolding validated
  validated-some csrf now token c ss s h =
      elim (Option-cases (validate_session (digest token) csrf c.session_idle now ss).1) [
        | inl e ↦ absurd (ground arith)
        | inr (t, e) ↦ ground arith
      ]

  admitted_read :
      (request : Request) (c : Config) (now : ℕ) (ss : List Session) (s : Session)
      → (require_session digest netloc lower false request c now ss).1 ≡ returned s
      → (token : String) × (is_configured c ≡ true)
        × (filled request.cookie ≡ some token)
        × ((validated digest netloc lower none now token c ss).1 ≡ returned s)
  unfolding require_session
  admitted_read request c now ss s h = elim (Option-cases (filled request.cookie)) [
    | inl e ↦ absurd (ground arith)
    | inr (token, e) ↦ (token, ground arith, e, ground arith)
  ]

  admitted_write :
      (request : Request) (c : Config) (now : ℕ) (ss : List Session) (s : Session)
      → (require_session digest netloc lower true request c now ss).1 ≡ returned s
      → (token csrf : String) × (is_configured c ≡ true)
        × (filled request.cookie ≡ some token)
        × (checked_csrf digest netloc lower request c ≡ returned csrf)
        × ((validated digest netloc lower (some (digest csrf)) now token c ss).1 ≡ returned s)
  unfolding require_session
  admitted_write request c now ss s h = elim (Option-cases (filled request.cookie)) [
    | inl e ↦ absurd (ground arith)
    | inr (token, e) ↦ elim (outcome-cases (checked_csrf digest netloc lower request c)) [
      | inl (status, f) ↦ absurd (ground arith)
      | inr (csrf, f) ↦ (token, csrf, ground arith, e, f, ground arith)
    ]
  ]

  -- A request that is granted a session carries its token in the cookie, and the session is not
  -- revoked, within its lifetime and its idle time; a request that writes comes from the allowed
  -- origin, by its host, and carries the CSRF token of the session.
  pub require_session-IsGranted :
      (write : Bool) (request : Request) (c : Config) (now : ℕ) (ss : List Session) (s : Session)
      → (require_session digest netloc lower write request c now ss).1 ≡ returned s
      → IsGranted digest netloc lower write request c now s
  unfolding IsWrite
  require_session-IsGranted false request c now ss s h =
      let (token, configured, e, h₁) = admitted_read request c now ss s h in
      let (matches, live, unexpired, fresh, _) =
        validate_session-IsValid (digest token) none c.session_idle now ss s
          (validated-some none now token c ss s h₁) in
      record {
        configured = configured;
        token = token;
        carries = filled-some request.cookie token e;
        matches = matches;
        live = live;
        unexpired = unexpired;
        fresh = fresh;
        is_write = tt;
      }
  require_session-IsGranted true request c now ss s h =
      let (token, csrf, configured, e, f, h₁) = admitted_write request c now ss s h in
      let (matches, live, unexpired, fresh, same) =
        validate_session-IsValid (digest token) (some (digest csrf)) c.session_idle now ss s
          (validated-some (some (digest csrf)) now token c ss s h₁) in
      let (allowed, g, carried) = csrf_shown request c csrf f in
      let (known, origin, host) = origin_shown request c allowed g in
      record {
        configured = configured;
        token = token;
        carries = filled-some request.cookie token e;
        matches = matches;
        live = live;
        unexpired = unexpired;
        fresh = fresh;
        is_write = (allowed, csrf, known, origin, host, carried, same (digest csrf) refl);
      }
