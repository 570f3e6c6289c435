-- ===== src/ControlPlane/Sessions/Laws.antt =====
-- Which sessions are valid, and that a closed one stays closed.
use cesar_core.Base.{
  ℕ, ◌+◌, ◌<◌, String, ◌≡◌, refl, true, false, Option, none, some, List, [], ◌∷◌, ◌++◌, ◌==◌, arith,
  Bool-cases, Option-cases, inl, inr, ◌⊎◌,
}
use cesar_core.ControlPlane.Registry.{ok}
use cesar_core.ControlPlane.Token.{Bytes, compare_digest}
use cesar_core.ControlPlane.Token.Laws.{compare_digest_eq}
use cesar_core.ControlPlane.Sessions.{
  Session, is_open, open_session, hash_used, create_session, touch, is_current, validate_session,
  revoke_session,
}

open_session-lem :
    (hash : Bytes) (ss : List Session) (s : Session)
    → open_session hash ss ≡ some s
    → (s.token_hash ≡ hash) × (s.revoked_at ≡ none)
unfolding open_session
open_session-lem hash [] s h = absurd (ground arith)
open_session-lem hash (x ∷ ss) s h = elim (Bool-cases (is_open hash x)) [
  | inl e ↦ (ground (arith, compare_digest_eq x.token_hash hash), ground arith)
  | inr e ↦ open_session-lem hash ss s (ground arith)
]

-- A session that is validated is not revoked and has the digest of the token, is within its lifetime
-- and its idle time, and has the digest of the CSRF token where one is asked for.
pub validate_session-IsValid :
    (hash : Bytes) (csrf : Option Bytes) (idle now : ℕ) (ss : List Session) (s : Session)
    → (validate_session hash csrf idle now ss).1 ≡ some s
    → (s.token_hash ≡ hash)
      × (s.revoked_at ≡ none)
      × (now < s.expires_at)
      × (now < s.last_seen_at + idle)
      × ((c : Bytes) → csrf ≡ some c → s.csrf_hash ≡ c)
unfolding validate_session is_current
validate_session-IsValid hash csrf idle now ss s h = elim (Option-cases (open_session hash ss)) [
  | inl e ↦ absurd (ground arith)
  | inr (x, e) ↦
      let same : x ≡ s = ground arith in
      let (token, live) = open_session-lem hash ss s (ground arith) in
      (
        token,
        live,
        ground arith,
        ground arith,
        λ c wanted. compare_digest_eq s.csrf_hash c (ground (arith, same, wanted)),
      )
]

-- The digest is in use, by no open session.
pub record IsClosed (hash : Bytes) (ss : List Session) : Type 0 where
  pub used : hash_used hash ss ≡ true
  pub shut : open_session hash ss ≡ none

pub data Step : List Session → List Session → Type 0 where
  created :
      {ss ts : List Session} (id : String) (token csrf : Bytes) (lifetime now : ℕ)
      → create_session id token csrf lifetime now ss ≡ ok ts
      → Step ss ts
  validated :
      {ss : List Session} (hash : Bytes) (csrf : Option Bytes) (idle now : ℕ)
      → Step ss (validate_session hash csrf idle now ss).0
  revoked : {ss : List Session} (hash : Bytes) (now : ℕ) → Step ss (revoke_session hash now ss)

-- A run of operations.
pub data Later (ss : List Session) : List Session → Type 0 where
  at_once : Later ss ss
  later : {ts us : List Session} → Later ss ts → Step ts us → Later ss us

touch-closed :
    (hash : Bytes) (id : String) (now : ℕ) (ss : List Session)
    → (hash_used hash (touch id now ss) ≡ hash_used hash ss)
      × (open_session hash ss ≡ none → open_session hash (touch id now ss) ≡ none)
unfolding touch hash_used open_session
touch-closed hash id now [] = (refl, λ h. refl)
touch-closed hash id now (s ∷ ss) =
    let (same, shut) = touch-closed hash id now ss in
    elim (Bool-cases (s.id == id)) [
      | inl e ↦ (rw (e, same), λ h. rw e (ground (arith, shut, h)))
      | inr e ↦ (rw (e, same), λ h. rw e (ground (arith, shut, h)))
    ]

revoke-closed :
    (hash other : Bytes) (now : ℕ) (ss : List Session)
    → (hash_used hash (revoke_session other now ss) ≡ hash_used hash ss)
      × (open_session hash ss ≡ none → open_session hash (revoke_session other now ss) ≡ none)
unfolding revoke_session hash_used open_session
revoke-closed hash other now [] = (refl, λ h. refl)
revoke-closed hash other now (s ∷ ss) =
    let (same, shut) = revoke-closed hash other now ss in
    elim (Bool-cases (compare_digest s.token_hash other)) [
      | inl e ↦ (rw (e, same), λ h. rw e (ground (arith, shut, h)))
      | inr e ↦ (rw (e, same), λ h. rw e (ground (arith, shut, h)))
    ]

revoke-shut :
    (hash : Bytes) (now : ℕ) (ss : List Session)
    → open_session hash (revoke_session hash now ss) ≡ none
unfolding revoke_session open_session
revoke-shut hash now [] = refl
revoke-shut hash now (s ∷ ss) = elim (Bool-cases (compare_digest s.token_hash hash)) [
  | inl e ↦ rw e (ground (arith, revoke-shut hash now ss))
  | inr e ↦ rw e (rw e (revoke-shut hash now ss))
]

append-closed :
    (hash : Bytes) (ss : List Session) (s : Session)
    → compare_digest s.token_hash hash ≡ false
    → (hash_used hash ss ≡ true → hash_used hash (ss ++ s ∷ []) ≡ true)
      × (open_session hash (ss ++ s ∷ []) ≡ open_session hash ss)
unfolding hash_used open_session
append-closed hash [] s h = (λ e. absurd (ground arith), rw h)
append-closed hash (x ∷ ss) s h =
    let (used, same) = append-closed hash ss s h in (λ e. ground (arith, used, e), rw same)

create-row :
    (id : String) (token csrf : Bytes) (lifetime now : ℕ) (ss ts : List Session)
    → create_session id token csrf lifetime now ss ≡ ok ts
    → (s : Session) × (s.token_hash ≡ token) × (hash_used token ss ≡ false) × (ts ≡ ss ++ s ∷ [])
unfolding create_session
create-row id token csrf lifetime now ss ts h = (
  record {
    id = id;
    token_hash = token;
    csrf_hash = csrf;
    created_at = now;
    last_seen_at = now;
    expires_at = now + lifetime;
    revoked_at = none;
  },
  refl,
  ground arith,
  ground arith,
)

validate-rows :
    (hash : Bytes) (csrf : Option Bytes) (idle now : ℕ) (ss : List Session)
    → ((validate_session hash csrf idle now ss).0 ≡ ss)
      ⊎ ((id : String) × ((validate_session hash csrf idle now ss).0 ≡ touch id now ss))
unfolding validate_session
validate-rows hash csrf idle now ss = elim (Option-cases (open_session hash ss)) [
  | inl e ↦ inl (rw (e, validate_session))
  | inr (s, e) ↦ elim (Bool-cases (is_current csrf idle now s)) [
    | inl t ↦ inr (s.id, rw (e, validate_session) (rw t))
    | inr t ↦ inl (rw (e, validate_session) (rw t))
  ]
]

Step-IsClosed :
    {hash : Bytes} {ss ts : List Session} → Step ss ts → IsClosed hash ss → IsClosed hash ts
Step-IsClosed {hash} (created {ss = ss} {ts = ts} id token csrf lifetime now h) c =
    let (s, same, fresh, rows) = create-row id token csrf lifetime now ss ts h in
    let apart : compare_digest s.token_hash hash ≡ false =
      ground (arith, compare_digest_eq s.token_hash hash, same, fresh, c.used) in
    let (used, shut) = append-closed hash ss s apart in
    record { used = rw rows (used c.used); shut = rw rows (rw shut c.shut) }
Step-IsClosed {hash} (validated {ss = ss} other csrf idle now) c =
    elim (validate-rows other csrf idle now ss) [
      | inl kept ↦ record { used = rw kept c.used; shut = rw kept c.shut }
      | inr (id, touched) ↦
          let (same, shut) = touch-closed hash id now ss in
          record { used = rw touched (rw same c.used); shut = rw touched (shut c.shut) }
    ]
Step-IsClosed {hash} (revoked {ss = ss} other now) c =
    let (same, shut) = revoke-closed hash other now ss in
    record { used = rw same c.used; shut = shut c.shut }

Later-IsClosed :
    {hash : Bytes} {ss ts : List Session} → Later ss ts → IsClosed hash ss → IsClosed hash ts
Later-IsClosed at_once c = c
Later-IsClosed (later before st) c = Step-IsClosed st (Later-IsClosed before c)

-- A session that is closed is never validated again, whatever operations come in between.
pub closed_for_good :
    (hash : Bytes) (csrf : Option Bytes) (idle at now : ℕ) (ss ts : List Session)
    → hash_used hash ss ≡ true
    → Later (revoke_session hash at ss) ts
    → validate_session hash csrf idle now ts ≡ (ts, none)
unfolding validate_session
closed_for_good hash csrf idle at now ss ts used run =
    let (same, _) = revoke-closed hash hash at ss in
    let c = Later-IsClosed run (record { used = rw same used; shut = revoke-shut hash at ss }) in
    rw (c.shut, validate_session)
