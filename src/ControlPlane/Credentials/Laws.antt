-- ===== src/ControlPlane/Credentials/Laws.antt =====
-- The life of a key: it is inserted under a fresh identifier, and once revoked it stays so.
use cesar_core.Base.{
  ℕ, String, ◌≡◌, refl, true, false, ◌&&◌, none, some, List, [], ◌∷◌, ◌++◌, ◌==◌, arith, Bool-cases,
  inl, inr, eq_iff,
}
use cesar_core.ControlPlane.Registry.{ok}
use cesar_core.ControlPlane.Token.{Bytes}
use cesar_core.ControlPlane.Credentials.{
  Credential, Store, unrevoked, taken, credential_digest, insert_credential, set_revoked,
  revoke_credential,
}
use cesar_core.ControlPlane.Credentials.Steps.{
  Step, registered, inserted, revoked, Later, now, later,
}

credential_digest-append :
    (id : String) (cs : List Credential) (c : Credential)
    → (c.id == id) ≡ false
    → credential_digest id (cs ++ c ∷ []) ≡ credential_digest id cs
unfolding credential_digest
credential_digest-append id [] c h = rw h
credential_digest-append id (d ∷ cs) c h = rw (credential_digest-append id cs c h)

taken-append :
    (id : String) (cs : List Credential) (c : Credential)
    → taken id cs ≡ true
    → taken id (cs ++ c ∷ []) ≡ true
unfolding taken
taken-append id [] c h = absurd (ground arith)
taken-append id (d ∷ cs) c h = ground (arith, taken-append id cs c)

pub digest-fresh :
    (c : Credential) (cs : List Credential)
    → taken c.id cs ≡ false
    → c.revoked_at ≡ none
    → (c.id == c.id) ≡ true
    → credential_digest c.id (cs ++ c ∷ []) ≡ some (c.application_id, c.secret_hmac)
unfolding taken credential_digest
digest-fresh c [] h u e = rw (e, u)
digest-fresh c (d ∷ cs) h u e = ground (arith, digest-fresh c cs (ground arith) u e)

set_revoked-none :
    (id j : String) (n : ℕ) (cs : List Credential)
    → credential_digest id cs ≡ none
    → credential_digest id (set_revoked j n cs).0 ≡ none
unfolding credential_digest set_revoked
set_revoked-none id j n [] h = refl
set_revoked-none id j n (c ∷ cs) h = elim (Bool-cases (c.id == j && unrevoked c)) [
  | inl e ↦ rw e (ground (arith, set_revoked-none id j n cs))
  | inr e ↦ rw e (ground (arith, set_revoked-none id j n cs))
]

set_revoked-same :
    (id : String) (n : ℕ) (cs : List Credential)
    → credential_digest id (set_revoked id n cs).0 ≡ none
unfolding credential_digest set_revoked
set_revoked-same id n [] = refl
set_revoked-same id n (c ∷ cs) = elim (Bool-cases (c.id == id && unrevoked c)) [
  | inl e ↦ rw e (ground (arith, set_revoked-same id n cs))
  | inr e ↦ rw e (rw e (set_revoked-same id n cs))
]

pub set_revoked-taken :
    (id j : String) (n : ℕ) (cs : List Credential) → taken id (set_revoked j n cs).0 ≡ taken id cs
unfolding set_revoked taken
set_revoked-taken id j n [] = refl
set_revoked-taken id j n (c ∷ cs) = elim (Bool-cases (c.id == j && unrevoked c)) [
  | inl e ↦ rw (e, set_revoked-taken id j n cs)
  | inr e ↦ rw (e, set_revoked-taken id j n cs)
]

digest-taken :
    (id : String) (cs : List Credential) (a : String × Bytes)
    → credential_digest id cs ≡ some a
    → taken id cs ≡ true
unfolding credential_digest taken
digest-taken id [] a h = absurd (ground arith)
digest-taken id (c ∷ cs) a h = ground (arith, digest-taken id cs a)

-- The identifier is used, by no active key.
pub record IsDead (id : String) (s : Store) : Type 0 where
  pub used : taken id s.credentials ≡ true
  pub inactive : credential_digest id s.credentials ≡ none

pub insert-rows :
    (c : Credential) (s t : Store)
    → insert_credential c s ≡ ok t
    → (t.credentials ≡ s.credentials ++ c ∷ [])
      × (taken c.id s.credentials ≡ false)
      × (t.registry ≡ s.registry)
unfolding insert_credential
insert-rows c s t h = (ground arith, ground arith, ground arith)

Step-IsDead : {id : String} {s t : Store} → Step s t → IsDead id s → IsDead id t
unfolding revoke_credential
Step-IsDead (registered st) d = record { used = d.used; inactive = d.inactive }
Step-IsDead {id} (inserted {s = s} {t = t} c h) d =
    let (rows, fresh, _) = insert-rows c s t h in
    let other : (c.id == id) ≡ false = ground (arith, eq_iff c.id id, d.used) in
    record {
      used = rw rows (taken-append id s.credentials c d.used);
      inactive = rw rows (rw (credential_digest-append id s.credentials c other) d.inactive);
    }
Step-IsDead {id} (revoked {s = s} j n) d = record {
  used = rw (set_revoked-taken id j n s.credentials) d.used;
  inactive = set_revoked-none id j n s.credentials d.inactive;
}

pub Later-IsDead : {id : String} {s t : Store} → Later s t → IsDead id s → IsDead id t
Later-IsDead now d = d
Later-IsDead (later before st) d = Step-IsDead st (Later-IsDead before d)

-- After an active key is revoked, no run of operations makes a key of its identifier active again:
-- neither another row, nor a new key under the identifier.
pub revoked_for_good :
    (id : String) (at : ℕ) (key : String × Bytes) (s t : Store)
    → credential_digest id s.credentials ≡ some key
    → Later (revoke_credential id at s).0 t
    → IsDead id t
unfolding revoke_credential
revoked_for_good id at key s t live run = Later-IsDead run (record {
  used = rw (set_revoked-taken id id at s.credentials) (digest-taken id s.credentials key live);
  inactive = set_revoked-same id at s.credentials;
})
