-- ===== src/ControlPlane/Credentials/Fresh.antt =====
-- What the tables hold after a key is issued.
use cesar_core.Base.{
  ap, [], ◌∷◌, ◌++◌, ℕ, String, ◌≡◌, refl, sym, ◌∙◌, false, ◌||◌, none, some, arith, Bool-cases,
  Option-cases, inl, inr, eq_refl,
}
use cesar_core.ControlPlane.Registry.{Result, ok, err, Application, find}
use cesar_core.ControlPlane.Token.{Bytes, File, read_required, Issued, issue_credential}
use cesar_core.ControlPlane.Credentials.{
  Credential, Store, taken, issued, is_reserved, credential_digest, insert_credential, inserted,
  create_credential,
}
use cesar_core.ControlPlane.Credentials.Laws.{insert-rows, digest-fresh}

inserted-ok :
    (k k' : Issued) (s t : Store) (m : Result Store)
    → inserted k s m ≡ (t, issued k')
    → (m ≡ ok t) × (k ≡ k')
inserted-ok k k' s t (ok new) h = (ground arith, ground arith)
inserted-ok k k' s t (err e) h = absurd (ground arith)

-- The row of a new key.
abbrev row : Issued → String → String → ℕ → Credential
row key app name at = record {
  id = key.id;
  application_id = app;
  name = name;
  fingerprint = key.fingerprint;
  secret_hmac = key.secret_hmac;
  created_at = at;
  revoked_at = none;
  last_used_at = none;
}

row-stored :
    (key : Issued) (app name : String) (at : ℕ) (s t : Store)
    → insert_credential (row key app name at) s ≡ ok t
    → (credential_digest key.id t.credentials ≡ some (app, key.secret_hmac))
      × (t.registry ≡ s.registry)
row-stored key app name at s t h =
    let (rows, fresh, same) = insert-rows (row key app name at) s t h in
    (rw rows (digest-fresh (row key app name at) s.credentials fresh refl (eq_refl key.id)), same)

module _ (utf8 : String → Bytes) (hmac_sha256 : Bytes → Bytes → Bytes)
    (hex_tail : Bytes → String) where
  create-inserts :
      (pepper_file : File Bytes) (random_id secret app name : String) (at : ℕ) (s : Store)
      (a : Application) (pepper : Bytes)
      → find app s.registry.applications ≡ some a
      → (a.is_protected || is_reserved a.state) ≡ false
      → read_required pepper_file ≡ some pepper
      → create_credential utf8 hmac_sha256 hex_tail pepper_file random_id secret app name at s
        ≡ inserted (issue_credential utf8 hmac_sha256 hex_tail random_id secret pepper) s (
            insert_credential
              (row (issue_credential utf8 hmac_sha256 hex_tail random_id secret pepper) app name at)
              s)
  unfolding create_credential
  create-inserts pepper_file random_id secret app name at s a pepper e p r =
      rw (e, create_credential) (rw (p, r))

  pub create-issued :
      (pepper_file : File Bytes) (random_id secret app name : String) (at : ℕ) (s t : Store)
      (key : Issued)
      → create_credential utf8 hmac_sha256 hex_tail pepper_file random_id secret app name at s
        ≡ (t, issued key)
      → (pepper : Bytes) × (read_required pepper_file ≡ some pepper)
        × (issue_credential utf8 hmac_sha256 hex_tail random_id secret pepper ≡ key)
        × (credential_digest key.id t.credentials ≡ some (app, key.secret_hmac))
        × (t.registry ≡ s.registry)
  unfolding create_credential
  create-issued pepper_file random_id secret app name at s t key h =
      elim (Option-cases (find app s.registry.applications)) [
        | inl e ↦ absurd (ground arith)
        | inr (a, e) ↦ elim (Bool-cases (a.is_protected || is_reserved a.state)) [
          | inl p ↦ absurd (ground arith)
          | inr p ↦ elim (Option-cases (read_required pepper_file)) [
            | inl r ↦ absurd (ground arith)
            | inr (pepper, r) ↦
                let k = issue_credential utf8 hmac_sha256 hex_tail random_id secret pepper in
                let (done, same) : (insert_credential (row k app name at) s ≡ ok t) × (k ≡ key) =
                  inserted-ok k key s t (insert_credential (row k app name at) s) (
                    sym (create-inserts pepper_file random_id secret app name at s a pepper e p r)
                    ∙ h) in
                let (found, kept) = row-stored k app name at s t done in
                (pepper, r, same, rw (sym same) found, kept)
          ]
        ]
      ]

  -- The row that an issued key adds.
  pub create-rows :
      (pepper_file : File Bytes) (random_id secret app name : String) (at : ℕ) (s t : Store)
      (key : Issued)
      → create_credential utf8 hmac_sha256 hex_tail pepper_file random_id secret app name at s
        ≡ (t, issued key)
      → (c : Credential) × (c.id ≡ key.id)
        × (c.revoked_at ≡ none)
        × (taken c.id s.credentials ≡ false)
        × (t.credentials ≡ s.credentials ++ c ∷ [])
  unfolding create_credential
  create-rows pepper_file random_id secret app name at s t key h =
      elim (Option-cases (find app s.registry.applications)) [
        | inl e ↦ absurd (ground arith)
        | inr (a, e) ↦ elim (Bool-cases (a.is_protected || is_reserved a.state)) [
          | inl p ↦ absurd (ground arith)
          | inr p ↦ elim (Option-cases (read_required pepper_file)) [
            | inl r ↦ absurd (ground arith)
            | inr (pepper, r) ↦
                let k = issue_credential utf8 hmac_sha256 hex_tail random_id secret pepper in
                let (done, same) : (insert_credential (row k app name at) s ≡ ok t) × (k ≡ key) =
                  inserted-ok k key s t (insert_credential (row k app name at) s) (
                    sym (create-inserts pepper_file random_id secret app name at s a pepper e p r)
                    ∙ h) in
                let (rows, fresh, _) = insert-rows (row k app name at) s t done in
                (row k app name at, ap (λ x. x.id) same, refl, fresh, rows)
          ]
        ]
      ]
