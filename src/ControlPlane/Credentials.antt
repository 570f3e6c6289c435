-- ===== src/ControlPlane/Credentials.antt =====
-- admin/storage.py and admin/routes.py: the table of credentials, the operations of
-- `ControlPlaneStore` on it, and the handlers that issue and revoke a key. The session has been
-- checked; the audit trail is left out.
pub mod Steps
pub mod Laws
pub mod Fresh
use cesar_core.Base.{
  ℕ, suc, String, Bool, true, false, not, ◌&&◌, ◌||◌, Option, none, some, List, [], ◌∷◌, ◌++◌, ◌==◌,
  nat_eq, length, keep, any, is_some, if◌then◌else◌,
}
use cesar_core.ControlPlane.Registry.{
  State, reserved, Application, Registry, Result, ok, err, unique_violated, check_violated,
  foreign_key_violated, find,
}
use cesar_core.ControlPlane.Token.{Bytes, File, read_required, Issued, issue_credential}

-- A row of `api_credentials`.
pub record Credential : Type 0 where
  pub id : String
  pub application_id : String
  pub name : String
  pub fingerprint : String
  pub secret_hmac : Bytes
  pub created_at : ℕ
  pub revoked_at : Option ℕ
  pub last_used_at : Option ℕ

pub record Store : Type 0 where
  pub registry : Registry
  pub credentials : List Credential

-- `revoked_at IS NULL`.
abbrev pub unrevoked : Credential → Bool
unrevoked c = not (is_some c.revoked_at)

-- The primary key is in use.
unfoldable pub taken : String → List Credential → Bool
taken id [] = false
taken id (c ∷ cs) = c.id == id || taken id cs

-- `credential_digest`.
unfoldable pub credential_digest : String → List Credential → Option (String × Bytes)
credential_digest id [] = none
credential_digest id (c ∷ cs) =
    if c.id == id && unrevoked c
    then some (c.application_id, c.secret_hmac)
    else credential_digest id cs

-- The `INSERT` of `insert_credential`.
unfoldable pub insert_credential : Credential → Store → Result Store
insert_credential c s =
    if not (is_some (find c.application_id s.registry.applications))
    then err foreign_key_violated
    else if taken c.id s.credentials
    then err unique_violated
    else if not (nat_eq (length c.secret_hmac) 32)
    then err check_violated
    else ok (record s { credentials = s.credentials ++ c ∷ [] })

-- The `UPDATE` of `revoke_credential`, with its count of rows.
unfoldable pub set_revoked : String → ℕ → List Credential → List Credential × ℕ
set_revoked id now [] = ([], 0)
set_revoked id now (c ∷ cs) =
    let rest = set_revoked id now cs in
    if c.id == id && unrevoked c
    then (record c { revoked_at = some now } ∷ rest.0, suc rest.1)
    else (c ∷ rest.0, rest.1)

unfoldable pub revoke_credential : String → ℕ → Store → Store × Bool
unfolding set_revoked
revoke_credential id now s =
    let rows = set_revoked id now s.credentials in
    (record s { credentials = rows.0 }, nat_eq rows.1 1)

unfoldable pub active_credential_count : String → List Credential → ℕ
active_credential_count id cs = length (keep (λ c. c.application_id == id && unrevoked c) cs)

abbrev pub is_reserved : State → Bool
is_reserved reserved = true
is_reserved _ = false

-- The response to a request for a key.
pub data Response : Type 0 where
  issued : Issued → Response
  refused : ℕ → String → Response

-- What becomes of an `INSERT`: a broken constraint is not caught.
abbrev pub inserted : Issued → Store → Result Store → Store × Response
inserted key s (ok new) = (new, issued key)
inserted key s (err e) = (s, refused 500 "Internal Server Error")

unfoldable pub revoke_route : String → ℕ → Store → Store × Option (ℕ × String)
unfolding revoke_credential
revoke_route id now s =
    let result = revoke_credential id now s in
    (result.0, if result.1 then none else some (404, "Active credential not found"))

module _ (utf8 : String → Bytes) (hmac_sha256 : Bytes → Bytes → Bytes)
    (hex_tail : Bytes → String) where
  unfoldable pub create_credential :
      File Bytes → String → String → String → String → ℕ → Store → Store × Response
  create_credential pepper_file random_id secret application_id name now s =
      elim (find application_id s.registry.applications) [
        | none ↦ (s, refused 404 "Application not found")
        | some application ↦
            if application.is_protected || is_reserved application.state
            then (s, refused 409 "Protected application cannot receive credentials")
            else elim (read_required pepper_file) [
              | none ↦ (s, refused 503 "Credential issuing is not configured")
              | some pepper ↦
                  let key = issue_credential utf8 hmac_sha256 hex_tail random_id secret pepper in
                  inserted key s (
                    insert_credential
                      (record {
                        id = key.id;
                        application_id = application_id;
                        name = name;
                        fingerprint = key.fingerprint;
                        secret_hmac = key.secret_hmac;
                        created_at = now;
                        revoked_at = none;
                        last_used_at = none;
                      })
                      s)
            ]
      ]
