-- ===== src/ControlPlane/Listing.antt =====
-- admin/storage.py and admin/routes.py: the lists of applications and of keys that the administrator
-- sees. Rows of one time, whose order SQLite leaves open, stay as they are.
pub mod Laws
mod Examples
use cesar_core.Base.{
  ℕ, String, Bool, true, false, not, ◌&&◌, ◌||◌, Option, none, some, List, [], ◌∷◌, ◌++◌, ◌==◌, map,
  keep, leb, if◌then◌else◌,
}
use cesar_core.ControlPlane.Registry.{Registry, Listed, listed}
use cesar_core.ControlPlane.Credentials.{Credential, Store}
use cesar_core.ControlPlane.Login.{filled}

-- `ORDER BY` with the test that a row may stand before another.
module _ {ℓ} {A : Type ℓ} (before : A → A → Bool) where
  unfoldable pub place : A → List A → List A
  place x [] = x ∷ []
  place x (y ∷ ys) = let rest = place x ys in if before x y then x ∷ y ∷ ys else y ∷ rest

  unfoldable pub order_by : List A → List A
  unfolding place
  order_by [] = []
  order_by (x ∷ xs) = place x (order_by xs)

-- `ORDER BY a.created_at`.
abbrev pub is_older : Listed → Listed → Bool
is_older a b = leb a.application.created_at b.application.created_at

unfoldable pub list_applications : Registry → List Listed
unfolding order_by
list_applications r = order_by is_older (map (listed r) r.applications)

-- A row of `list_credentials`, and of the route, whose row for the key file of `gg_oferta` is read only.
pub record CredentialRow : Type 0 where
  pub id : String
  pub application_id : String
  pub name : String
  pub fingerprint : Option String
  pub created_at : Option ℕ
  pub revoked_at : Option ℕ
  pub last_used_at : Option ℕ
  pub read_only : Bool

abbrev pub row_of : Credential → CredentialRow
row_of c = record {
  id = c.id;
  application_id = c.application_id;
  name = c.name;
  fingerprint = some c.fingerprint;
  created_at = some c.created_at;
  revoked_at = c.revoked_at;
  last_used_at = c.last_used_at;
  read_only = false;
}

-- `ORDER BY created_at DESC`.
abbrev pub is_newer : Credential → Credential → Bool
is_newer a b = leb b.created_at a.created_at

-- `WHERE application_id=?`, where the text is not empty.
abbrev pub chosen : Option String → Credential → Bool
chosen application_id c = elim (filled application_id) [
  | none ↦ true
  | some id ↦ c.application_id == id
]

unfoldable pub list_credentials : Option String → List Credential → List CredentialRow
unfolding order_by
list_credentials application_id cs =
    map row_of (order_by is_newer (keep (chosen application_id) cs))

abbrev pub legacy_row : CredentialRow
legacy_row = record {
  id = "legacy_gg_oferta";
  application_id = "gg_oferta";
  name = "Legacy file credential";
  fingerprint = none;
  created_at = none;
  revoked_at = none;
  last_used_at = none;
  read_only = true;
}

-- `not application_id or application_id == "gg_oferta"`.
abbrev pub with_legacy : Option String → Bool
with_legacy application_id = elim (filled application_id) [
  | none ↦ true
  | some id ↦ id == "gg_oferta"
]

-- The rows of the route `credentials`, where `legacy` says that the key file is configured.
unfoldable pub credentials_shown : Bool → Option String → List Credential → List CredentialRow
unfolding list_credentials
credentials_shown legacy application_id cs =
    list_credentials application_id cs
    ++ (if with_legacy application_id && legacy then legacy_row ∷ [] else [])
