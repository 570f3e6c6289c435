-- ===== src/ControlPlane/Listing/Laws.antt =====
-- What a list that the administrator sees has of the tables.
use cesar_core.Base.{
  ℕ, ◌+◌, String, ◌≡◌, refl, ap, ◌∙◌, Bool, true, not, ◌&&◌, Option, none, some, List, [], ◌∷◌,
  ◌++◌, ◌==◌, map, keep, length, arith, is_some, Bool-cases, inl, inr, if◌then◌else◌,
}
use cesar_core.ControlPlane.Credentials.{Credential, unrevoked, active_credential_count}
use cesar_core.ControlPlane.Login.{filled}
use cesar_core.ControlPlane.Listing.{
  place, order_by, CredentialRow, row_of, is_newer, chosen, list_credentials, credentials_shown,
  with_legacy,
}

-- How many items pass a test.
abbrev pub count_of {ℓ} : {A : Type ℓ} → (A → Bool) → List A → ℕ
count_of p xs = length (keep p xs)

module _ {ℓ} {A : Type ℓ} (before : A → A → Bool) (p : A → Bool) where
  place-count : (x : A) (xs : List A) → count_of p (place before x xs) ≡ count_of p (x ∷ xs)
  unfolding place
  place-count x [] = refl
  place-count x (y ∷ ys) = ground (arith, place-count x ys)

  pub order_by-count : (xs : List A) → count_of p (order_by before xs) ≡ count_of p xs
  unfolding order_by
  order_by-count [] = refl
  order_by-count (x ∷ xs) = place-count x (order_by before xs) ∙ ground (arith, order_by-count xs)

-- Whether a row shows an active key.
abbrev pub is_shown_active : CredentialRow → Bool
is_shown_active row = not (is_some row.revoked_at)

rows-active :
    (cs : List Credential) → count_of is_shown_active (map row_of cs) ≡ count_of unrevoked cs
rows-active [] = refl
rows-active (c ∷ cs) = ground (arith, rows-active cs)

kept-active :
    (id : String) (cs : List Credential)
    → count_of unrevoked (keep (λ c. c.application_id == id) cs) ≡ active_credential_count id cs
unfolding active_credential_count
kept-active id [] = refl
kept-active id (c ∷ cs) = ground (arith, kept-active id cs)

chosen_lem :
    (application_id : Option String) (id : String)
    → filled application_id ≡ some id
    → (c : Credential) → chosen application_id c ≡ (c.application_id == id)
chosen_lem application_id id h c =
    ap (λ o. elim o [ none ↦ true | some i ↦ c.application_id == i ]) h

with_legacy_lem :
    (application_id : Option String) (id : String)
    → filled application_id ≡ some id
    → with_legacy application_id ≡ (id == "gg_oferta")
with_legacy_lem application_id id h = ap (λ o. elim o [ none ↦ true | some i ↦ i == "gg_oferta" ]) h

kept-chosen :
    (application_id : Option String) (id : String) (cs : List Credential)
    → filled application_id ≡ some id
    → keep (chosen application_id) cs ≡ keep (λ c. c.application_id == id) cs
kept-chosen application_id id [] h = refl
kept-chosen application_id id (c ∷ cs) h =
    rw (chosen_lem application_id id h c, kept-chosen application_id id cs h) refl

listed-active :
    (application_id : Option String) (id : String) (cs : List Credential)
    → filled application_id ≡ some id
    → count_of is_shown_active (list_credentials application_id cs) ≡ active_credential_count id cs
unfolding list_credentials
listed-active application_id id cs h =
    rows-active (order_by is_newer (keep (chosen application_id) cs))
    ∙ order_by-count is_newer unrevoked (keep (chosen application_id) cs)
    ∙ ap (count_of unrevoked) (kept-chosen application_id id cs h)
    ∙ kept-active id cs

count-append :
    (xs ys : List CredentialRow)
    → count_of is_shown_active (xs ++ ys)
      ≡ count_of is_shown_active xs + count_of is_shown_active ys
count-append [] ys = omega arith
count-append (x ∷ xs) ys = ground (arith, count-append xs ys)

-- For an application that is chosen by its identifier, the list of keys shows as many active ones as
-- the application has in the table, and one more, of the key file, exactly for `gg_oferta` where that
-- file is configured.
pub credentials_shown_lem :
    (legacy : Bool) (application_id : Option String) (id : String) (cs : List Credential)
    → filled application_id ≡ some id
    → count_of is_shown_active (credentials_shown legacy application_id cs)
      ≡ active_credential_count id cs + (if (id == "gg_oferta") && legacy then 1 else 0)
unfolding credentials_shown
credentials_shown_lem legacy application_id id cs h =
    count-append (list_credentials application_id cs) _
    ∙ rw (listed-active application_id id cs h, with_legacy_lem application_id id h)
        (elim (Bool-cases ((id == "gg_oferta") && legacy)) [
          | inl t ↦ rw t refl
          | inr t ↦ rw t refl
        ])
