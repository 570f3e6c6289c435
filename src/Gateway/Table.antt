-- ===== src/Gateway/Table.antt =====
-- The tables of rules, which are dictionaries of Python whose keys are tuples.
use cesar_core.Base.{
  ◌≡◌, refl, sym, ap, ◌∙◌, ◌↔◌, Bool, true, false, Option, none, some, List, [], ◌∷◌, if◌then◌else◌,
  Bool-cases, inl, inr,
}

-- Equality of keys.
pub record Key {ℓ} (K : Type ℓ) : Type ℓ where
  pub same : K → K → Bool
  pub same_iff : (j k : K) → (same j k ≡ true) ↔ (j ≡ k)

-- `for item in items: state = body(item, state)`.
unfoldable pub for_each {ℓ κ} : {A : Type ℓ} {S : Type κ} → (A → S → S) → List A → S → S
for_each body [] s = s
for_each body (x ∷ xs) s = for_each body xs (body x s)

module _ {ℓ κ} {K : Type ℓ} {V : Type κ} ⦃key : Key K⦄ where
  -- `table.get(k)`.
  unfoldable pub get : K → List (K × V) → Option V
  get k [] = none
  get k ((j, v) ∷ table) = if key.same j k then some v else get k table

  -- `table[k] = v`.
  unfoldable pub set : K → V → List (K × V) → List (K × V)
  set k v [] = (k, v) ∷ []
  set k v ((j, w) ∷ table) =
      let rest = set k v table in if key.same j k then (j, v) ∷ table else (j, w) ∷ rest

  pub get-set :
      (j k : K) (v : V) (table : List (K × V))
      → get k (set j v table) ≡ (if key.same j k then some v else get k table)
  unfolding get set
  get-set j k v [] = refl
  get-set j k v ((i, w) ∷ table) = elim (Bool-cases (key.same i j)) [
    | inl e ↦
        let alike : key.same i k ≡ key.same j k =
          ap (λ (x : K). key.same x k) ((key.same_iff i j).0 e) in
        rw (e, alike) (elim (Bool-cases (key.same j k)) [ inl t ↦ rw t | inr t ↦ rw t ])
    | inr e ↦ rw e (elim (Bool-cases (key.same j k)) [
      | inl t ↦
          let apart : key.same i k ≡ false = sym (ap (key.same i) ((key.same_iff j k).0 t)) ∙ e in
          rw (apart, get-set j k v table, t)
      | inr t ↦ rw (get-set j k v table, t)
    ])
  ]
