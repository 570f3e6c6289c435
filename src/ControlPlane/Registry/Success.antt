-- ===== src/ControlPlane/Registry/Success.antt =====
-- When `update_application` succeeds.
use cesar_core.Base.{
  ℕ, ◌<◌, String, ◌≡◌, ◌↔◌, refl, sym, ap, ◌∙◌, Bool, true, false, Option, some, List, [], ◌∷◌,
  ◌++◌, arith, eq_refl, keep, Bool-cases, inl, inr,
}
use cesar_core.ControlPlane.Registry.{
  Capability, all_capabilities, cap_eq, same_key, Application, Registry, Grant, Change, ok, find,
  granted, put_capabilities, changed, transact, update_application,
}
use cesar_core.ControlPlane.Registry.Tables.{
  cap_eq_iff, same_key_iff, granted-append, granted-delete_grants,
}
use cesar_core.ControlPlane.Registry.Puts.{member, put_one}
use cesar_core.ControlPlane.Registry.Laws.{member-keep, update-IsChanged}

abbrev Distinct : List Capability → Type 0
Distinct [] = Unit
Distinct (c ∷ cs) = (member c cs ≡ false) × Distinct cs

Distinct-keep : (p : Capability → Bool) → Distinct (keep p all_capabilities)
unfolding cap_eq
Distinct-keep p = ground arith

abbrev Positive : Option ℕ → Type 0
Positive o = (n : ℕ) × (o ≡ some n) × (0 < n)

module _ (id : String) (now : ℕ) (quotas : Capability → Option ℕ) where
  put_first :
      (c : Capability) (cs : List Capability) (n : ℕ) (r : Registry)
      → granted id c r.grants ≡ false
      → quotas c ≡ some n
      → 0 < n
      → put_capabilities id now quotas (c ∷ cs) r
        ≡ put_capabilities id now quotas cs (put_one id now quotas c n r)
  unfolding put_capabilities
  put_first c cs n r g q pos = ground arith

  still_free :
      (c d : Capability) (cs : List Capability) (gs : List Grant)
      → member c cs ≡ false
      → member d cs ≡ true
      → granted id d gs ≡ false
      → granted id d (gs ++ record { application_id = id; capability = c } ∷ []) ≡ false
  still_free c d cs gs apart m g = elim (Bool-cases (same_key id c id d)) [
    | inl same ↦
        let e = ((same_key_iff id c id d).0 same).1 in
        absurd (cc (apart, m, ap (λ x. member x cs) e))
    | inr other ↦
        ground
          (arith, granted-append id d gs (record { application_id = id; capability = c }), other)
  ]

  -- The loop ends without an error if the capabilities are distinct, not yet granted, and have
  -- positive limits.
  put_succeeds :
      (cs : List Capability) (r : Registry)
      → Distinct cs
      → ((c : Capability) → member c cs ≡ true → granted id c r.grants ≡ false)
      → ((c : Capability) → member c cs ≡ true → Positive (quotas c))
      → (r' : Registry) × (put_capabilities id now quotas cs r ≡ ok r')
  unfolding put_capabilities
  put_succeeds [] r d g q = (r, refl)
  put_succeeds (c ∷ cs) r (apart, d) g q =
      let here : member c (c ∷ cs) ≡ true = rw ((cap_eq_iff c c).1 refl) in
      let (n, e, pos) = q c here in
      let (r', h) =
        put_succeeds cs (put_one id now quotas c n r) d
          (λ x m. still_free c x cs r.grants apart m (g x (ground (arith, m))))
          (λ x m. q x (ground (arith, m))) in
      (r', put_first c cs n r (g c here) e pos ∙ h)

module _ (id : String) (now : ℕ) (ch : Change) (r : Registry) where
  abbrev pub Accepted : Type 0
  Accepted =
      ((a : Application) × (find id r.applications ≡ some a) × (a.is_protected ≡ false))
      × ((c : Capability) → ch.capabilities c ≡ true → Positive (ch.quotas c))

  changed_succeeds :
      ((c : Capability) → ch.capabilities c ≡ true → Positive (ch.quotas c))
      → (r' : Registry) × (changed id now ch r ≡ ok r')
  unfolding changed
  changed_succeeds q =
      put_succeeds id now ch.quotas (keep ch.capabilities all_capabilities) _
        (Distinct-keep ch.capabilities)
        (λ c m. ground (arith, granted-delete_grants id id c r.grants, eq_refl id))
        (λ c m. q c (sym (member-keep ch.capabilities c) ∙ m))

  update_succeeds : Accepted → (r' : Registry) × (update_application id now ch r ≡ (r', ok tt))
  unfolding update_application transact
  update_succeeds ((a, e, p), q) = let (r', h) = changed_succeeds q in (r', ground arith)

  -- An update succeeds exactly when the application exists, is not protected, and every capability
  -- of the call has a positive limit in the call.
  pub update_application_ok_iff :
      ((r' : Registry) × (update_application id now ch r ≡ (r', ok tt))) ↔ Accepted
  update_application_ok_iff = (
    (λ (r', h).
        let (a, e, p, done) = update-IsChanged id now ch r r' h in
        ((a, e, p), done.limits_positive)),
    update_succeeds,
  )
