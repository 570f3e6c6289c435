-- ===== src/ControlPlane/Registry/Funded.antt =====
-- The quotas of granted capabilities, over runs of the operations.
use cesar_core.Base.{
  ℕ, ◌<◌, String, ◌≡◌, inl, inr, refl, true, ◌&&◌, some, arith, ◌==◌, Bool-cases, Option-cases,
}
use cesar_core.ControlPlane.Registry.{
  Capability, ai, fetch, search, Registry, Change, granted, get_quota,
}
use cesar_core.ControlPlane.Registry.Laws.{IsChanged, update-IsChanged}
use cesar_core.ControlPlane.Registry.Steps.{
  Step, started, created, updated, Reach, migrated, after, empty, IsSeeded, seed-IsSeeded, seeds-ok,
  bootstrap-cases, update-cases, create-kept,
}

-- Every granted capability has a quota, and every quota is positive.
pub record IsFunded (r : Registry) : Type 0 where
  pub funded :
      (id : String) (c : Capability)
      → granted id c r.grants ≡ true
      → (n : ℕ) × (get_quota id c r.policies ≡ some n)
  pub positive : (id : String) (c : Capability) (n : ℕ) → get_quota id c r.policies ≡ some n → 0 < n

empty-IsFunded : IsFunded empty
unfolding granted get_quota
empty-IsFunded = record { funded = λ id c h. absurd (cc); positive = λ id c n h. absurd (cc) }

same-IsFunded :
    {r r' : Registry} → r'.grants ≡ r.grants → r'.policies ≡ r.policies → IsFunded r → IsFunded r'
same-IsFunded g p h = record {
  funded = λ id c e. rw p (h.funded id c (rw g at e));
  positive = λ id c n e. h.positive id c n (rw p at e);
}

changed-IsFunded :
    (id : String) (now : ℕ) (ch : Change) (r r' : Registry)
    → IsChanged id now ch r r'
    → IsFunded r
    → IsFunded r'
changed-IsFunded id now ch r r' done h = record {
  funded = λ j c e. elim (Bool-cases (id == j && ch.capabilities c)) [
    | inl t ↦
        let (n, q, _) = done.limits_positive c (ground (arith, t)) in
        (n, ground (arith, done.quotas_set j c, t, q))
    | inr f ↦
        let (n, q) = h.funded j c (ground (arith, done.grants_set j c, f, e)) in
        (n, ground (arith, done.quotas_set j c, f, q))
  ];
  positive = λ j c n e. elim (Bool-cases (id == j && ch.capabilities c)) [
    | inl t ↦
        let (m, q, pos) = done.limits_positive c (ground (arith, t)) in
        ground (arith, done.quotas_set j c, t, q, pos, e)
    | inr f ↦ h.positive j c n (ground (arith, done.quotas_set j c, f, e))
  ];
}

seed-IsFunded :
    (id : String) (c : Capability) (limit : ℕ) (r r' : Registry)
    → 0 < limit
    → IsSeeded id c limit r r'
    → IsFunded r
    → IsFunded r'
seed-IsFunded id c limit r r' pos s h = record {
  funded = λ j d e. elim (Option-cases (get_quota j d r'.policies)) [
    | inr found ↦ found
    | inl gone ↦ elim (Bool-cases (granted j d r.grants)) [
      | inl old ↦
          let (n, q) = h.funded j d old in absurd (ground (arith, s.quotas_seeded j d, q, gone))
      | inr new ↦ absurd (ground (arith, s.quotas_seeded j d, s.grants_seeded j d, new, e, gone))
    ]
  ];
  positive = λ j d n e. elim (Option-cases (get_quota j d r.policies)) [
    | inl gone ↦ ground (arith, s.quotas_seeded j d, gone, e)
    | inr (m, q) ↦ h.positive j d n (ground (arith, s.quotas_seeded j d, q, e))
  ];
}

Step-IsFunded : {r r' : Registry} → Step r r' → IsFunded r → IsFunded r'
Step-IsFunded (started {r = r} now a s f pa ps pf) h = elim (bootstrap-cases now a s f r) [
  | inl same ↦ rw same h
  | inr done ↦
      let (r₁, r₂, e₁, e₂, e₃) = seeds-ok now a s f _ _ done in
      let h₁ =
        seed-IsFunded "gg_oferta" ai a _ r₁ pa (seed-IsSeeded "gg_oferta" now ai a _ r₁ pa e₁)
          (same-IsFunded {r = r} refl refl h) in
      let h₂ =
        seed-IsFunded "gg_oferta" search s r₁ r₂ ps
          (seed-IsSeeded "gg_oferta" now search s r₁ r₂ ps e₂) h₁ in
      seed-IsFunded "gg_oferta" fetch f r₂ _ pf (seed-IsSeeded "gg_oferta" now fetch f r₂ _ pf e₃)
        h₂
]
Step-IsFunded (created {r = r} id name client now) h =
    let (g, p) = create-kept id name client now r in same-IsFunded g p h
Step-IsFunded (updated {r = r} id now ch) h = elim (update-cases id now ch r) [
  | inl same ↦ rw same h
  | inr done ↦
      let (_, _, _, set) = update-IsChanged id now ch r _ done in
      changed-IsFunded id now ch r _ set h
]

-- After any operations on the store, a granted capability has a quota, and every quota is positive.
pub Reach-IsFunded : {r : Registry} → Reach r → IsFunded r
Reach-IsFunded migrated = empty-IsFunded
Reach-IsFunded (after before st) = Step-IsFunded st (Reach-IsFunded before)
