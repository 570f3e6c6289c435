-- ===== src/ControlPlane/Registry/Puts.antt =====
-- The loop of `update_application` over the capabilities: what it leaves in the tables.
use cesar_core.Base.{
  ℕ, ◌<◌, String, ◌≡◌, sym, ap, ◌∙◌, Bool, true, ◌&&◌, ◌||◌, Option, some, List, [], ◌∷◌, ◌++◌,
  arith, ◌==◌, any, if◌then◌else◌, Bool-cases, inl, inr, Option-cases,
}
use cesar_core.ControlPlane.Registry.{
  Capability, cap_eq, same_key, Registry, ok, granted, get_quota, upsert_policy, put_capabilities,
}
use cesar_core.ControlPlane.Registry.Tables.{cap_eq_iff, granted-append, get_quota-upsert_policy}

abbrev pub member : Capability → List Capability → Bool
member c cs = any (λ d. cap_eq d c) cs

module _ (id : String) (now : ℕ) (quotas : Capability → Option ℕ) where
  abbrev pub put_one : Capability → ℕ → Registry → Registry
  put_one c n r = record r {
    grants = r.grants ++ record { application_id = id; capability = c } ∷ [];
    policies =
        upsert_policy
          (record { application_id = id; capability = c; limit_per_minute = n; updated_at = now })
          r.policies;
  }

  put-cons :
      (c : Capability) (cs : List Capability) (r r' : Registry)
      → put_capabilities id now quotas (c ∷ cs) r ≡ ok r'
      → (n : ℕ) × (quotas c ≡ some n)
        × (0 < n)
        × (put_capabilities id now quotas cs (put_one c n r) ≡ ok r')
  unfolding put_capabilities
  put-cons c cs r r' h = elim (Option-cases (quotas c)) [
    | inl e ↦ absurd (ground arith)
    | inr (n, e) ↦ (n, e, ground arith, ground arith)
  ]

  -- What a loop that ends without an error has done.
  pub record IsPut (cs : List Capability) (r r' : Registry) : Type 0 where
    pub applications_kept : r'.applications ≡ r.applications
    pub grants_put :
        (j : String) (c : Capability)
        → granted j c r'.grants ≡ (granted j c r.grants || (id == j && member c cs))
    pub quotas_put :
        (j : String) (c : Capability)
        → get_quota j c r'.policies
          ≡ (if id == j && member c cs then quotas c else get_quota j c r.policies)
    pub limits_positive :
        (c : Capability) → member c cs ≡ true → (n : ℕ) × (quotas c ≡ some n) × (0 < n)

  IsPut-cons :
      (c : Capability) (cs : List Capability) (n : ℕ) (r r' : Registry)
      → quotas c ≡ some n
      → 0 < n
      → IsPut cs (put_one c n r) r'
      → IsPut (c ∷ cs) r r'
  unfolding same_key
  IsPut-cons c cs n r r' q pos h = record {
    applications_kept = h.applications_kept;
    grants_put = λ j d. ground (
      arith,
      h.grants_put j d,
      granted-append j d r.grants (record { application_id = id; capability = c }),
    );
    quotas_put = λ j d. ground (
      arith,
      h.quotas_put j d,
      get_quota-upsert_policy j d
          (record { application_id = id; capability = c; limit_per_minute = n; updated_at = now })
          r.policies,
      cap_eq_iff c d,
      q,
    );
    limits_positive = λ d m. elim (Bool-cases (cap_eq c d)) [
      | inl same ↦ (n, ap quotas (sym ((cap_eq_iff c d).0 same)) ∙ q, pos)
      | inr other ↦ h.limits_positive d (ground arith)
    ];
  }

  pub put_capabilities-IsPut :
      (cs : List Capability) (r r' : Registry)
      → put_capabilities id now quotas cs r ≡ ok r'
      → IsPut cs r r'
  unfolding put_capabilities
  put_capabilities-IsPut [] r r' h = record {
    applications_kept = ground arith;
    grants_put = λ j c. ground arith;
    quotas_put = λ j c. ground arith;
    limits_positive = λ c m. absurd (ground arith);
  }
  put_capabilities-IsPut (c ∷ cs) r r' h =
      let (n, q, pos, more) = put-cons c cs r r' h in
      IsPut-cons c cs n r r' q pos (put_capabilities-IsPut cs (put_one c n r) r' more)
