-- ===== src/ControlPlane/Registry/Steps.antt =====
-- The operations on the registry as steps, and the outcomes of each.
use cesar_core.Base.{
  ℕ, ◌<◌, String, ◌≡◌, ◌⊎◌, inl, inr, refl, ◌||◌, none, some, [], arith, if◌then◌else◌, Bool-cases,
  Option-cases, is_some,
}
use cesar_core.ControlPlane.Registry.{
  Capability, ai, fetch, search, same_key, Registry, Change, Result, ok, err, ◌>>=◌, find, granted,
  get_quota, update_application, create_application, bootstrap, seed, seeds, known_rows, changed,
  transact,
}
use cesar_core.ControlPlane.Registry.Tables.{same_key_iff, granted-append, get_quota-append}

-- One operation of the store; the limits of the configuration are at least 1.
pub data Step : Registry → Registry → Type 0 where
  started :
      {r : Registry} (now ai_limit search_limit fetch_limit : ℕ)
      → 0 < ai_limit
      → 0 < search_limit
      → 0 < fetch_limit
      → Step r (bootstrap now ai_limit search_limit fetch_limit r).0
  created :
      {r : Registry} (id name client : String) (now : ℕ)
      → Step r (create_application id name client now r).0
  updated :
      {r : Registry} (id : String) (now : ℕ) (ch : Change)
      → Step r (update_application id now ch r).0

abbrev pub empty : Registry
empty = record { applications = []; grants = []; policies = [] }

pub data Reach : Registry → Type 0 where
  migrated : Reach empty
  after : {r r' : Registry} → Reach r → Step r r' → Reach r'

-- What a lookup gives after `seed`.
pub record IsSeeded (id : String) (c : Capability) (limit : ℕ) (r r' : Registry) : Type 0 where
  pub applications_kept : r'.applications ≡ r.applications
  pub grants_seeded :
      (j : String) (d : Capability)
      → granted j d r'.grants ≡ (granted j d r.grants || same_key id c j d)
  pub quotas_seeded :
      (j : String) (d : Capability)
      → get_quota j d r'.policies ≡ (
          if is_some (get_quota j d r.policies)
          then get_quota j d r.policies
          else if same_key id c j d
          then some limit
          else none)

pub seed-IsSeeded :
    (id : String) (now : ℕ) (c : Capability) (limit : ℕ) (r r' : Registry)
    → 0 < limit
    → seed id now c limit r ≡ ok r'
    → IsSeeded id c limit r r'
unfolding seed
seed-IsSeeded id now c limit r r' pos e = record {
  applications_kept = ground arith;
  grants_seeded = λ j d. ground (
    arith,
    granted-append j d r.grants (record { application_id = id; capability = c }),
    same_key_iff id c j d,
  );
  quotas_seeded = λ j d. ground (
    arith,
    get_quota-append j d r.policies (record {
      application_id = id;
      capability = c;
      limit_per_minute = limit;
      updated_at = now;
    }),
    same_key_iff id c j d,
  );
}

-- Where a block commits, its first statement gave a value, with which the rest commits.
first_committed :
    (statement : Result Registry) (rest : Registry → Result Registry) {last : Registry}
    → (statement >>= rest) ≡ ok last
    → (between : Registry) × (statement ≡ ok between) × (rest between ≡ ok last)
first_committed (err raised) rest committed = cc
first_committed (ok between) rest committed = (between, refl, committed)

pub seeds-ok :
    (now a s f : ℕ) (r r' : Registry)
    → seeds now a s f r ≡ ok r'
    → (r₁ r₂ : Registry) × (seed "gg_oferta" now ai a r ≡ ok r₁)
      × (seed "gg_oferta" now search s r₁ ≡ ok r₂)
      × (seed "gg_oferta" now fetch f r₂ ≡ ok r')
unfolding seeds
seeds-ok now a s f r r' h =
    let (r₁, e₁, h₁) = first_committed (seed "gg_oferta" now ai a r) _ h in
    let (r₂, e₂, h₂) = first_committed (seed "gg_oferta" now search s r₁) _ h₁ in
    (r₁, r₂, e₁, e₂, h₂)

pub transact-cases :
    (m : Result Registry) (r : Registry)
    → ((transact m r).0 ≡ r)
      ⊎ ((m ≡ ok (transact m r).0) × (transact m r ≡ ((transact m r).0, ok tt)))
unfolding transact
transact-cases (ok new) r = inr (refl, refl)
transact-cases (err e) r = inl refl

pub bootstrap-cases :
    (now a s f : ℕ) (r : Registry)
    → ((bootstrap now a s f r).0 ≡ r)
      ⊎ (seeds now a s f (record r { applications = known_rows now r.applications })
          ≡ ok (bootstrap now a s f r).0)
unfolding bootstrap
bootstrap-cases now a s f r =
    elim (transact-cases
      (seeds now a s f (record r { applications = known_rows now r.applications })) r) [
        | inl same ↦ inl same
        | inr (e, _) ↦ inr e
      ]

pub update-cases :
    (id : String) (now : ℕ) (ch : Change) (r : Registry)
    → ((update_application id now ch r).0 ≡ r)
      ⊎ (update_application id now ch r ≡ ((update_application id now ch r).0, ok tt))
unfolding update_application
update-cases id now ch r = elim (Option-cases (find id r.applications)) [
  | inl e ↦ inl (rw (e, update_application))
  | inr (a, e) ↦ elim (Bool-cases a.is_protected) [
    | inl p ↦ inl (rw (e, update_application) (rw p))
    | inr p ↦ elim (transact-cases (changed id now ch r) r) [
      | inl same ↦ inl (rw (e, update_application) (rw p same))
      | inr (_, done) ↦ inr (rw (e, update_application) (rw p done))
    ]
  ]
]

pub create-kept :
    (id name client : String) (now : ℕ) (r : Registry)
    → ((create_application id name client now r).0.grants ≡ r.grants)
      × ((create_application id name client now r).0.policies ≡ r.policies)
unfolding create_application
create-kept id name client now r = ground arith
