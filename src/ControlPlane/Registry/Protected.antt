-- ===== src/ControlPlane/Registry/Protected.antt =====
-- No operation changes a protected application.
use cesar_core.Base.{
  ℕ, String, ◌≡◌, ◌≢◌, inl, inr, refl, sym, ap, ◌∙◌, true, false, some, List, arith, ◌==◌, eq_iff,
  Bool-cases,
}
use cesar_core.ControlPlane.Registry.{
  Capability, ai, fetch, search, same_key, Application, State, Registry, find, granted, get_quota,
  create_application, known_rows, ignore_application, insert_application, gg_oferta_row,
  claudiao_row,
}
use cesar_core.ControlPlane.Registry.Tables.{same_key_iff, find-append}
use cesar_core.ControlPlane.Registry.Laws.{update-IsChanged, SameApplication, other_same}
use cesar_core.ControlPlane.Registry.Steps.{
  Step, started, created, updated, IsSeeded, seed-IsSeeded, seeds-ok, bootstrap-cases, update-cases,
  create-kept,
}

ignore_application-find :
    (a : Application) (apps : List Application) (j : String) (b : Application)
    → find j apps ≡ some b
    → find j (ignore_application a apps) ≡ some b
unfolding ignore_application
ignore_application-find a apps j b e = ground (arith, find-append j apps a, e)

known_rows-find :
    (now : ℕ) (apps : List Application) (j : String) (b : Application)
    → find j apps ≡ some b
    → find j (known_rows now apps) ≡ some b
unfolding known_rows
known_rows-find now apps j b e =
    ignore_application-find (claudiao_row now) (ignore_application (gg_oferta_row now) apps) j b
      (ignore_application-find (gg_oferta_row now) apps j b e)

create-find :
    (id name client : String) (now : ℕ) (r : Registry) (j : String) (b : Application)
    → find j r.applications ≡ some b
    → find j (create_application id name client now r).0.applications ≡ some b
unfolding create_application insert_application
create-find id name client now r j b e = ground (
  arith,
  find-append j r.applications (record {
    id = id;
    display_name = name;
    client_id = client;
    state = State.disabled;
    is_protected = false;
    created_at = now;
    updated_at = now;
  }),
  e,
)

seeded-same :
    (c : Capability) (limit : ℕ) (r r' : Registry) (j : String)
    → IsSeeded "gg_oferta" c limit r r'
    → j ≢ "gg_oferta"
    → SameApplication j r r'
seeded-same c limit r r' j s ne = record {
  same_row = ap (find j) s.applications_kept;
  same_grants = λ d. ground (arith, s.grants_seeded j d, apart d);
  same_quotas = λ d. ground (arith, s.quotas_seeded j d, apart d);
}
  where
    apart : (d : Capability) → same_key "gg_oferta" c j d ≡ false
    apart d = ground (arith, same_key_iff "gg_oferta" c j d)

same_trans :
    {j : String} {r s t : Registry}
    → SameApplication j r s
    → SameApplication j s t
    → SameApplication j r t
same_trans a b = record {
  same_row = b.same_row ∙ a.same_row;
  same_grants = λ c. b.same_grants c ∙ a.same_grants c;
  same_quotas = λ c. b.same_quotas c ∙ a.same_quotas c;
}

same_refl : {j : String} {r r' : Registry} → r' ≡ r → SameApplication j r r'
same_refl {j} e = record {
  same_row = ap (λ x. find j x.applications) e;
  same_grants = λ c. ap (λ x. granted j c x.grants) e;
  same_quotas = λ c. ap (λ x. get_quota j c x.policies) e;
}

Step-protected :
    {r r' : Registry} (j : String) (a : Application)
    → Step r r'
    → find j r.applications ≡ some a
    → a.is_protected ≡ true
    → j ≢ "gg_oferta"
    → SameApplication j r r'
Step-protected j a (started {r = r} now l s f pa ps pf) e p ne =
    elim (bootstrap-cases now l s f r) [
      | inl same ↦ same_refl same
      | inr done ↦
          let (r₁, r₂, e₁, e₂, e₃) = seeds-ok now l s f _ _ done in
          same_trans
            (record {
              same_row = known_rows-find now r.applications j a e ∙ sym e;
              same_grants = λ c. refl;
              same_quotas = λ c. refl;
            })
            (same_trans (seeded-same ai l _ r₁ j (seed-IsSeeded "gg_oferta" now ai l _ r₁ pa e₁) ne)
              (same_trans
                (seeded-same search s r₁ r₂ j (seed-IsSeeded "gg_oferta" now search s r₁ r₂ ps e₂)
                  ne)
                (seeded-same fetch f r₂ _ j (seed-IsSeeded "gg_oferta" now fetch f r₂ _ pf e₃) ne)))
    ]
Step-protected j a (created {r = r} id name client now) e p ne =
    let (g, q) = create-kept id name client now r in
    record {
      same_row = create-find id name client now r j a e ∙ sym e;
      same_grants = λ c. ap (granted j c) g;
      same_quotas = λ c. ap (get_quota j c) q;
    }
Step-protected j a (updated {r = r} id now ch) e p ne = elim (update-cases id now ch r) [
  | inl same ↦ same_refl same
  | inr done ↦
      let (b, found, unprotected, set) = update-IsChanged id now ch r _ done in
      elim (Bool-cases (id == j)) [
        | inl same ↦ absurd (ground (arith, eq_iff id j, same))
        | inr other ↦ other_same id now ch r _ set j (ground (arith, eq_iff id j, other))
      ]
]

-- A run of operations.
pub data Later (r : Registry) : Registry → Type 0 where
  now : Later r r
  later : {s t : Registry} → Later r s → Step s t → Later r t

-- A protected application keeps its row, its capabilities and its quotas through any run of
-- operations; `gg_oferta`, whose missing defaults a start of the service fills in, is left out.
pub Later-protected :
    {r t : Registry} (j : String) (a : Application)
    → Later r t
    → find j r.applications ≡ some a
    → a.is_protected ≡ true
    → j ≢ "gg_oferta"
    → SameApplication j r t
Later-protected j a now e p ne = same_refl refl
Later-protected j a (later before st) e p ne =
    let so_far = Later-protected j a before e p ne in
    same_trans so_far (Step-protected j a st (so_far.same_row ∙ e) p ne)
