-- ===== src/ControlPlane/Registry/Laws.antt =====
-- What `update_application` changes, when it succeeds, and what it leaves alone.
use mathlib.Core.Option
use cesar_core.Base.{
  ℕ, ◌<◌, String, ◌≡◌, ◌≢◌, ap, ◌∙◌, Bool, true, false, ◌&&◌, some, arith, ◌==◌, eq_iff, eq_refl,
  keep, if◌then◌else◌, inl, inr, Option-cases,
}
use cesar_core.ControlPlane.Registry.{
  Capability, ai, fetch, search, all_capabilities, cap_eq, Application, Registry, Change, ok, find,
  granted, get_quota, set_application, changed, transact, update_application,
}
use cesar_core.ControlPlane.Registry.Tables.{renamed, find-set_application, granted-delete_grants}
use cesar_core.ControlPlane.Registry.Puts.{member, put_capabilities-IsPut}

pub member-keep :
    (p : Capability → Bool) (c : Capability) → member c (keep p all_capabilities) ≡ p c
unfolding cap_eq
member-keep p ai = ground arith
member-keep p fetch = ground arith
member-keep p search = ground arith

-- What a successful change of an application has done to the tables.
pub record IsChanged (id : String) (now : ℕ) (ch : Change) (r r' : Registry) : Type 0 where
  pub applications_set :
      r'.applications ≡ set_application id ch.display_name ch.state now r.applications
  pub grants_set :
      (j : String) (c : Capability)
      → granted j c r'.grants ≡ (if id == j then ch.capabilities c else granted j c r.grants)
  pub quotas_set :
      (j : String) (c : Capability)
      → get_quota j c r'.policies
        ≡ (if id == j && ch.capabilities c then ch.quotas c else get_quota j c r.policies)
  pub limits_positive :
      (c : Capability) → ch.capabilities c ≡ true → (n : ℕ) × (ch.quotas c ≡ some n) × (0 < n)

module _ (id : String) (now : ℕ) (ch : Change) (r r' : Registry) where
  pub changed-IsChanged : changed id now ch r ≡ ok r' → IsChanged id now ch r r'
  unfolding changed
  changed-IsChanged h =
      let put =
        put_capabilities-IsPut id now ch.quotas (keep ch.capabilities all_capabilities) _ r' h in
      record {
        applications_set = put.applications_kept;
        grants_set = λ j c. ground (
          arith,
          put.grants_put j c,
          member-keep ch.capabilities c,
          granted-delete_grants id j c r.grants,
        );
        quotas_set = λ j c. ground (arith, put.quotas_put j c, member-keep ch.capabilities c);
        limits_positive = λ c m. put.limits_positive c (member-keep ch.capabilities c ∙ m);
      }

  pub update-IsChanged :
      update_application id now ch r ≡ (r', ok tt)
      → (a : Application) × (find id r.applications ≡ some a)
        × (a.is_protected ≡ false)
        × IsChanged id now ch r r'
  unfolding update_application transact
  update-IsChanged h = elim (Option-cases (find id r.applications)) [
    | inl e ↦ absurd (ground arith)
    | inr (a, e) ↦ (a, e, ground arith, changed-IsChanged (ground arith))
  ]

-- An application as callers see it, without the order of the rows.
pub record SameApplication (j : String) (r r' : Registry) : Type 0 where
  pub same_row : find j r'.applications ≡ find j r.applications
  pub same_grants : (c : Capability) → granted j c r'.grants ≡ granted j c r.grants
  pub same_quotas : (c : Capability) → get_quota j c r'.policies ≡ get_quota j c r.policies

module _ (id : String) (now : ℕ) (ch : Change) (r r' : Registry)
    (done : IsChanged id now ch r r') where
  row :
      (j : String)
      → find j r'.applications ≡ (
          if id == j
          then Option.map (renamed ch.display_name ch.state now) (find j r.applications)
          else find j r.applications)
  row j =
      ap (find j) done.applications_set
      ∙ find-set_application id j ch.display_name ch.state now r.applications

  row_self :
      (a : Application)
      → find id r.applications ≡ some a
      → find id r'.applications ≡ some (renamed ch.display_name ch.state now a)
  row_self a found = ground (arith, row id, eq_refl id, found)

  quota_self :
      (c : Capability)
      → ch.capabilities c ≡ true
      → (n : ℕ) × (0 < n) × (ch.quotas c ≡ some n) × (get_quota id c r'.policies ≡ some n)
  quota_self c m =
      let (n, q, pos) = done.limits_positive c m in
      (n, pos, q, ground (arith, done.quotas_set id c, eq_refl id, m, q))

  pub other_same : (j : String) → id ≢ j → SameApplication j r r'
  other_same j ne = record {
    same_row = ground (arith, row j, eq_iff id j);
    same_grants = λ c. ground (arith, done.grants_set j c, eq_iff id j);
    same_quotas = λ c. ground (arith, done.quotas_set j c, eq_iff id j);
  }

-- A successful update gives the application its new name and state, exactly the capabilities of the
-- call, each with the positive limit of the call, and leaves every other application as it was.
pub update_application_lem :
    (id : String) (now : ℕ) (ch : Change) (r r' : Registry)
    → update_application id now ch r ≡ (r', ok tt)
    → ((a : Application) × (find id r.applications ≡ some a)
        × (find id r'.applications ≡ some (renamed ch.display_name ch.state now a)))
      × ((c : Capability) → granted id c r'.grants ≡ ch.capabilities c)
      × ((c : Capability)
          → ch.capabilities c ≡ true
          → (n : ℕ) × (0 < n) × (ch.quotas c ≡ some n) × (get_quota id c r'.policies ≡ some n))
      × ((j : String) → id ≢ j → SameApplication j r r')
update_application_lem id now ch r r' h =
    let (a, found, _, done) = update-IsChanged id now ch r r' h in
    (
      (a, found, row_self id now ch r r' done a found),
      (λ c. ground (arith, done.grants_set id c, eq_refl id)),
      (λ c m. quota_self id now ch r r' done c m),
      (λ j ne. other_same id now ch r r' done j ne),
    )

-- An update that raises leaves the tables as they were.
pub update_application_error :
    (id : String) (now : ℕ) (ch : Change) (r : Registry)
    → (update_application id now ch r).1 ≢ ok tt
    → (update_application id now ch r).0 ≡ r
unfolding update_application transact
update_application_error id now ch r h = ground arith
