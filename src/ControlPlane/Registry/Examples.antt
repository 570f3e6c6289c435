-- ===== src/ControlPlane/Registry/Examples.antt =====
-- The registry at work: the theorems at concrete tables.
use cesar_core.Base.{ℕ, ◌<◌, String, ◌≡◌, ◌≢◌, ◌↔◌, refl, true, false, some, arith, eq_iff, Bool}
use cesar_core.ControlPlane.Registry.{
  Capability, ai, fetch, search, same_key, active, Application, Registry, Change, ok, find, granted,
  get_quota, update_application, bootstrap, changed, put_capabilities, set_application,
  delete_grants, upsert_policy, known_rows, seeds, seed, ignore_application, claudiao_row,
}
use cesar_core.ControlPlane.Registry.Tables.{renamed}
use cesar_core.ControlPlane.Registry.Laws.{SameApplication, update_application_lem}
use cesar_core.ControlPlane.Registry.Success.{Accepted, update_application_ok_iff}
use cesar_core.ControlPlane.Registry.Steps.{Reach, migrated, after, started, updated, empty}
use cesar_core.ControlPlane.Registry.Funded.{IsFunded, Reach-IsFunded}
use cesar_core.ControlPlane.Registry.Protected.{now, later, Later-protected}

abbrev booted : Registry
booted = (bootstrap 1 60 60 30 empty).0

abbrev only_ai : Capability → Bool
only_ai ai = true
only_ai fetch = false
only_ai search = false

abbrev narrowed : Change
narrowed = record {
  display_name = "GG";
  state = active;
  capabilities = only_ai;
  quotas = λ c. some 5;
}

abbrev after_update : Registry
after_update = (update_application "gg_oferta" 2 narrowed booted).0

updated_booted : update_application "gg_oferta" 2 narrowed booted ≡ (after_update, ok tt)
unfolding bootstrap update_application changed seeds known_rows seed ignore_application find granted
    get_quota set_application delete_grants put_capabilities upsert_policy same_key
updated_booted = refl

update_application_example :
    ((a : Application) × (find "gg_oferta" booted.applications ≡ some a)
      × (find "gg_oferta" after_update.applications ≡ some (renamed "GG" active 2 a)))
    × ((c : Capability) → granted "gg_oferta" c after_update.grants ≡ only_ai c)
    × ((c : Capability)
        → only_ai c ≡ true
        → (n : ℕ) × (0 < n)
          × (some 5 ≡ some n)
          × (get_quota "gg_oferta" c after_update.policies ≡ some n))
    × ((j : String) → "gg_oferta" ≢ j → SameApplication j booted after_update)
update_application_example =
    update_application_lem "gg_oferta" 2 narrowed booted after_update updated_booted

update_application_ok_example :
    ((r' : Registry) × (update_application "gg_oferta" 2 narrowed booted ≡ (r', ok tt)))
    ↔ Accepted "gg_oferta" 2 narrowed booted
update_application_ok_example = update_application_ok_iff "gg_oferta" 2 narrowed booted

after_update-Reach : Reach after_update
after_update-Reach =
    after (after migrated (started 1 60 60 30 (omega arith) (omega arith) (omega arith)))
      (updated "gg_oferta" 2 narrowed)

Reach-IsFunded_example : IsFunded after_update
Reach-IsFunded_example = Reach-IsFunded after_update-Reach

claudiao_kept : find "claudiao" booted.applications ≡ some (claudiao_row 1)
unfolding bootstrap known_rows seeds seed ignore_application find granted get_quota same_key
claudiao_kept = refl

Later-protected_example : SameApplication "claudiao" booted after_update
Later-protected_example =
    Later-protected "claudiao" (claudiao_row 1) (later now (updated "gg_oferta" 2 narrowed))
      claudiao_kept refl (ground (arith, eq_iff "claudiao" "gg_oferta"))
