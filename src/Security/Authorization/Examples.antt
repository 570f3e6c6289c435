-- ===== src/Security/Authorization/Examples.antt =====
-- Runs of the authorisation.
use cesar_core.Base.{
  ℕ, ◌+◌, ◌*◌, ◌<◌, String, ◌≡◌, ◌⊎◌, refl, true, false, ◌&&◌, Option, some, ltb, arith,
  if◌then◌else◌,
}
use cesar_core.ControlPlane.Registry.{
  ai, same_key, Registry, find, granted, get_quota, bootstrap, seeds, seed, known_rows,
  ignore_application, gg_oferta_row,
}
use cesar_core.ControlPlane.Registry.Steps.{Reach, migrated, after, started, empty}
use cesar_core.Security.Authorization.{
  exceeded, access_denied, quota_key, answered, authorized_context,
}
use cesar_core.Security.Authorization.Laws.{on, authorized_context_lem}

-- A store that counts the requests of one window.
abbrev count_up : String → ℕ → ℕ → ℕ → ℕ × Option (ℕ × ℕ)
count_up key limit window used =
    if ltb used limit then (used + 1, some (1, 2500)) else (used, some (0, 2500))

abbrev booted : Registry
booted = (bootstrap 1 2 60 30 empty).0

booted-Reach : Reach booted
booted-Reach = after migrated (started 1 2 60 30 (omega arith) (omega arith) (omega arith))

booted-find : find "gg_oferta" booted.applications ≡ some (gg_oferta_row 1)
unfolding bootstrap seeds known_rows seed ignore_application find granted get_quota same_key
booted-find = refl

authorized_context_example :
    (((on (gg_oferta_row 1) && granted "gg_oferta" ai booted.grants) ≡ false)
      × (authorized_context count_up "q" 60 "gg_oferta" ai booted 2 ≡ (2, access_denied)))
    ⊎ (((on (gg_oferta_row 1) && granted "gg_oferta" ai booted.grants) ≡ true)
        × ((limit : ℕ) × (get_quota "gg_oferta" ai booted.policies ≡ some limit)
            × (0 < limit)
            × (authorized_context count_up "q" 60 "gg_oferta" ai booted 2 ≡ (
              (count_up (quota_key "q" "gg_oferta" ai) limit (60 * 1000) 2).0,
              answered (count_up (quota_key "q" "gg_oferta" ai) limit (60 * 1000) 2).1,
            ))))
authorized_context_example =
    authorized_context_lem count_up "q" 60 "gg_oferta" ai booted 2 (gg_oferta_row 1) booted-Reach
      booted-find

told : answered (some (0, 2500)) ≡ exceeded 3
unfolding answered
told = refl
