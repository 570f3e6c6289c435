-- ===== src/Security/Quota/Examples.antt =====
-- A store that has the laws of Redis, and runs of the script over it.
use cesar_core.Base.{◌≡◌, refl, true, false, none, some, List, [], ◌∷◌, arith}
use cesar_core.Security.Quota.{counted, run_script, consume}
use cesar_core.ControlPlane.Registry.{ai}
use cesar_core.ControlPlane.Routes.{capability_name}
use cesar_core.Security.Authorization.{exceeded, answered, quota_key, check}
use cesar_core.Security.Quota.Snapshot.{
  snapshot, snapshot_lem, open_count, open_left, counted_db, counted_windows, Between,
}
use cesar_core.Security.Quota.Samples.{
  store, empty, empty_read, unread-left, read, left, at_key, bumped,
}
use cesar_core.Security.Quota.Window.{Ask, answers}
use cesar_core.Security.Quota.Laws.{replies, InOrder, replies_lem}

-- Three requests of a window, for a limit of two, and one of another application.
abbrev three : List Ask
three =
    record { at = 5; key = "a"; limit = 2; window = 60000 }
    ∷ record { at = 6; key = "b"; limit = 2; window = 60000 }
    ∷ record { at = 7; key = "a"; limit = 2; window = 60000 }
    ∷ record { at = 8; key = "a"; limit = 2; window = 60000 }
    ∷ []

three_run :
    replies store three empty
    ≡ some (1, 60000) ∷ some (1, 60000) ∷ some (1, 59998) ∷ some (0, 59997) ∷ []
unfolding replies run_script counted read left bumped at_key
three_run = refl

replies_example : replies store three empty ≡ answers store.expired three (λ k. none)
unfolding InOrder
replies_example =
    replies_lem store three empty empty_read
      (omega arith, (omega arith, (omega arith, (omega arith, tt))))

-- A store that is not durable counts nothing.
not_durable : consume store false 5 "a" 2 60000 empty ≡ (empty, none)
unfolding consume
not_durable = refl

-- The limiter over the script: the third request of a window is told to wait for its end.
waiting :
    check (consume store true 8) "q" 60 "a" ai 2 (at_key "q:a:ai" (some (2, 60005)) empty)
    ≡ (at_key "q:a:ai" (some (2, 60005)) empty, exceeded 60)
unfolding check consume run_script counted read left at_key answered quota_key capability_name
waiting = refl

-- What a key shows after two requests, where a third one comes between the two commands.
abbrev two : List Ask
two =
    record { at = 5; key = "a"; limit = 9; window = 60000 }
    ∷ record { at = 6; key = "a"; limit = 9; window = 60000 }
    ∷ []

abbrev third : List Ask
third = record { at = 7; key = "a"; limit = 9; window = 60000 } ∷ []

snapshot_example :
    snapshot store true 6 8 (counted_db store third) "a" (counted_db store two empty)
    ≡ some (
      open_count store.expired 6 (counted_windows store.expired two (λ j. none) "a"),
      open_left store.expired 8
          (counted_windows store.expired third (counted_windows store.expired two (λ j. none)) "a"),
    )
unfolding Between
snapshot_example =
    snapshot_lem store two third 6 8 "a" empty (λ at j d. unread-left at (d j)) empty_read
      (omega arith, (omega arith, omega arith)) (omega arith, omega arith)

snapshot_shown :
    snapshot store true 6 8 (counted_db store third) "a" (counted_db store two empty)
    ≡ some (2, 59997)
unfolding snapshot counted_db run_script counted read left bumped at_key
snapshot_shown = refl
