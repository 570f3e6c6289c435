-- ===== src/Frontend/Applications/Steps.antt =====
-- The screen of the registry together with the number of loads that are under way.
use cesar_core.Base.{ℕ, suc, List}
use cesar_core.Frontend.Api.{Reply}
use cesar_core.Frontend.Applications.{
  Entry, Screen, initial, start_load, loaded, open_create, close_create, open_edit, close_edit,
  done_create, done_edit,
}

pub record System : Type 0 where
  pub pending : ℕ
  pub screen : Screen

pub data Step : System → System → Type 0 where
  reply :
      {n : ℕ} {s : Screen} (r : Reply (List Entry))
      → Step (record { pending = suc n; screen = s }) (record { pending = n; screen = loaded r s })
  created :
      {n : ℕ} {s : Screen}
      → Step
          (record { pending = n; screen = s })
          (record { pending = suc n; screen = done_create s })
  edited :
      {n : ℕ} {s : Screen}
      → Step (record { pending = n; screen = s }) (record { pending = suc n; screen = done_edit s })
  new :
      {n : ℕ} {s : Screen}
      → Step (record { pending = n; screen = s }) (record { pending = n; screen = open_create s })
  drop :
      {n : ℕ} {s : Screen}
      → Step (record { pending = n; screen = s }) (record { pending = n; screen = close_create s })
  edit :
      {n : ℕ} {s : Screen} (app : Entry)
      → Step (record { pending = n; screen = s }) (record { pending = n; screen = open_edit app s })
  leave :
      {n : ℕ} {s : Screen}
      → Step (record { pending = n; screen = s }) (record { pending = n; screen = close_edit s })

-- The screen is mounted, and its effect has set off the first load.
abbrev pub mounted : System
mounted = record { pending = 1; screen = start_load initial }

pub data Reach : System → Type 0 where
  at_mount : Reach mounted
  after : {s t : System} → Reach s → Step s t → Reach t
