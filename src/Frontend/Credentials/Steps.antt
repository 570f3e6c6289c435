-- ===== src/Frontend/Credentials/Steps.antt =====
-- The screen of the keys together with the loads that are under way.
use cesar_core.Base.{ℕ, suc, String, Bool, List, [], ◌∷◌}
use cesar_core.Frontend.Api.{Reply, ok, failed}
use cesar_core.Frontend.Credentials.{
  Credential, Choice, Screen, initial, start_load, both, loaded, set_open, submit, created, revoked,
}

-- `issued` are the keys that the API has returned, the latest first.
pub record System : Type 0 where
  pub pending : ℕ
  pub issued : List String
  pub screen : Screen

pub data Step : System → System → Type 0 where
  reply :
      {n : ℕ} {k : List String} {s : Screen} (first : Bool) (items : Reply (List Credential))
      (apps : Reply (List Choice))
      → Step
          (record { pending = suc n; issued = k; screen = s })
          (record { pending = n; issued = k; screen = loaded (both first items apps) s })
  dialog :
      {n : ℕ} {k : List String} {s : Screen} (o : Bool)
      → Step
          (record { pending = n; issued = k; screen = s })
          (record { pending = n; issued = k; screen = set_open o s })
  send :
      {n : ℕ} {k : List String} {s : Screen}
      → Step
          (record { pending = n; issued = k; screen = s })
          (record { pending = n; issued = k; screen = submit s })
  issue :
      {n : ℕ} {k : List String} {s : Screen} (key : String)
      → Step
          (record { pending = n; issued = k; screen = s })
          (record { pending = suc n; issued = key ∷ k; screen = created (ok key) s })
  refuse :
      {n : ℕ} {k : List String} {s : Screen} (message : String)
      → Step
          (record { pending = n; issued = k; screen = s })
          (record { pending = n; issued = k; screen = created (failed message) s })
  revoke :
      {n : ℕ} {k : List String} {s : Screen}
      → Step
          (record { pending = n; issued = k; screen = s })
          (record { pending = suc n; issued = k; screen = revoked Bool.true s })
  keep_key :
      {n : ℕ} {k : List String} {s : Screen}
      → Step
          (record { pending = n; issued = k; screen = s })
          (record { pending = n; issued = k; screen = revoked Bool.false s })

-- The screen is mounted, and its effect has set off the first load.
abbrev pub mounted : System
mounted = record { pending = 1; issued = []; screen = start_load initial }

pub data Reach : System → Type 0 where
  at_mount : Reach mounted
  after : {s t : System} → Reach s → Step s t → Reach t
