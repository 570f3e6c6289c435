-- ===== src/ControlPlane/Credentials/Steps.antt =====
-- The operations on the whole store as steps: those on the registry, and those on the keys.
use cesar_core.Base.{ℕ, String, ◌≡◌}
use cesar_core.ControlPlane.Registry.{Registry, ok}
use cesar_core.ControlPlane.Registry.Steps as Registered
use cesar_core.ControlPlane.Credentials.{Credential, Store, insert_credential, revoke_credential}

pub data Step : Store → Store → Type 0 where
  registered :
      {s : Store} {r : Registry} → Registered.Step s.registry r → Step s (record s { registry = r })
  inserted : {s t : Store} (c : Credential) → insert_credential c s ≡ ok t → Step s t
  revoked : {s : Store} (id : String) (now : ℕ) → Step s (revoke_credential id now s).0

-- A run of operations.
pub data Later (s : Store) : Store → Type 0 where
  now : Later s s
  later : {t u : Store} → Later s t → Step t u → Later s u
