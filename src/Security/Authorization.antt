-- ===== src/Security/Authorization.antt =====
-- security/authorization.py, security/quota.py and api/deps.py: whether a request of an application
-- may use a capability. The quota store, a script that Redis runs, is a parameter.
pub mod Laws
mod Examples
use Prim.Native.String.{◌++◌}
use cesar_core.Base.{
  ℕ, ◌+◌, ◌*◌, ◌/◌, max, String, Bool, true, false, ◌&&◌, Option, none, some, ltb, nat_eq,
  if◌then◌else◌,
}
use cesar_core.ControlPlane.Registry.{Capability, Registry, granted, get_quota}
use cesar_core.ControlPlane.Routes.{capability_name}
use cesar_core.Security.Authentication.{is_active}

-- `allows_capability`: `none` where the application is missing, which raises `KeyError`.
unfoldable pub allows_capability : String → Capability → Registry → Option Bool
allows_capability id c r = elim (is_active id r) [
  | none ↦ none
  | some on ↦ some (on && granted id c r.grants)
]

-- What becomes of a request; `crashed` is an error that nothing expects.
pub data Verdict : Type 0 where
  passed access_denied unavailable crashed : Verdict
  exceeded : (retry_after : ℕ) → Verdict

-- `authorize_capability`: `none` where it returns.
unfoldable pub authorize_capability : String → Capability → Registry → Option Verdict
unfolding allows_capability
authorize_capability id c r = elim (allows_capability id c r) [
  | none ↦ some crashed
  | some true ↦ none
  | some false ↦ some access_denied
]

-- `f"{config.quota_namespace}:{application_id.value}:{capability}"`.
unfoldable pub quota_key : String → String → Capability → String
unfolding capability_name
quota_key namespace id c = namespace ++ (":" ++ (id ++ (":" ++ capability_name c)))

-- What `check` makes of the answer of the store, which is `none` where it raises: whether the request
-- is admitted, and the milliseconds to the end of the window.
unfoldable pub answered : Option (ℕ × ℕ) → Verdict
answered none = unavailable
answered (some (allowed, ttl)) =
    if nat_eq allowed 0 then exceeded (max 1 ((ttl + 999) / 1000)) else passed

-- `consume` takes a key, a limit and a window in milliseconds.
module _ {Db : Type 0} (consume : String → ℕ → ℕ → Db → Db × Option (ℕ × ℕ)) where
  -- `QuotaLimiter.check`.
  unfoldable pub check : String → ℕ → String → Capability → ℕ → Db → Db × Verdict
  check namespace window_seconds id c limit db =
      if ltb limit 1
      then (db, crashed)
      else let result = consume (quota_key namespace id c) limit (window_seconds * 1000) db in
        (result.0, answered result.1)

  -- `_authorized_context` up to the context that it returns.
  unfoldable pub authorized_context :
      String → ℕ → String → Capability → Registry → Db → Db × Verdict
  authorized_context namespace window_seconds id c r db = elim (authorize_capability id c r) [
    | some v ↦ (db, v)
    | none ↦ elim (get_quota id c r.policies) [
      | none ↦ (db, access_denied)
      | some limit ↦ check namespace window_seconds id c limit db
    ]
  ]
