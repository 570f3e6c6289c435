-- ===== src/ControlPlane/Routes.antt =====
-- admin/routes.py and admin/models.py: the change of an application through the administrative API,
-- from the body that the interface sends to the tables. The session has been checked; the audit
-- trail is left out.
pub mod Laws
mod Examples
use mathlib.Core.Option
use cesar_core.Base.{
  ℕ, String, Bool, true, false, not, ◌&&◌, ◌||◌, Option, none, some, List, [], ◌∷◌, ◌==◌, ltb, leb,
  nat_eq, or_else, all, any, keep, includes, if◌then◌else◌, Dict, lookup,
}
use cesar_core.ControlPlane.Credentials.{Credential, active_credential_count}
use cesar_core.Frontend.Applications.Form.{EditBody}
use cesar_core.ControlPlane.Registry.{
  Capability, ai, fetch, search, all_capabilities, State, active, disabled, Application, Registry,
  Result, ok, err, key_error, permission_error, Change, find, update_application,
}

unfoldable pub capability_name : Capability → String
capability_name ai = "ai"
capability_name fetch = "fetch"
capability_name search = "search"

abbrev pub capability_names : List String
capability_names = "ai" ∷ "fetch" ∷ "search" ∷ []

-- `Literal["active", "disabled"]`.
unfoldable pub parse_state : String → Option State
parse_state s =
    if s == "active" then some active else if s == "disabled" then some disabled else none

abbrev pub valid_quota : String × ℕ → Bool
valid_quota q = includes capability_names q.0 && leb 1 q.1

change_of : EditBody → State → Change
unfolding capability_name
change_of body state = record {
  display_name = body.display_name;
  state = state;
  capabilities = λ c. includes body.capabilities (capability_name c);
  quotas = λ c. lookup (capability_name c) body.quotas;
}

-- The tests of `ApplicationUpdate`, where the parameter `fits` is that of the name's length.
is_valid : (String → Bool) → EditBody → Bool
is_valid fits body =
    fits body.display_name
    && (all (includes capability_names) body.capabilities && all valid_quota body.quotas)

unfoldable pub parse_update : (String → Bool) → EditBody → Option Change
unfolding parse_state change_of is_valid
parse_update fits body =
    if is_valid fits body then Option.map (change_of body) (parse_state body.state) else none

-- A response: done, or refused with a status and a detail.
pub data Outcome : Type 0 where
  done : Outcome
  refused : ℕ → String → Outcome

is_active : State → Bool
is_active active = true
is_active _ = false

-- `not payload.capabilities or any(payload.quotas.get(cap, 0) < 1 for cap in payload.capabilities)`.
lacks_quota : Change → Bool
lacks_quota ch =
    not (any ch.capabilities all_capabilities)
    || any (λ c. ltb (or_else (ch.quotas c) 0) 1) (keep ch.capabilities all_capabilities)

-- The quotas of the capabilities of the call alone.
pub within : Change → Change
within ch = record ch { quotas = λ c. if ch.capabilities c then ch.quotas c else none }

stored : Registry × Result (Unit {0}) → Registry × Outcome
stored (r, ok _) = (r, done)
stored (r, err key_error) = (r, refused 404 "Application not found")
stored (r, err permission_error) = (r, refused 409 "Protected application cannot be changed")
stored (r, err _) = (r, refused 500 "Internal Server Error")

-- `legacy` says that the file credential of `gg_oferta` is configured; the list is the table of the
-- credentials.
unfoldable pub put_application :
    Bool → List Credential → String → ℕ → Change → Registry → Registry × Outcome
unfolding is_active lacks_quota within stored
put_application legacy credentials id now ch r = elim (find id r.applications) [
  | none ↦ (r, refused 404 "Application not found")
  | some current ↦
      if current.is_protected
      then (r, refused 409 "Protected application cannot be changed")
      else if is_active ch.state && lacks_quota ch
      then (r, refused 409 "Active applications require capabilities and quotas")
      else if is_active ch.state
          && (not (id == "gg_oferta" && legacy)
              && nat_eq (active_credential_count id credentials) 0)
      then (r, refused 409 "Active applications require an active credential")
      else stored (update_application id now (within ch) r)
]

-- The handler from the body of the request.
unfoldable pub put_body :
    (String → Bool) → Bool → List Credential → String → ℕ → EditBody → Registry → Registry × Outcome
put_body fits legacy credentials id now body r = elim (parse_update fits body) [
  | none ↦ (r, refused 422 "validation")
  | some ch ↦ put_application legacy credentials id now ch r
]
