-- ===== src/ControlPlane/Admin.antt =====
-- admin/routes.py with admin/storage.py: the requests of the administrative API that change something,
-- over the tables, the sessions and the audit trail. Requests come one after the other; the
-- identifiers of the events are their places, their times and the texts of the refusals are left out.
pub mod Handlers
pub mod Trail
pub mod Told
pub mod Laws
pub mod Rows
pub mod Accounts
mod Examples
use cesar_core.Base.{
  ℕ, ◌-◌, String, Bool, true, false, not, ◌&&◌, ◌||◌, Option, none, some, List, [], ◌∷◌, ◌++◌, ◌==◌,
  any, nat_eq, leb, if◌then◌else◌,
}
use cesar_core.ControlPlane.Registry.{
  Capability, cap_eq, all_capabilities, State, active, disabled, reserved, Listed, Registry, Result,
  ok, err, unique_violated, Change, get_application, create_application,
}
use cesar_core.ControlPlane.Token.{Bytes, File, Issued}
use cesar_core.ControlPlane.Credentials.{
  Store, is_reserved, Response, issued, refused, create_credential, revoke_route,
  active_credential_count,
}
use cesar_core.ControlPlane.Routes.{put_application, done}
use cesar_core.ControlPlane.Routes
use cesar_core.ControlPlane.Sessions.{Session}
use cesar_core.ControlPlane.Login.{Config, Request, Checked, require_session, login, logout}
use cesar_core.Gateway.Terms.{raised, returned}
use cesar_core.Gateway.Services.{lists}

-- The metadata of an event.
pub data Metadata : Type 0 where
  no_metadata : Metadata
  states : (was now : State) → Metadata
  capabilities : List Capability → Metadata
  quotas : (Capability → Option ℕ) → Metadata

-- A row of `admin_audit_events`; a target is its type and its identifier.
pub record Event : Type 0 where
  pub action : String
  pub outcome : String
  pub target : Option (String × String)
  pub correlation_id : Option String
  pub metadata : Metadata

pub record Plane : Type 0 where
  pub store : Store
  pub sessions : List Session
  pub events : List Event

-- `_audit`, with the arguments in the order of the source.
unfoldable pub audit :
    Option String → String → String → Option (String × String) → Metadata → Plane → Plane
audit correlation action outcome target told p = record p {
  events =
      p.events
      ++ record {
        action = action;
        outcome = outcome;
        target = target;
        correlation_id = correlation;
        metadata = told;
      }
        ∷ [];
}

-- `list_audit`: the last events, the newest first.
unfoldable pub newest_first : List Event → List Event
newest_first [] = []
newest_first (e ∷ es) = newest_first es ++ e ∷ []

unfoldable pub first_events : ℕ → List Event → List Event
first_events n [] = []
first_events n (e ∷ es) = if nat_eq n 0 then [] else e ∷ first_events (n - 1) es

unfoldable pub list_audit : ℕ → List Event → List Event
unfolding newest_first first_events
list_audit limit events = first_events limit (newest_first events)

unfoldable pub same_state : State → State → Bool
same_state active active = true
same_state disabled disabled = true
same_state reserved reserved = true
same_state _ _ = false

abbrev pub same_quota : Option ℕ → Option ℕ → Bool
same_quota none none = true
same_quota (some m) (some n) = nat_eq m n
same_quota _ _ = false

abbrev pub same_flag : Bool → Bool → Bool
same_flag true b = b
same_flag false b = not b

-- `set(current["capabilities"]) != set(result["capabilities"])`, and that of the quotas.
unfoldable pub other_capabilities : Listed → Listed → Bool
unfolding lists
other_capabilities a b =
    any (λ c. not (same_flag (lists c a.capabilities) (lists c b.capabilities))) all_capabilities

unfoldable pub other_quotas : Listed → Listed → Bool
other_quotas a b = any (λ c. not (same_quota (a.quotas c) (b.quotas c))) all_capabilities

abbrev pub application_target : String → Option (String × String)
application_target id = some ("application", id)

abbrev pub credential_target : String → Option (String × String)
credential_target id = some ("credential", id)

abbrev pub audit_if :
    Bool → Option String → String → Option (String × String) → Metadata → Plane → Plane
audit_if true correlation action target told p = audit correlation action "success" target told p
audit_if false correlation action target told p = p

-- The events of a change that succeeded.
unfoldable pub audit_change : Option String → String → Listed → Listed → Plane → Plane
unfolding other_capabilities other_quotas same_state
audit_change correlation id current result p =
    let target = application_target id in
    let updated = audit correlation "application.update" "success" target no_metadata p in
    let states_told =
      audit_if (not (same_state current.application.state result.application.state)) correlation
        "application.status_change" target
        (states current.application.state result.application.state) updated in
    let capabilities_told =
      audit_if (other_capabilities current result) correlation "application.capability_change"
        target (capabilities result.capabilities) states_told in
    audit_if (other_quotas current result) correlation "application.quota_change" target
      (quotas result.quotas) capabilities_told
