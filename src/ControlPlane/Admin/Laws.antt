-- ===== src/ControlPlane/Admin/Laws.antt =====
-- The handlers of admin/routes.py: what a change of the tables needs and leaves.
use cesar_core.Base.{String, ◌≡◌, refl, Bool, true, false, List, Bool-cases, inl, inr, nat_eq, ◌⊎◌}
use cesar_core.ControlPlane.Registry.{get_application, create_application}
use cesar_core.ControlPlane.Token.{Bytes, File}
use cesar_core.ControlPlane.Credentials.{create_credential}
use cesar_core.ControlPlane.Sessions.{Session}
use cesar_core.ControlPlane.Login.{Config, Checked, login, logout, require_session}
use cesar_core.ControlPlane.Login.Laws.{IsGranted, require_session-IsGranted}
use cesar_core.Gateway.Terms.{raised, returned, outcome-cases}
use cesar_core.ControlPlane.Admin.{Event, Plane, audit}
use cesar_core.ControlPlane.Admin.Handlers.{
  Edit, new_application, change_application, new_credential, revoke, Command, log_in, log_out, look,
  edit, Caller, application_route, keeps_out, credential_route, allowed, login_told, logout_told,
  past_session, Libraries, handle,
}
use cesar_core.ControlPlane.Admin.Told.{
  IsTold, Once, Accountable, audit_store, created-Accountable, update-Accountable,
  key_made-Accountable, revoke-Accountable,
}

module _ (utf8 : String → Bytes) (hmac_sha256 : Bytes → Bytes → Bytes)
    (hex_tail : Bytes → String) where
  allowed-Accountable :
      (pepper_file : File Bytes) (legacy : Bool) (caller : Caller) (e : Edit) (p : Plane)
      → Once p.store.credentials
      → Accountable e caller.correlation p
          (allowed utf8 hmac_sha256 hex_tail pepper_file legacy caller e p).0
  unfolding allowed application_route credential_route Accountable
  allowed-Accountable pepper_file legacy caller (new_application id name client) p h =
      created-Accountable caller id name client p
        (create_application id name client caller.now p.store.registry)
  allowed-Accountable pepper_file legacy caller (change_application id change) p h =
      update-Accountable legacy caller id change p
  allowed-Accountable pepper_file legacy caller (new_credential random_id secret app name) p h =
      elim (Bool-cases (keeps_out (get_application app p.store.registry))) [
        | inl t ↦ rw t (inl (audit_store _ _ _ _ _ p))
        | inr t ↦ rw t (
            key_made-Accountable caller random_id secret app name p (
              create_credential utf8 hmac_sha256 hex_tail pepper_file random_id secret app name
                caller.now p.store))
      ]
  allowed-Accountable pepper_file legacy caller (revoke id) p h = revoke-Accountable caller id p h

pub login_told-store :
    (caller : Caller) (p : Plane) (m : List Session × Checked (String × String))
    → (login_told caller p m).0.store ≡ p.store
unfolding login_told audit
login_told-store caller p (ss, raised status) = elim (Bool-cases (nat_eq status 401)) [
  | inl t ↦ rw t refl
  | inr t ↦ rw t refl
]
login_told-store caller p (ss, returned (token, csrf)) = refl

pub logout_told-store :
    (caller : Caller) (p : Plane) (m : List Session × Checked Session)
    → (logout_told caller p m).0.store ≡ p.store
unfolding logout_told audit
logout_told-store caller p (ss, raised status) = refl
logout_told-store caller p (ss, returned s) = refl

-- What a change of the tables needs and leaves: the command is an edit, a session that the request was
-- granted for writing, and an event of its success.
pub record IsChange (l : Libraries) (c : Config) (caller : Caller) (command : Command)
    (before after : List Event) : Type 0 where
  pub change : Edit
  pub of_command : command ≡ edit change
  pub session : Session
  pub granted : IsGranted l.digest l.netloc l.lower true caller.request c caller.now session
  pub is_told : IsTold change caller.correlation before after

edit-IsChange :
    (l : Libraries) (c : Config) (legacy : Bool) (caller : Caller) (e : Edit) (p : Plane)
    → Once p.store.credentials
    → ((handle l c legacy caller (edit e) p).0.store ≡ p.store)
      ⊎ IsChange l c caller (edit e) p.events (handle l c legacy caller (edit e) p).0.events
unfolding handle past_session Accountable
edit-IsChange l c legacy caller e p h =
    let run =
      require_session l.digest l.netloc l.lower true caller.request c caller.now p.sessions in
    elim (outcome-cases run.1) [
      | inl (status, raises) ↦ rw raises (inl refl)
      | inr (s, returns) ↦
          let granted =
            require_session-IsGranted l.digest l.netloc l.lower true caller.request c caller.now
              p.sessions s returns in
          let accounts =
            allowed-Accountable l.utf8 l.hmac_sha256 l.hex_tail c.credential_pepper_file legacy
              caller e (record p { sessions = run.0 }) h in
          rw returns (elim accounts [
            | inl same ↦ inl same
            | inr is_told ↦ inr (record {
              change = e;
              of_command = refl;
              session = s;
              granted = granted;
              is_told = is_told;
            })
          ])
    ]

-- A request changes the tables of the applications and the keys only where it was granted a session
-- for writing, with its origin and its CSRF token, and the audit trail then tells of the change that
-- succeeded. The identifiers of the keys must be distinct.
pub handle-IsChange :
    (l : Libraries) (c : Config) (legacy : Bool) (caller : Caller) (command : Command) (p : Plane)
    → Once p.store.credentials
    → ((handle l c legacy caller command p).0.store ≡ p.store)
      ⊎ IsChange l c caller command p.events (handle l c legacy caller command p).0.events
unfolding handle past_session
handle-IsChange l c legacy caller (log_in count id token csrf password) p h = inl (
    login_told-store caller p (
      login l.digest l.netloc l.lower l.verify count id token csrf caller.request c password
        caller.now p.sessions))
handle-IsChange l c legacy caller log_out p h = inl (
    logout_told-store caller p
      (logout l.digest l.netloc l.lower caller.request c caller.now p.sessions))
handle-IsChange l c legacy caller look p h =
    elim (outcome-cases
      (require_session l.digest l.netloc l.lower false caller.request c caller.now p.sessions).1) [
        | inl (status, e) ↦ rw e (inl refl)
        | inr (s, e) ↦ rw e (inl refl)
      ]
handle-IsChange l c legacy caller (edit e) p h = edit-IsChange l c legacy caller e p h
