-- ===== src/ControlPlane/Admin/Handlers.antt =====
-- admin/routes.py: the handlers of the requests that change something, past the session and with it.
use cesar_core.Base.{
  ℕ, String, Bool, true, false, ◌||◌, Option, none, some, List, nat_eq, if◌then◌else◌,
}
use cesar_core.ControlPlane.Registry.{
  Listed, Registry, Error, Result, ok, err, unique_violated, Change, get_application,
  create_application,
}
use cesar_core.ControlPlane.Token.{Bytes, File, Issued}
use cesar_core.ControlPlane.Credentials.{
  Store, is_reserved, Response, issued, refused, create_credential, revoke_route,
}
use cesar_core.ControlPlane.Routes.{put_application, done}
use cesar_core.ControlPlane.Routes
use cesar_core.ControlPlane.Sessions.{Session}
use cesar_core.ControlPlane.Login.{Config, Request, Checked, require_session, login, logout}
use cesar_core.Gateway.Terms.{raised, returned}
use cesar_core.ControlPlane.Admin.{
  Plane, no_metadata, audit, audit_change, application_target, credential_target,
}

-- What a request that writes asks for, with the texts that are drawn for it.
pub data Edit : Type 0 where
  new_application : (id display_name client_id : String) → Edit
  change_application : (id : String) (change : Change) → Edit
  new_credential : (random_id secret application_id name : String) → Edit
  revoke : (credential_id : String) → Edit

-- What any request asks for; `look` is one that only reads. `count` is the number of attempts at a
-- login that Redis counts, if it answers.
pub data Command : Type 0 where
  log_in : (count : Option ℕ) (id token csrf password : String) → Command
  log_out look : Command
  edit : Edit → Command

pub data Reply : Type 0 where
  accepted : Reply
  opened : (token csrf : String) → Reply
  key : Issued → Reply

-- A request: its headers, its correlation identifier, and its time.
pub record Caller : Type 0 where
  pub request : Request
  pub correlation : Option String
  pub now : ℕ

-- `if "UNIQUE" in str(exc)`; another exception is an error of the server.
abbrev pub failed_status : Error → ℕ
failed_status unique_violated = 409
failed_status _ = 500

-- What follows the call of the store that makes an application.
unfoldable pub created :
    Caller → String → Store → Plane → Registry × Result (Unit {0}) → Plane × Checked Reply
created caller id s p (r, ok _) = (
  audit caller.correlation "application.create" "success" (application_target id) no_metadata
      (record p { store = record s { registry = r } }),
  returned accepted,
)
created caller id s p (r, err e) = (
  audit caller.correlation "application.create" "failed" (application_target id) no_metadata p,
  raised (failed_status e),
)

-- `create_application`, past the session.
unfoldable pub application_route : Caller → String → String → String → Plane → Plane × Checked Reply
unfolding created
application_route caller id name client p =
    created caller id p.store p (create_application id name client caller.now p.store.registry)

-- What follows the call of the store that changes one.
unfoldable pub updated :
    Caller → String → Listed → Plane → Registry × Routes.Outcome → Plane × Checked Reply
unfolding audit_change
updated caller id current p (r, Routes.refused status text) = (p, raised status)
updated caller id current p (r, done) =
    let changed = record p { store = record p.store { registry = r } } in
    elim (get_application id r) [
      | none ↦ (changed, raised 500)
      | some result ↦ (audit_change caller.correlation id current result changed, returned accepted)
    ]

-- `update_application`, past the session.
unfoldable pub update_route : Bool → Caller → String → Change → Plane → Plane × Checked Reply
unfolding updated
update_route legacy caller id change p = elim (get_application id p.store.registry) [
  | none ↦ (p, raised 404)
  | some current ↦
      if current.application.is_protected
      then (
        audit caller.correlation "application.update" "denied" (application_target id) no_metadata
            p,
        raised 409,
      )
      else updated caller id current p
          (put_application legacy p.store.credentials id caller.now change p.store.registry)
]

-- What follows the insertion of a key, and `revoke_credential`, past the session.
unfoldable pub key_made : Caller → Plane → Store × Response → Plane × Checked Reply
key_made caller p (s, refused status text) = (p, raised status)
key_made caller p (s, issued made) = (
  audit caller.correlation "credential.create" "success" (credential_target made.id) no_metadata
      (record p { store = s }),
  returned (key made),
)

unfoldable pub key_revoked :
    Caller → String → Plane → Store × Option (ℕ × String) → Plane × Checked Reply
key_revoked caller id p (s, some (status, text)) = (record p { store = s }, raised status)
key_revoked caller id p (s, none) = (
  audit caller.correlation "credential.revoke" "success" (credential_target id) no_metadata
      (record p { store = s }),
  returned accepted,
)

-- Whether `create_credential` refuses an application.
abbrev pub keeps_out : Option Listed → Bool
keeps_out none = false
keeps_out (some a) = a.application.is_protected || is_reserved a.application.state

module _ (utf8 : String → Bytes) (hmac_sha256 : Bytes → Bytes → Bytes)
    (hex_tail : Bytes → String) where
  -- `create_credential`, past the session.
  unfoldable pub credential_route :
      File Bytes → Caller → String → String → String → String → Plane → Plane × Checked Reply
  unfolding key_made
  credential_route pepper_file caller random_id secret application_id name p =
      if keeps_out (get_application application_id p.store.registry)
      then (
        audit caller.correlation "credential.create" "denied" (application_target application_id)
            no_metadata p,
        raised 409,
      )
      else key_made caller p (
          create_credential utf8 hmac_sha256 hex_tail pepper_file random_id secret application_id
            name caller.now p.store)

  -- A request past the session.
  unfoldable pub allowed : File Bytes → Bool → Caller → Edit → Plane → Plane × Checked Reply
  unfolding application_route update_route key_revoked
  allowed pepper_file legacy caller (new_application id name client) p =
      application_route caller id name client p
  allowed pepper_file legacy caller (change_application id change) p =
      update_route legacy caller id change p
  allowed pepper_file legacy caller (new_credential random_id secret application_id name) p =
      credential_route pepper_file caller random_id secret application_id name p
  allowed pepper_file legacy caller (revoke id) p =
      key_revoked caller id p (revoke_route id caller.now p.store)

-- What follows a login: its event, by its status.
unfoldable pub login_told :
    Caller → Plane → List Session × Checked (String × String) → Plane × Checked Reply
login_told caller p (ss, raised status) =
    let after = record p { sessions = ss } in
    (
      if nat_eq status 401
          then audit caller.correlation "admin.login" "denied" none no_metadata after
          else after,
      raised status,
    )
login_told caller p (ss, returned (token, csrf)) = (
  audit caller.correlation "admin.login" "success" none no_metadata (record p { sessions = ss }),
  returned (opened token csrf),
)

unfoldable pub logout_told : Caller → Plane → List Session × Checked Session → Plane × Checked Reply
logout_told caller p (ss, raised status) = (record p { sessions = ss }, raised status)
logout_told caller p (ss, returned s) = (
  audit caller.correlation "admin.logout" "success" none no_metadata (record p { sessions = ss }),
  returned accepted,
)

-- What follows `require_session`.
unfoldable pub past_session :
    (Plane → Plane × Checked Reply) → Plane → List Session × Checked Session → Plane × Checked Reply
past_session rest p (ss, raised status) = (record p { sessions = ss }, raised status)
past_session rest p (ss, returned s) = rest (record p { sessions = ss })

-- The functions of the libraries.
pub record Libraries : Type 0 where
  pub digest : String → Bytes
  pub netloc : String → String
  pub lower : String → String
  pub verify : String → String → Bool
  pub utf8 : String → Bytes
  pub hmac_sha256 : Bytes → Bytes → Bytes
  pub hex_tail : Bytes → String

-- A request of the administrative API; `legacy` says that the key file of `gg_oferta` is configured.
unfoldable pub handle : Libraries → Config → Bool → Caller → Command → Plane → Plane × Checked Reply
unfolding login_told logout_told
handle l c legacy caller (log_in count id token csrf password) p = login_told caller p (
    login l.digest l.netloc l.lower l.verify count id token csrf caller.request c password
      caller.now p.sessions)
handle l c legacy caller log_out p =
    logout_told caller p (logout l.digest l.netloc l.lower caller.request c caller.now p.sessions)
handle l c legacy caller look p =
    past_session (λ q. (q, returned accepted)) p
      (require_session l.digest l.netloc l.lower false caller.request c caller.now p.sessions)
handle l c legacy caller (edit e) p =
    past_session (allowed l.utf8 l.hmac_sha256 l.hex_tail c.credential_pepper_file legacy caller e)
      p (require_session l.digest l.netloc l.lower true caller.request c caller.now p.sessions)
