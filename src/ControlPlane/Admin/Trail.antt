-- ===== src/ControlPlane/Admin/Trail.antt =====
-- The audit trail, over the handlers of admin/routes.py.
use cesar_core.Base.{
  ℕ, String, ◌≡◌, refl, sym, ap, ◌∙◌, Bool, true, false, Option, none, some, List, [], ◌∷◌, ◌++◌,
  Bool-cases, Option-cases, inl, inr, nat_eq,
}
use cesar_core.ControlPlane.Registry.{Change, Listed, Registry, Result, ok, err, get_application}
use cesar_core.ControlPlane.Token.{Bytes, File}
use cesar_core.ControlPlane.Credentials.{Store, Response, issued, refused}
use cesar_core.ControlPlane.Routes.{done}
use cesar_core.ControlPlane.Routes
use cesar_core.ControlPlane.Sessions.{Session}
use cesar_core.ControlPlane.Login.{Config, Checked, login, logout}
use cesar_core.Gateway.Terms.{raised, returned}
use cesar_core.ControlPlane.Admin.{
  Event, Metadata, no_metadata, Plane, audit, audit_if, audit_change, application_target,
}
use cesar_core.ControlPlane.Admin.Handlers.{
  Edit, new_application, change_application, new_credential, revoke, Command, log_in, log_out, look,
  edit, Reply, Caller, created, application_route, updated, update_route, key_made, key_revoked,
  keeps_out, credential_route, allowed, login_told, logout_told, past_session, Libraries, handle,
}

-- The second trail is the first with some events after it.
unfoldable pub Extends : List Event → List Event → Type 0
Extends es fs = (more : List Event) × (fs ≡ es ++ more)

append_nil : (es : List Event) → es ++ [] ≡ es
append_nil [] = refl
append_nil (e ∷ es) = ap (λ x. e ∷ x) (append_nil es)

pub append_assoc : (es fs gs : List Event) → (es ++ fs) ++ gs ≡ es ++ (fs ++ gs)
append_assoc [] fs gs = refl
append_assoc (e ∷ es) fs gs = ap (λ x. e ∷ x) (append_assoc es fs gs)

pub same-Extends : (es : List Event) → Extends es es
unfolding Extends
same-Extends es = ([], sym (append_nil es))

pub then-Extends : (es fs gs : List Event) → Extends es fs → Extends fs gs → Extends es gs
unfolding Extends
then-Extends es fs gs (xs, p) (ys, q) = (xs ++ ys, q ∙ ap (λ x. x ++ ys) p ∙ append_assoc es xs ys)

pub audit-Extends :
    (correlation : Option String) (action outcome : String) (target : Option (String × String))
    (told : Metadata) (p : Plane)
    → Extends p.events (audit correlation action outcome target told p).events
unfolding Extends audit
audit-Extends correlation action outcome target told p = (_, refl)

audit_if-Extends :
    (b : Bool) (correlation : Option String) (action : String) (target : Option (String × String))
    (told : Metadata) (p : Plane)
    → Extends p.events (audit_if b correlation action target told p).events
audit_if-Extends true correlation action target told p =
    audit-Extends correlation action "success" target told p
audit_if-Extends false correlation action target told p = same-Extends p.events

-- The events of a change after the first of them.
pub audit_change-update :
    (correlation : Option String) (id : String) (current result : Listed) (p : Plane)
    → Extends
        (audit correlation "application.update" "success"
          (application_target id)
          no_metadata
          p).events
        (audit_change correlation id current result p).events
unfolding audit_change
audit_change-update correlation id current result p =
    then-Extends _ _ _ (audit_if-Extends _ correlation "application.status_change" _ _ _) (
      then-Extends _ _ _ (audit_if-Extends _ correlation "application.capability_change" _ _ _)
        (audit_if-Extends _ correlation "application.quota_change" _ _ _))

audit_change-Extends :
    (correlation : Option String) (id : String) (current result : Listed) (p : Plane)
    → Extends p.events (audit_change correlation id current result p).events
audit_change-Extends correlation id current result p =
    then-Extends _ _ _ (audit-Extends correlation "application.update" "success" _ _ p)
      (audit_change-update correlation id current result p)

created-Extends :
    (caller : Caller) (id : String) (s : Store) (p : Plane) (m : Registry × Result (Unit {0}))
    → Extends p.events (created caller id s p m).0.events
unfolding created
created-Extends caller id s p (r, ok _) = audit-Extends _ _ _ _ _ _
created-Extends caller id s p (r, err e) = audit-Extends _ _ _ _ _ _

updated-Extends :
    (caller : Caller) (id : String) (current : Listed) (p : Plane) (m : Registry × Routes.Outcome)
    → Extends p.events (updated caller id current p m).0.events
unfolding updated
updated-Extends caller id current p (r, Routes.refused status text) = same-Extends p.events
updated-Extends caller id current p (r, done) = elim (Option-cases (get_application id r)) [
  | inl e ↦ rw (e, updated) (same-Extends p.events)
  | inr (result, e) ↦ rw (e, updated) (audit_change-Extends caller.correlation id current result _)
]

key_made-Extends :
    (caller : Caller) (p : Plane) (m : Store × Response)
    → Extends p.events (key_made caller p m).0.events
unfolding key_made
key_made-Extends caller p (s, refused status text) = same-Extends p.events
key_made-Extends caller p (s, issued made) = audit-Extends _ _ _ _ _ _

key_revoked-Extends :
    (caller : Caller) (id : String) (p : Plane) (m : Store × Option (ℕ × String))
    → Extends p.events (key_revoked caller id p m).0.events
unfolding key_revoked
key_revoked-Extends caller id p (s, some (status, text)) = same-Extends p.events
key_revoked-Extends caller id p (s, none) = audit-Extends _ _ _ _ _ _

update-Extends :
    (legacy : Bool) (caller : Caller) (id : String) (change : Change) (p : Plane)
    → Extends p.events (update_route legacy caller id change p).0.events
unfolding update_route
update-Extends legacy caller id change p =
    elim (Option-cases (get_application id p.store.registry)) [
      | inl missing ↦ rw (missing, update_route) (same-Extends p.events)
      | inr (current, found) ↦
          rw (found, update_route)
            (elim (Bool-cases current.application.is_protected) [
              | inl t ↦ rw t (audit-Extends _ _ _ _ _ _)
              | inr t ↦ rw t (updated-Extends caller id current p _)
            ])
    ]

module _ (utf8 : String → Bytes) (hmac_sha256 : Bytes → Bytes → Bytes)
    (hex_tail : Bytes → String) where
  allowed-Extends :
      (pepper_file : File Bytes) (legacy : Bool) (caller : Caller) (e : Edit) (p : Plane)
      → Extends p.events (allowed utf8 hmac_sha256 hex_tail pepper_file legacy caller e p).0.events
  unfolding allowed application_route credential_route
  allowed-Extends pepper_file legacy caller (new_application id name client) p =
      created-Extends caller id p.store p _
  allowed-Extends pepper_file legacy caller (change_application id change) p =
      update-Extends legacy caller id change p
  allowed-Extends pepper_file legacy caller (new_credential random_id secret app name) p =
      elim (Bool-cases (keeps_out (get_application app p.store.registry))) [
        | inl t ↦ rw t (audit-Extends _ _ _ _ _ _)
        | inr t ↦ rw t (key_made-Extends caller p _)
      ]
  allowed-Extends pepper_file legacy caller (revoke id) p = key_revoked-Extends caller id p _

login-Extends :
    (caller : Caller) (p : Plane) (m : List Session × Checked (String × String))
    → Extends p.events (login_told caller p m).0.events
unfolding login_told
login-Extends caller p (ss, raised status) = elim (Bool-cases (nat_eq status 401)) [
  | inl t ↦ rw t (audit-Extends _ _ _ _ _ (record p { sessions = ss }))
  | inr t ↦ rw t (same-Extends p.events)
]
login-Extends caller p (ss, returned (token, csrf)) =
    audit-Extends _ _ _ _ _ (record p { sessions = ss })

logout-Extends :
    (caller : Caller) (p : Plane) (m : List Session × Checked Session)
    → Extends p.events (logout_told caller p m).0.events
unfolding logout_told
logout-Extends caller p (ss, raised status) = same-Extends p.events
logout-Extends caller p (ss, returned s) = audit-Extends _ _ _ _ _ (record p { sessions = ss })

past-Extends :
    (rest : Plane → Plane × Checked Reply) (p : Plane) (m : List Session × Checked Session)
    → ((q : Plane) → Extends q.events (rest q).0.events)
    → Extends p.events (past_session rest p m).0.events
unfolding past_session
past-Extends rest p (ss, raised status) h = same-Extends p.events
past-Extends rest p (ss, returned s) h = h (record p { sessions = ss })

pub handle-Extends :
    (l : Libraries) (c : Config) (legacy : Bool) (caller : Caller) (command : Command) (p : Plane)
    → Extends p.events (handle l c legacy caller command p).0.events
unfolding handle
handle-Extends l c legacy caller (log_in count id token csrf password) p = login-Extends caller p (
    login l.digest l.netloc l.lower l.verify count id token csrf caller.request c password
      caller.now p.sessions)
handle-Extends l c legacy caller log_out p =
    logout-Extends caller p
      (logout l.digest l.netloc l.lower caller.request c caller.now p.sessions)
handle-Extends l c legacy caller look p = past-Extends _ p _ (λ q. same-Extends q.events)
handle-Extends l c legacy caller (edit e) p =
    past-Extends _ p _
      (allowed-Extends l.utf8 l.hmac_sha256 l.hex_tail c.credential_pepper_file legacy caller e)

-- Requests of anybody, one after the other.
pub data Run (l : Libraries) (c : Config) (legacy : Bool) (p : Plane) : Plane → Type 0 where
  start : Run l c legacy p p
  next :
      {q : Plane} (caller : Caller) (command : Command)
      → Run l c legacy p q
      → Run l c legacy p (handle l c legacy caller command q).0
