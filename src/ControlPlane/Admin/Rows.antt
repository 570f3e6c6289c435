-- ===== src/ControlPlane/Admin/Rows.antt =====
-- What a request of the administrative API does to the keys of the table, and what it tells of them.
use cesar_core.Base.{
  ℕ, String, ◌≡◌, refl, ap, ◌∙◌, Bool, true, false, Option, none, some, List, [], ◌∷◌, ◌++◌, ◌==◌,
  ◌&&◌, Bool-cases, Option-cases, inl, inr, arith, any, eq_refl,
}
use cesar_core.ControlPlane.Registry.{
  Registry, get_application, Change, Result, ok, err, create_application,
}
use cesar_core.ControlPlane.Token.{Bytes, File, Issued}
use cesar_core.ControlPlane.Routes.{done}
use cesar_core.ControlPlane.Routes
use cesar_core.ControlPlane.Registry.{Listed}
use cesar_core.ControlPlane.Credentials.{
  Store, Credential, Response, issued, refused, set_revoked, revoke_credential, revoke_route, taken,
  create_credential,
}
use cesar_core.ControlPlane.Credentials.Fresh.{create-rows}
use cesar_core.ControlPlane.Admin.{Event, Metadata, Plane, audit, audit_if, audit_change}
use cesar_core.ControlPlane.Admin.Handlers.{
  Edit, new_application, change_application, new_credential, revoke, Command, log_in, log_out, look,
  edit, Reply, Caller, allowed, Libraries, handle, created, updated, update_route, key_made,
  key_revoked, keeps_out, credential_route, application_route, past_session,
}
use cesar_core.ControlPlane.Admin.Told.{Once, once-count, revoked-same}
use cesar_core.ControlPlane.Admin.Laws.{login_told-store, logout_told-store}
use cesar_core.ControlPlane.Login.{Config, Checked, login, logout, require_session}
use cesar_core.ControlPlane.Sessions.{Session}
use cesar_core.Gateway.Terms.{raised, returned}
use cesar_core.ControlPlane.Admin.Handlers.{accepted}

-- Whether an event is of a success, with some action and some identifier for its target.
abbrev pub is_about : String → Option (String × String) → Bool
is_about id none = false
is_about id (some (kind, target)) = kind == "credential" && target == id

abbrev pub tells : String → String → Event → Bool
tells action id e = e.action == action && (e.outcome == "success" && is_about id e.target)

abbrev pub recorded : String → String → List Event → Bool
recorded action id events = any (tells action id) events

-- What a request does to the rows, and what it tells.
pub data RowChange (events : List Event) (cs : List Credential) : List Credential → Type 0 where
  same : RowChange events cs cs
  added :
      (c : Credential)
      → taken c.id cs ≡ false
      → c.revoked_at ≡ none
      → recorded "credential.create" c.id events ≡ true
      → RowChange events cs (cs ++ c ∷ [])
  ended :
      (id : String) (now : ℕ)
      → recorded "credential.revoke" id events ≡ true
      → RowChange events cs (set_revoked id now cs).0

pub recorded-append :
    (action id : String) (es fs : List Event)
    → recorded action id es ≡ true
    → recorded action id (es ++ fs) ≡ true
recorded-append action id [] fs h = absurd (ground arith)
recorded-append action id (e ∷ es) fs h = ground (arith, recorded-append action id es fs)

recorded-last :
    (action id : String) (es : List Event) (e : Event)
    → tells action id e ≡ true
    → recorded action id (es ++ e ∷ []) ≡ true
recorded-last action id [] e h = rw h refl
recorded-last action id (d ∷ es) e h = ground (arith, recorded-last action id es e h)

created-Rows :
    (caller : Caller) (id : String) (p : Plane) (m : Registry × Result (Unit {0}))
    → RowChange
        (created caller id p.store p m).0.events
        p.store.credentials
        (created caller id p.store p m).0.store.credentials
unfolding created audit
created-Rows caller id p (r, ok _) = same
created-Rows caller id p (r, err e) = same

audit_if-credentials :
    (b : Bool) (correlation : Option String) (action : String) (target : Option (String × String))
    (m : Metadata) (p : Plane)
    → (audit_if b correlation action target m p).store.credentials ≡ p.store.credentials
unfolding audit
audit_if-credentials true correlation action target m p = refl
audit_if-credentials false correlation action target m p = refl

audit_change-credentials :
    (correlation : Option String) (id : String) (current result : Listed) (p : Plane)
    → (audit_change correlation id current result p).store.credentials ≡ p.store.credentials
unfolding audit_change audit
audit_change-credentials correlation id current result p =
    audit_if-credentials _ correlation "application.quota_change" _ _ _
    ∙ audit_if-credentials _ correlation "application.capability_change" _ _ _
    ∙ audit_if-credentials _ correlation "application.status_change" _ _ _

updated-Rows :
    (caller : Caller) (id : String) (current : Listed) (p : Plane) (m : Registry × Routes.Outcome)
    → (updated caller id current p m).0.store.credentials ≡ p.store.credentials
unfolding updated
updated-Rows caller id current p (r, Routes.refused status text) = refl
updated-Rows caller id current p (r, done) = elim (Option-cases (get_application id r)) [
  | inl e ↦ rw (e, updated) refl
  | inr (result, e) ↦
      rw (e, updated) (audit_change-credentials caller.correlation id current result _)
]

update-Rows :
    (legacy : Bool) (caller : Caller) (id : String) (change : Change) (p : Plane)
    → (update_route legacy caller id change p).0.store.credentials ≡ p.store.credentials
unfolding update_route audit
update-Rows legacy caller id change p = elim (Option-cases (get_application id p.store.registry)) [
  | inl missing ↦ rw (missing, update_route) refl
  | inr (current, found) ↦
      rw (found, update_route)
        (elim (Bool-cases current.application.is_protected) [
          | inl t ↦ rw t refl
          | inr t ↦ rw t (updated-Rows caller id current p _)
        ])
]

key_made-Rows :
    (caller : Caller) (p : Plane) (m : Store × Response)
    → ((t : Store) (key : Issued)
        → m ≡ (t, issued key)
        → (c : Credential) × (c.id ≡ key.id)
          × (c.revoked_at ≡ none)
          × (taken c.id p.store.credentials ≡ false)
          × (t.credentials ≡ p.store.credentials ++ c ∷ []))
    → RowChange
        (key_made caller p m).0.events
        p.store.credentials
        (key_made caller p m).0.store.credentials
unfolding key_made audit
key_made-Rows caller p (s, refused status text) h = same
key_made-Rows caller p (s, issued made) h =
    let (c, named, live, fresh, rows) = h s made refl in
    rw rows (
      added c fresh live
        (recorded-last "credential.create" c.id p.events _ (rw (named, eq_refl made.id) refl)))

key_revoked-Rows :
    (caller : Caller) (id : String) (p : Plane)
    → Once p.store.credentials
    → RowChange
        (key_revoked caller id p (revoke_route id caller.now p.store)).0.events
        p.store.credentials
        (key_revoked caller id p (revoke_route id caller.now p.store)).0.store.credentials
unfolding key_revoked revoke_route revoke_credential audit
key_revoked-Rows caller id p h = elim (once-count id caller.now p.store.credentials h) [
  | inl e ↦ rw e (rw (revoked-same id caller.now p.store.credentials e) same)
  | inr e ↦
      rw e (
        ended id caller.now
          (recorded-last "credential.revoke" id p.events _ (rw (eq_refl id) refl)))
]

module _ (utf8 : String → Bytes) (hmac_sha256 : Bytes → Bytes → Bytes)
    (hex_tail : Bytes → String) where
  allowed-Rows :
      (pepper_file : File Bytes) (legacy : Bool) (caller : Caller) (e : Edit) (p : Plane)
      → Once p.store.credentials
      → RowChange
          (allowed utf8 hmac_sha256 hex_tail pepper_file legacy caller e p).0.events
          p.store.credentials
          (allowed utf8 hmac_sha256 hex_tail pepper_file legacy caller e p).0.store.credentials
  unfolding allowed application_route credential_route audit
  allowed-Rows pepper_file legacy caller (new_application id name client) p h =
      created-Rows caller id p (create_application id name client caller.now p.store.registry)
  allowed-Rows pepper_file legacy caller (change_application id change) p h =
      rw (update-Rows legacy caller id change p) same
  allowed-Rows pepper_file legacy caller (new_credential random_id secret app name) p h =
      elim (Bool-cases (keeps_out (get_application app p.store.registry))) [
        | inl t ↦ rw t same
        | inr t ↦ rw t (
            key_made-Rows caller p
              (create_credential utf8 hmac_sha256 hex_tail pepper_file random_id secret app name
                caller.now p.store)
              (create-rows utf8 hmac_sha256 hex_tail pepper_file random_id secret app name
                caller.now p.store))
      ]
  allowed-Rows pepper_file legacy caller (revoke id) p h = key_revoked-Rows caller id p h

past-Rows :
    (rest : Plane → Plane × Checked Reply) (p : Plane) (m : List Session × Checked Session)
    → ((q : Plane)
        → q.store ≡ p.store
        → RowChange (rest q).0.events p.store.credentials (rest q).0.store.credentials)
    → RowChange
        (past_session rest p m).0.events
        p.store.credentials
        (past_session rest p m).0.store.credentials
unfolding past_session
past-Rows rest p (ss, raised status) h = same
past-Rows rest p (ss, returned s) h = h (record p { sessions = ss }) refl

pub handle-Rows :
    (l : Libraries) (c : Config) (legacy : Bool) (caller : Caller) (command : Command) (p : Plane)
    → Once p.store.credentials
    → RowChange
        (handle l c legacy caller command p).0.events
        p.store.credentials
        (handle l c legacy caller command p).0.store.credentials
unfolding handle
handle-Rows l c legacy caller (log_in count id token csrf password) p h =
    rw
      (ap (λ s. s.credentials)
        (login_told-store caller p (
          login l.digest l.netloc l.lower l.verify count id token csrf caller.request c password
            caller.now p.sessions)))
      same
handle-Rows l c legacy caller log_out p h =
    rw
      (ap (λ s. s.credentials)
        (logout_told-store caller p
          (logout l.digest l.netloc l.lower caller.request c caller.now p.sessions)))
      same
handle-Rows l c legacy caller look p h =
    past-Rows (λ q. (q, returned accepted)) p
      (require_session l.digest l.netloc l.lower false caller.request c caller.now p.sessions)
      (λ q e. rw (ap (λ s. s.credentials) e) same)
handle-Rows l c legacy caller (edit e) p h =
    past-Rows _ p
      (require_session l.digest l.netloc l.lower true caller.request c caller.now p.sessions)
      (λ q kept. rw (← ap (λ s. s.credentials) kept) (
        allowed-Rows l.utf8 l.hmac_sha256 l.hex_tail c.credential_pepper_file legacy caller e q
          (rw (ap (λ s. s.credentials) kept) h)))
