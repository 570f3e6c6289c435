-- ===== src/ControlPlane/Admin/Told.antt =====
-- What the audit trail tells of an edit, for the handlers of admin/routes.py.
use cesar_core.Base.{
  ℕ, String, ◌≡◌, refl, ap, ◌∙◌, Bool, false, Option, some, List, [], ◌∷◌, ◌++◌, Bool-cases,
  Option-cases, inl, inr, arith, eq_iff, ◌⊎◌, ◌==◌, ◌&&◌,
}
use cesar_core.ControlPlane.Registry.{Listed, Registry, Result, ok, err, get_application, Change}
use cesar_core.ControlPlane.Credentials.{
  Store, Credential, unrevoked, Response, issued, refused, set_revoked, revoke_credential,
  revoke_route, taken,
}
use cesar_core.ControlPlane.Routes.{done, put_application}
use cesar_core.ControlPlane.Routes
use cesar_core.ControlPlane.Admin.{Event, Metadata, Plane, audit, audit_change}
use cesar_core.ControlPlane.Admin.Handlers.{
  Edit, new_application, change_application, new_credential, revoke, Caller, created, updated,
  update_route, key_made, key_revoked,
}
use cesar_core.ControlPlane.Admin.Trail.{Extends, audit_change-update, append_assoc}
use cesar_core.ControlPlane.Routes.{within}
use cesar_core.ControlPlane.Routes.Laws.{put-stored}
use cesar_core.ControlPlane.Registry.Laws.{update_application_lem}
use cesar_core.ControlPlane.Registry.{find, listed, Application}

-- The action that tells of a change.
abbrev pub action_of : Edit → String
action_of (new_application id name client) = "application.create"
action_of (change_application id change) = "application.update"
action_of (new_credential random_id secret app name) = "credential.create"
action_of (revoke id) = "credential.revoke"

-- The trail tells of a change that succeeded, after the events that it had.
pub record IsTold (e : Edit) (correlation : Option String) (before after : List Event)
    : Type 0 where
  pub event : Event
  pub more : List Event
  pub extends : after ≡ before ++ event ∷ more
  pub of_change : event.action ≡ action_of e
  pub of_success : event.outcome ≡ "success"
  pub of_caller : event.correlation_id ≡ correlation

-- No identifier of a key stands twice.
unfoldable pub Once : List Credential → Type 0
Once [] = Unit
Once (c ∷ cs) = (taken c.id cs ≡ false) × Once cs

-- The tables stay, or the trail tells of their change.
unfoldable pub Accountable : Edit → Option String → Plane → Plane → Type 0
Accountable e correlation p q = (q.store ≡ p.store) ⊎ IsTold e correlation p.events q.events

pub revoked-same :
    (id : String) (now : ℕ) (cs : List Credential)
    → (set_revoked id now cs).1 ≡ 0
    → (set_revoked id now cs).0 ≡ cs
unfolding set_revoked
revoked-same id now [] h = refl
revoked-same id now (c ∷ cs) h = elim (Bool-cases (c.id == id && unrevoked c)) [
  | inl e ↦ absurd (ground arith)
  | inr e ↦ rw e (ap (λ x. c ∷ x) (revoked-same id now cs (ground arith)))
]

untaken-count :
    (id : String) (now : ℕ) (cs : List Credential)
    → taken id cs ≡ false
    → (set_revoked id now cs).1 ≡ 0
unfolding set_revoked taken
untaken-count id now [] h = refl
untaken-count id now (c ∷ cs) h = ground (arith, untaken-count id now cs)

pub once-count :
    (id : String) (now : ℕ) (cs : List Credential)
    → Once cs
    → ((set_revoked id now cs).1 ≡ 0) ⊎ ((set_revoked id now cs).1 ≡ 1)
unfolding set_revoked Once
once-count id now [] h = inl refl
once-count id now (c ∷ cs) (fresh, rest) = elim (Bool-cases (c.id == id && unrevoked c)) [
  | inl e ↦ inr (rw e (ground (arith, untaken-count id now cs, eq_iff c.id id)))
  | inr e ↦ rw e (once-count id now cs rest)
]

told :
    (e : Edit) (caller : Caller) (target : Option (String × String)) (m : Metadata) (p : Plane)
    → IsTold e caller.correlation p.events
        (audit caller.correlation (action_of e) "success" target m p).events
unfolding audit
told e caller target m p = record {
  event = _;
  more = [];
  extends = refl;
  of_change = refl;
  of_success = refl;
  of_caller = refl;
}

pub audit_store :
    (correlation : Option String) (action outcome : String) (target : Option (String × String))
    (m : Metadata) (p : Plane)
    → (audit correlation action outcome target m p).store ≡ p.store
unfolding audit
audit_store correlation action outcome target m p = refl

pub created-Accountable :
    (caller : Caller) (id name client : String) (p : Plane) (m : Registry × Result (Unit {0}))
    → Accountable
        (new_application id name client)
        caller.correlation
        p
        (created caller id p.store p m).0
unfolding created Accountable
created-Accountable caller id name client p (r, ok _) =
    inr (told (new_application id name client) caller _ _ (record p { store = _ }))
created-Accountable caller id name client p (r, err e) = inl (audit_store _ _ _ _ _ p)

found-listed :
    (id : String) (r : Registry) (a : Application)
    → find id r.applications ≡ some a
    → get_application id r ≡ some (listed r a)
unfolding get_application
found-listed id r a h = ground arith

put-found :
    (legacy : Bool) (cs : List Credential) (id : String) (now : ℕ) (change : Change)
    (r r' : Registry)
    → put_application legacy cs id now change r ≡ (r', done)
    → (result : Listed) × (get_application id r' ≡ some result)
put-found legacy cs id now change r r' h =
    let ((a, _, found), _, _, _) =
      update_application_lem id now (within change) r r'
        (put-stored legacy cs id now change r r' h) in
    (listed r' _, found-listed id r' _ found)

changed-told :
    (caller : Caller) (id : String) (change : Change) (current result : Listed) (p : Plane)
    → IsTold
        (change_application id change)
        caller.correlation
        p.events
        (audit_change caller.correlation id current result p).events
unfolding Extends audit
changed-told caller id change current result p =
    let (more, same) = audit_change-update caller.correlation id current result p in
    record {
      event = _;
      more = more;
      extends = same ∙ append_assoc p.events _ more;
      of_change = refl;
      of_success = refl;
      of_caller = refl;
    }

updated-Accountable :
    (caller : Caller) (id : String) (change : Change) (current : Listed) (p : Plane)
    (m : Registry × Routes.Outcome)
    → ((r' : Registry) → m ≡ (r', done) → (result : Listed) × (get_application id r' ≡ some result))
    → Accountable
        (change_application id change)
        caller.correlation
        p
        (updated caller id current p m).0
unfolding updated Accountable
updated-Accountable caller id change current p (r, Routes.refused status text) h = inl refl
updated-Accountable caller id change current p (r, done) h =
    let (result, found) = h r refl in
    rw (found, updated) (inr (changed-told caller id change current result _))

pub update-Accountable :
    (legacy : Bool) (caller : Caller) (id : String) (change : Change) (p : Plane)
    → Accountable
        (change_application id change)
        caller.correlation
        p
        (update_route legacy caller id change p).0
unfolding update_route Accountable
update-Accountable legacy caller id change p =
    elim (Option-cases (get_application id p.store.registry)) [
      | inl missing ↦ rw (missing, update_route) (inl refl)
      | inr (current, found) ↦
          rw (found, update_route)
            (elim (Bool-cases current.application.is_protected) [
              | inl t ↦ rw t (inl (audit_store _ _ _ _ _ p))
              | inr t ↦ rw t (
                  updated-Accountable caller id change current p
                    (put_application legacy p.store.credentials id caller.now change
                      p.store.registry)
                    (λ r'.
                      put-found legacy p.store.credentials id caller.now change p.store.registry
                        r'))
            ])
    ]

pub key_made-Accountable :
    (caller : Caller) (random_id secret app name : String) (p : Plane) (m : Store × Response)
    → Accountable
        (new_credential random_id secret app name)
        caller.correlation
        p
        (key_made caller p m).0
unfolding key_made Accountable
key_made-Accountable caller random_id secret app name p (s, refused status text) = inl refl
key_made-Accountable caller random_id secret app name p (s, issued made) =
    inr (told (new_credential random_id secret app name) caller _ _ (record p { store = s }))

pub revoke-Accountable :
    (caller : Caller) (id : String) (p : Plane)
    → Once p.store.credentials
    → Accountable
        (revoke id)
        caller.correlation
        p
        (key_revoked caller id p (revoke_route id caller.now p.store)).0
unfolding key_revoked revoke_route revoke_credential Accountable
revoke-Accountable caller id p h = elim (once-count id caller.now p.store.credentials h) [
  | inl e ↦ rw e (
      inl (
        ap (λ cs. record p.store { credentials = cs })
          (revoked-same id caller.now p.store.credentials e)))
  | inr e ↦ rw e (inr (told (revoke id) caller _ _ _))
]
