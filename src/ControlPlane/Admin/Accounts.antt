-- ===== src/ControlPlane/Admin/Accounts.antt =====
-- The keys of the table and the events that tell of them, over runs of the handlers.
use cesar_core.Base.{
  ℕ, String, ◌≡◌, refl, ◌∙◌, Bool, true, false, List, [], ◌∷◌, ◌++◌, ◌==◌, ◌||◌, ◌&&◌, Bool-cases,
  inl, inr, arith, All, is_some, eq_iff,
}
use cesar_core.ControlPlane.Credentials.{Credential, unrevoked, set_revoked, taken}
use cesar_core.ControlPlane.Credentials.Laws.{set_revoked-taken}
use cesar_core.ControlPlane.Login.{Config}
use cesar_core.ControlPlane.Admin.{Event, Plane}
use cesar_core.ControlPlane.Admin.Handlers.{Command, Caller, Libraries, handle}
use cesar_core.ControlPlane.Admin.Trail.{Extends, Run, start, next, handle-Extends}
use cesar_core.ControlPlane.Admin.Told.{Once}
use cesar_core.ControlPlane.Admin.Rows.{
  recorded, recorded-append, RowChange, same, added, ended, handle-Rows,
}

-- What the trail tells of a row.
pub record IsKnown (events : List Event) (c : Credential) : Type 0 where
  pub made : recorded "credential.create" c.id events ≡ true
  pub ended : is_some c.revoked_at ≡ true → recorded "credential.revoke" c.id events ≡ true

-- Rows that are known stay so as the trail grows.
IsKnown-later :
    (es fs : List Event) (cs : List Credential)
    → Extends es fs
    → All (IsKnown es) cs
    → All (IsKnown fs) cs
unfolding Extends
IsKnown-later es fs [] h k = tt
IsKnown-later es fs (c ∷ cs) (more, e) (k, ks) = (
  record {
    made = rw e (recorded-append "credential.create" c.id es more k.made);
    ended = λ r. rw e (recorded-append "credential.revoke" c.id es more (k.ended r));
  },
  IsKnown-later es fs cs (more, e) ks,
)

IsKnown-added :
    (es : List Event) (c : Credential) (cs : List Credential)
    → All (IsKnown es) cs
    → IsKnown es c
    → All (IsKnown es) (cs ++ c ∷ [])
IsKnown-added es c [] ks k = (k, tt)
IsKnown-added es c (d ∷ cs) (l, ks) k = (l, IsKnown-added es c cs ks k)

IsKnown-ended :
    (es : List Event) (id : String) (now : ℕ) (cs : List Credential)
    → recorded "credential.revoke" id es ≡ true
    → All (IsKnown es) cs
    → All (IsKnown es) (set_revoked id now cs).0
unfolding set_revoked
IsKnown-ended es id now [] h ks = tt
IsKnown-ended es id now (c ∷ cs) h (k, ks) = elim (Bool-cases (c.id == id && unrevoked c)) [
  | inl e ↦
      let named : c.id ≡ id = (eq_iff c.id id).0 (ground arith) in
      rw e (record { made = k.made; ended = λ r. rw named h }, IsKnown-ended es id now cs h ks)
  | inr e ↦ rw e (k, IsKnown-ended es id now cs h ks)
]

Once-revoked :
    (j : String) (now : ℕ) (cs : List Credential) → Once cs → Once (set_revoked j now cs).0
unfolding set_revoked Once
Once-revoked j now [] h = tt
Once-revoked j now (c ∷ cs) (fresh, rest) = elim (Bool-cases (c.id == j && unrevoked c)) [
  | inl e ↦ rw e (set_revoked-taken c.id j now cs ∙ fresh, Once-revoked j now cs rest)
  | inr e ↦ rw e (set_revoked-taken c.id j now cs ∙ fresh, Once-revoked j now cs rest)
]

taken-added :
    (id : String) (c : Credential) (cs : List Credential)
    → taken id (cs ++ c ∷ []) ≡ (taken id cs || c.id == id)
unfolding taken
taken-added id c [] = ground arith
taken-added id c (d ∷ cs) = ground (arith, taken-added id c cs)

Once-added :
    (c : Credential) (cs : List Credential) → taken c.id cs ≡ false → Once cs → Once (cs ++ c ∷ [])
unfolding Once taken
Once-added c [] h o = (refl, tt)
Once-added c (d ∷ cs) h (fresh, rest) = (
  taken-added d.id c cs ∙ ground (arith, fresh, eq_iff d.id c.id, eq_iff c.id d.id),
  Once-added c cs (ground arith) rest,
)

-- The identifiers are distinct, and every row is known.
pub record IsAccounted (p : Plane) : Type 0 where
  pub once : Once p.store.credentials
  pub known : All (IsKnown p.events) p.store.credentials

changed-Once :
    {events : List Event} {cs ds : List Credential} → RowChange events cs ds → Once cs → Once ds
changed-Once same o = o
changed-Once {cs = cs} (added c fresh live told) o = Once-added c cs fresh o
changed-Once {cs = cs} (ended id now told) o = Once-revoked id now cs o

changed-IsKnown :
    {events : List Event} {cs ds : List Credential}
    → RowChange events cs ds
    → All (IsKnown events) cs
    → All (IsKnown events) ds
changed-IsKnown same ks = ks
changed-IsKnown {events = events} {cs = cs} (added c fresh live told) ks =
    IsKnown-added events c cs ks
      (record { made = told; ended = λ r. absurd (ground (arith, live, r)) })
changed-IsKnown {events = events} {cs = cs} (ended id now told) ks =
    IsKnown-ended events id now cs told ks

handle-IsAccounted :
    (l : Libraries) (c : Config) (legacy : Bool) (caller : Caller) (command : Command) (p : Plane)
    → IsAccounted p
    → IsAccounted (handle l c legacy caller command p).0
handle-IsAccounted l c legacy caller command p a =
    let rows = handle-Rows l c legacy caller command p a.once in
    let more = handle-Extends l c legacy caller command p in
    record {
      once = changed-Once rows a.once;
      known = changed-IsKnown rows (IsKnown-later _ _ p.store.credentials more a.known);
    }

-- From tables without keys, whatever the requests, the identifiers of the keys stay distinct, every
-- key has an event of its creation in the audit trail, and every revoked key one of its revocation.
pub Run-IsAccounted :
    (l : Libraries) (c : Config) (legacy : Bool) {p q : Plane}
    → p.store.credentials ≡ []
    → Run l c legacy p q
    → IsAccounted q
unfolding Once
Run-IsAccounted l c legacy none_yet start = record { once = rw none_yet tt; known = rw none_yet tt }
Run-IsAccounted l c legacy none_yet (next {q = q} caller command run) =
    handle-IsAccounted l c legacy caller command q (Run-IsAccounted l c legacy none_yet run)
