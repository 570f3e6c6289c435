-- ===== src/ControlPlane/Registry/Tables.antt =====
-- What a lookup gives after each statement on the tables of the registry.
use mathlib.Core.Option
use cesar_core.Base.{
  ℕ, String, ◌≡◌, ◌↔◌, inl, inr, Bool-cases, refl, true, false, ◌||◌, none, some, List, [], ◌∷◌,
  ◌++◌, arith, ◌==◌, eq_iff, if◌then◌else◌, is_some,
}
use cesar_core.ControlPlane.Registry.{
  Capability, cap_eq, same_key, State, Application, Grant, Policy, find, granted, get_quota,
  set_application, delete_grants, upsert_policy,
}

pub cap_eq_iff : (c d : Capability) → (cap_eq c d ≡ true) ↔ (c ≡ d)
unfolding cap_eq
cap_eq_iff c d = ground arith

pub same_key_iff :
    (i : String) (a : Capability) (j : String) (b : Capability)
    → (same_key i a j b ≡ true) ↔ ((i ≡ j) × (a ≡ b))
unfolding same_key
same_key_iff i a j b = ground (arith, eq_iff i j, cap_eq_iff a b)

abbrev pub renamed : String → State → ℕ → Application → Application
renamed name state now a = record a { display_name = name; state = state; updated_at = now }

pub find-set_application :
    (id j name : String) (s : State) (now : ℕ) (apps : List Application)
    → find j (set_application id name s now apps)
      ≡ (if id == j then Option.map (renamed name s now) (find j apps) else find j apps)
unfolding find set_application
find-set_application id j name s now [] = ground arith
find-set_application id j name s now (a ∷ apps) =
    ground
      (arith, find-set_application id j name s now apps, eq_iff a.id id, eq_iff a.id j, eq_iff id j)

pub find-append :
    (j : String) (apps : List Application) (a : Application)
    → find j (apps ++ a ∷ [])
      ≡ (if is_some (find j apps) then find j apps else if a.id == j then some a else none)
unfolding find
find-append j [] a = refl
find-append j (b ∷ apps) a = ground (arith, find-append j apps a)

pub granted-delete_grants :
    (id j : String) (c : Capability) (gs : List Grant)
    → granted j c (delete_grants id gs) ≡ (if id == j then false else granted j c gs)
unfolding granted delete_grants same_key
granted-delete_grants id j c [] = ground arith
granted-delete_grants id j c (g ∷ gs) = ground (
  arith,
  granted-delete_grants id j c gs,
  eq_iff g.application_id id,
  eq_iff g.application_id j,
  eq_iff id j,
)

pub granted-append :
    (j : String) (c : Capability) (gs : List Grant) (g : Grant)
    → granted j c (gs ++ g ∷ []) ≡ (granted j c gs || same_key g.application_id g.capability j c)
unfolding granted
granted-append j c [] g = ground arith
granted-append j c (h ∷ gs) g = ground (arith, granted-append j c gs g)

pub get_quota-append :
    (j : String) (c : Capability) (ps : List Policy) (p : Policy)
    → get_quota j c (ps ++ p ∷ []) ≡ (
        if is_some (get_quota j c ps)
        then get_quota j c ps
        else if same_key p.application_id p.capability j c
        then some p.limit_per_minute
        else none)
unfolding get_quota
get_quota-append j c [] p = refl
get_quota-append j c (q ∷ ps) p = ground (arith, get_quota-append j c ps p)

-- With `same_key` shut, its law is enough.
pub get_quota-cons :
    (j : String) (c : Capability) (q : Policy) (ps : List Policy)
    → get_quota j c (q ∷ ps) ≡ (
        if same_key q.application_id q.capability j c
        then some q.limit_per_minute
        else get_quota j c ps)
unfolding get_quota
get_quota-cons j c q ps = refl

same_key_chain :
    (i : String) (a : Capability) (j : String) (b : Capability) (k : String) (c : Capability)
    → same_key i a j b ≡ true
    → same_key j b k c ≡ same_key i a k c
same_key_chain i a j b k c h = let (e, f) = (same_key_iff i a j b).0 h in rw (e, f)

key_apart :
    (i : String) (a : Capability) (j : String) (b : Capability) (k : String) (c : Capability)
    → same_key i a j b ≡ false
    → same_key i a k c ≡ true
    → same_key j b k c ≡ false
key_apart i a j b k c h e =
    ground (arith, same_key_iff i a j b, same_key_iff i a k c, same_key_iff j b k c)

pub get_quota-upsert_policy :
    (j : String) (c : Capability) (p : Policy) (ps : List Policy)
    → get_quota j c (upsert_policy p ps) ≡ (
        if same_key p.application_id p.capability j c
        then some p.limit_per_minute
        else get_quota j c ps)
unfolding upsert_policy
get_quota-upsert_policy j c p [] = get_quota-cons j c p []
get_quota-upsert_policy j c p (q ∷ ps) =
    elim (Bool-cases (same_key q.application_id q.capability p.application_id p.capability)) [
      | inl same ↦
          let chain =
            same_key_chain q.application_id q.capability p.application_id p.capability j c same in
          ground (
            arith,
            same,
            chain,
            get_quota-cons j c q ps,
            get_quota-cons j c
                (record q { limit_per_minute = p.limit_per_minute; updated_at = p.updated_at }) ps,
          )
      | inr other ↦ ground (
        arith,
        other,
        get_quota-upsert_policy j c p ps,
        get_quota-cons j c q ps,
        get_quota-cons j c q (upsert_policy p ps),
        key_apart q.application_id q.capability p.application_id p.capability j c other,
      )
    ]
