-- ===== src/Security/Authorization/Laws.antt =====
-- What a request may do, over the registries that the operations of the store reach.
use cesar_core.Base.{
  ℕ, ◌+◌, ◌*◌, ◌/◌, max, ◌<◌, ◌≤◌, String, ◌≡◌, ◌⊎◌, inl, inr, Bool, true, false, ◌&&◌, Option,
  none, some, arith, Bool-cases, if◌then◌else◌,
}
use cesar_core.ControlPlane.Registry.{
  Capability, active, Application, Registry, find, granted, get_quota,
}
use cesar_core.ControlPlane.Registry.Steps.{Reach}
use cesar_core.ControlPlane.Registry.Funded.{Reach-IsFunded}
use cesar_core.Security.Authentication.{is_active}
use cesar_core.Security.Authorization.{
  access_denied, exceeded, authorize_capability, quota_key, answered, check, authorized_context,
}

-- Whether a row is of an active application.
abbrev pub on : Application → Bool
on a = elim a.state [ active ↦ true | _ ↦ false ]

authorize-found :
    (id : String) (c : Capability) (r : Registry) (a : Application)
    → find id r.applications ≡ some a
    → authorize_capability id c r
      ≡ (if on a && granted id c r.grants then none else some access_denied)
unfolding authorize_capability is_active
authorize-found id c r a found =
    rw (found, authorize_capability, is_active)
      (elim (Bool-cases (on a && granted id c r.grants)) [ inl t ↦ rw t | inr t ↦ rw t ])

exact_or_one : (n : ℕ) → (max 1 n ≡ n) ⊎ ((max 1 n ≡ 1) × (n ≤ 1))
exact_or_one n = ground arith

-- The seconds that a refused request is told are positive, reach the end of the window, and are either
-- less than a second beyond it or exactly one.
pub retry_after_bounds :
    (allowed ttl seconds : ℕ)
    → answered (some (allowed, ttl)) ≡ exceeded seconds
    → (1 ≤ seconds) × (ttl ≤ 1000 * seconds) × (1000 * seconds < ttl + 1000 ⊎ seconds ≡ 1)
unfolding answered
retry_after_bounds allowed ttl seconds h =
    let told : seconds ≡ max 1 ((ttl + 999) / 1000) = ground arith in
    elim (exact_or_one ((ttl + 999) / 1000)) [
      | inl e ↦ (omega (arith, told, e), omega (arith, told, e), inl (omega (arith, told, e)))
      | inr e ↦ (omega (arith, told, e), omega (arith, told, e), inr (omega (arith, told, e)))
    ]

module _ {Db : Type 0} (consume : String → ℕ → ℕ → Db → Db × Option (ℕ × ℕ)) where
  check-positive :
      (namespace : String) (window : ℕ) (id : String) (c : Capability) (limit : ℕ) (db : Db)
      → 0 < limit
      → check consume namespace window id c limit db ≡ (
        (consume (quota_key namespace id c) limit (window * 1000) db).0,
        answered (consume (quota_key namespace id c) limit (window * 1000) db).1,
      )
  unfolding check
  check-positive namespace window id c limit db pos = ground arith

  -- Over a registry that the operations of the store reach, a request of a known application is
  -- refused, without touching its quota, where the application is not active or lacks the capability;
  -- otherwise it has a positive limit, and the answer of the quota store decides. So it never fails for
  -- a missing or an invalid quota.
  pub authorized_context_lem :
      (namespace : String) (window : ℕ) (id : String) (c : Capability) (r : Registry) (db : Db)
      (a : Application)
      → Reach r
      → find id r.applications ≡ some a
      → (((on a && granted id c r.grants) ≡ false)
          × (authorized_context consume namespace window id c r db ≡ (db, access_denied)))
        ⊎ (((on a && granted id c r.grants) ≡ true)
            × ((limit : ℕ) × (get_quota id c r.policies ≡ some limit)
                × (0 < limit)
                × (authorized_context consume namespace window id c r db ≡ (
                  (consume (quota_key namespace id c) limit (window * 1000) db).0,
                  answered (consume (quota_key namespace id c) limit (window * 1000) db).1,
                ))))
  unfolding authorized_context
  authorized_context_lem namespace window id c r db a reached found =
      let auth = authorize-found id c r a found in
      elim (Bool-cases (on a && granted id c r.grants)) [
        | inr may ↦ inl (may, rw (auth, authorized_context) (rw may))
        | inl may ↦
            let funds = Reach-IsFunded reached in
            let (limit, quota) = funds.funded id c (ground (arith, may)) in
            let pos : 0 < limit = funds.positive id c limit quota in
            inr (
              may,
              (
                limit,
                quota,
                pos,
                rw (auth, authorized_context)
                    (rw may (rw quota (check-positive namespace window id c limit db pos))),
              ),
            )
      ]
