-- ===== src/Admission/Counters.antt =====
-- What a request does to the counters of Redis, against the windows that they stand for.
use cesar_core.Base.{
  ℕ, ◌+◌, ◌*◌, ◌<◌, ◌≤◌, String, ◌≡◌, refl, Bool, true, false, Option, none, some, List, arith,
  Option-cases, Bool-cases, inl, inr, ltb, leb, ◌⊎◌,
}
use cesar_core.ControlPlane.Registry.{Capability, Registry, get_quota}
use cesar_core.ControlPlane.Token.{Bytes}
use cesar_core.ControlPlane.Rollups.{Row}
use cesar_core.Security.Authorization.{
  Verdict, authorize_capability, quota_key, check, authorized_context,
}
use cesar_core.Security.Quota.{Redis, run_script, consume}
use cesar_core.Security.Quota.Window.{Window, admit}
use cesar_core.Gateway.Terms.{Context, Sent}
use cesar_core.Admission.{
  Incoming, Settings, World, refused_verdict, both_headers, window_seconds, identify, authorize,
  handle, proceed, serve,
}
use cesar_core.Admission.Laws.{Access-cases}

-- How many requests a window has counted, and that it ends no earlier than some time.
abbrev pub used : Window → ℕ
used none = 0
used (some (n, end)) = n

abbrev pub EndsAfter : ℕ → Window → Type 0
EndsAfter horizon none = Unit
EndsAfter horizon (some (n, end)) = horizon ≤ end

-- One request of a window that is still open at the horizon: the count never falls, and where it is
-- admitted there was room, and it counts one.
pub admit_used :
    (closed : ℕ → ℕ → Bool) (horizon at limit window : ℕ) (w : Window)
    → ((end : ℕ) → horizon ≤ end → closed end at ≡ false)
    → horizon ≤ at + window
    → 0 < limit
    → EndsAfter horizon w
    → EndsAfter horizon (admit closed at limit window w).0
      × (used w ≤ used (admit closed at limit window w).0)
      × (0 < (admit closed at limit window w).1.0
          → (used w < limit) × (used (admit closed at limit window w).0 ≡ used w + 1))
unfolding admit
admit_used closed horizon at limit window none ahead long pos ends =
    (long, omega arith, λ h. (pos, omega arith))
admit_used closed horizon at limit window (some (n, end)) ahead long pos ends =
    rw (ahead end ends) (elim (Bool-cases (leb limit n)) [
      | inl t ↦ rw t (ends, omega arith, λ h. absurd (omega (arith, h)))
      | inr t ↦ rw t (ends, omega arith, λ h. (ground arith, refl))
    ])

module _ {Db : Type 0} (redis : Redis Db) where
  -- The counters stay, or the script has run on them for a positive limit.
  unfoldable pub Counts : ℕ → Db → Db → Type 0
  Counts at db after =
      (after ≡ db)
      ⊎ ((k : String) × (limit : ℕ) × (0 < limit)
          × (after ≡ (run_script redis at k limit (window_seconds * 1000) db).0))

  consume-Counts :
      (durable : Bool) (at : ℕ) (k : String) (limit : ℕ) (db : Db)
      → 0 < limit
      → Counts at db (consume redis durable at k limit (window_seconds * 1000) db).0
  unfolding consume Counts
  consume-Counts true at k limit db pos = inr (k, limit, pos, refl)
  consume-Counts false at k limit db pos = inl refl

  check-Counts :
      (durable : Bool) (at : ℕ) (namespace id : String) (c : Capability) (limit : ℕ) (db : Db)
      → Counts at db (check (consume redis durable at) namespace window_seconds id c limit db).0
  unfolding check Counts
  check-Counts durable at namespace id c limit db = elim (Bool-cases (ltb limit 1)) [
    | inl e ↦ rw e (inl refl)
    | inr e ↦ rw e (consume-Counts durable at (quota_key namespace id c) limit db (ground arith))
  ]

  authorized-Counts :
      (durable : Bool) (at : ℕ) (namespace id : String) (c : Capability) (r : Registry) (db : Db)
      → Counts at db
          (authorized_context (consume redis durable at) namespace window_seconds id c r db).0
  unfolding authorized_context Counts
  authorized-Counts durable at namespace id c r db =
      elim (Option-cases (authorize_capability id c r)) [
        | inr (v, e) ↦ rw (e, authorized_context) (inl refl)
        | inl e ↦
            rw (e, authorized_context)
              (elim (Option-cases (get_quota id c r.policies)) [
                | inl q ↦ rw q (inl refl)
                | inr (limit, q) ↦ rw q (check-Counts durable at namespace id c limit db)
              ])
      ]

module _ {Answer Body : Type 0} (handler : Context → Body → List Row → List Row × Sent Answer) where
  -- The handler and what comes before it leave the tables, and nothing but the quota counts.
  handle_keeps :
      {Db : Type 0} (invalid : ℕ) (o : Option Context) (body : Option Body) (w : World Db)
      → ((handle handler invalid o body w).0.counters ≡ w.counters)
        × ((handle handler invalid o body w).0.store ≡ w.store)
  unfolding handle
  handle_keeps invalid none body w = (refl, refl)
  handle_keeps invalid (some context) none w = (refl, refl)
  handle_keeps invalid (some context) (some given) w = (refl, refl)

  proceed_keeps :
      {Db : Type 0} (invalid : ℕ) (i : Incoming) (id : String) (texts : String × String)
      (body : Option Body) (w : World Db) (run : Db × Verdict)
      → ((proceed handler invalid i id texts body w run).0.counters ≡ run.0)
        × ((proceed handler invalid i id texts body w run).0.store ≡ w.store)
  unfolding proceed
  proceed_keeps invalid i id (service, purpose) body w (db, v) =
      elim (Option-cases (refused_verdict {Answer = Answer} v)) [
        | inr (response, e) ↦ rw (e, proceed) (refl, refl)
        | inl e ↦ rw (e, proceed) (handle_keeps invalid _ body (record w { counters = db }))
      ]

module _ {Db : Type 0} (redis : Redis Db) (utf8 : String → Bytes)
    (hmac_sha256 : Bytes → Bytes → Bytes) (hex_tail : Bytes → String) {Answer Body : Type 0}
    (handler : Context → Body → List Row → List Row × Sent Answer) where
  authorize-Counts :
      (settings : Settings) (c : Capability) (i : Incoming) (id : String) (w : World Db)
      → Counts redis i.at w.counters (authorize redis utf8 hmac_sha256 hex_tail settings c i id w).0
  unfolding authorize
  authorize-Counts settings c i id w =
      authorized-Counts redis settings.durable i.at settings.quota_namespace id c w.store.registry
        w.counters

  pub serve-Counts :
      (settings : Settings) (c : Capability) (invalid : ℕ) (i : Incoming) (body : Option Body)
      (w : World Db)
      → Counts redis i.at w.counters
          (serve redis utf8 hmac_sha256 hex_tail handler settings c invalid i body w).0.counters
        × ((serve redis utf8 hmac_sha256 hex_tail handler settings c invalid i body w).0.store
            ≡ w.store)
  unfolding serve Counts
  serve-Counts settings c invalid i body w =
      elim (Access-cases (identify redis utf8 hmac_sha256 hex_tail settings i w.store)) [
        | inl (d, e) ↦ rw (e, serve) (inl refl, refl)
        | inr (id, e) ↦
            rw (e, serve)
              (elim (Option-cases (both_headers i)) [
                | inl t ↦ rw t (inl refl, refl)
                | inr (texts, t) ↦
                    let run = authorize redis utf8 hmac_sha256 hex_tail settings c i id w in
                    let (counters, store) = proceed_keeps handler invalid i id texts body w run in
                    rw t (rw (counters) (authorize-Counts settings c i id w), store)
              ])
      ]
