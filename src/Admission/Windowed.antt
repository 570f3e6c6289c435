-- ===== src/Admission/Windowed.antt =====
-- The counters of Redis under the requests of one window.
use mathlib.Core.Option.{some-injective}
use cesar_core.Base.{
  true, Bool, sym, ℕ, ◌+◌, ◌*◌, ◌<◌, ◌≤◌, String, ◌≡◌, refl, ap, ◌∙◌, false, Option, some, ◌==◌,
  arith, Bool-cases, inl, inr, eq_iff, eq_refl,
}
use cesar_core.Security.Quota.{Redis, run_script, consume}
use cesar_core.Security.Quota.Window.{Window, admit, Windows, put}
use cesar_core.Security.Quota.Keys.{Later, Agrees, script-Agrees}
use cesar_core.Security.Quota.Laws.{AllHold, script-AllHold}
use cesar_core.Admission.{window_seconds}
use cesar_core.Admission.Counters.{used, EndsAfter, admit_used, Counts}

abbrev pub window_ms : ℕ
window_ms = window_seconds * 1000

module _ {Db : Type 0} (redis : Redis Db) where
  -- The counters stand for windows that end no earlier than some time.
  pub record IsWindowed (horizon now : ℕ) (db : Db) (ws : Windows) : Type 0 where
    pub holds : AllHold redis now db ws
    pub ends : (k : String) → EndsAfter horizon (ws k)

  pub IsWindowed-later :
      (horizon now at : ℕ) (db : Db) (ws : Windows)
      → now ≤ at
      → IsWindowed horizon now db ws
      → IsWindowed horizon at db ws
  unfolding AllHold
  IsWindowed-later horizon now at db ws le h = record {
    holds = λ k. Later redis now at db k (ws k) le (h.holds k);
    ends = h.ends;
  }

  put_ends :
      (horizon : ℕ) (k : String) (x : Window) (ws : Windows)
      → EndsAfter horizon x
      → ((j : String) → EndsAfter horizon (ws j))
      → (j : String) → EndsAfter horizon (put k x ws j)
  unfolding put
  put_ends horizon k x ws here others j = elim (Bool-cases (j == k)) [
    | inl e ↦ rw e here
    | inr e ↦ rw e (others j)
  ]

  put_used :
      (k : String) (x : Window) (ws : Windows)
      → used (ws k) ≤ used x
      → (j : String) → used (ws j) ≤ used (put k x ws j)
  unfolding put
  put_used k x ws here j = elim (Bool-cases (j == k)) [
    | inl e ↦ rw (e, (eq_iff j k).0 e) here
    | inr e ↦ rw e (omega arith)
  ]

  put_same : (k : String) (x : Window) (ws : Windows) → put k x ws k ≡ x
  unfolding put
  put_same k x ws = rw (eq_refl k) refl

  -- The script on the counters of one key.
  pub script_step :
      (horizon at limit : ℕ) (k : String) (db : Db) (ws : Windows)
      → IsWindowed horizon at db ws
      → at < horizon
      → horizon ≤ at + window_ms
      → 0 < limit
      → IsWindowed horizon at
          (run_script redis at k limit window_ms db).0
          (put k (admit redis.expired at limit window_ms (ws k)).0 ws)
        × ((j : String)
            → used (ws j) ≤ used (put k (admit redis.expired at limit window_ms (ws k)).0 ws j))
        × (0 < (admit redis.expired at limit window_ms (ws k)).1.0
            → (used (ws k) < limit)
              × (used (put k (admit redis.expired at limit window_ms (ws k)).0 ws k)
                  ≡ used (ws k) + 1))
  script_step horizon at limit k db ws h soon long pos =
      let open_until : (end : ℕ) → horizon ≤ end → redis.expired end at ≡ false =
        λ end le. redis.expired_before end at (omega (arith, le, soon)) in
      let (ends, grows, room) =
        admit_used redis.expired horizon at limit window_ms (ws k) open_until long pos (h.ends k) in
      (
        record {
          holds = script-AllHold redis at k limit window_ms db ws h.holds;
          ends = put_ends horizon k _ ws ends h.ends;
        },
        put_used k _ ws grows,
        λ one. ((room one).0, ap used (put_same k _ ws) ∙ (room one).1),
      )

  -- A request that may have run the script keeps the windows, and no count falls.
  pub Counts-step :
      (horizon at : ℕ) (db after : Db) (ws : Windows)
      → IsWindowed horizon at db ws
      → at < horizon
      → horizon ≤ at + window_ms
      → Counts redis at db after
      → (ws' : Windows) × IsWindowed horizon at after ws'
        × ((j : String) → used (ws j) ≤ used (ws' j))
  unfolding Counts
  Counts-step horizon at db after ws h soon long (inl same) = (ws, rw same h, λ j. omega arith)
  Counts-step horizon at db after ws h soon long (inr (k, limit, pos, same)) =
      let (kept, grows, _) = script_step horizon at limit k db ws h soon long pos in
      (put k (admit redis.expired at limit window_ms (ws k)).0 ws, rw same kept, grows)

  -- A request that the quota admits had room in the window of its key, and counts one there.
  pub admitted_step :
      (durable : Bool) (horizon at limit : ℕ) (k : String) (before after : Db) (allowed ttl : ℕ)
      (ws : Windows)
      → IsWindowed horizon at before ws
      → at < horizon
      → horizon ≤ at + window_ms
      → 0 < limit
      → consume redis durable at k limit window_ms before ≡ (after, some (allowed, ttl))
      → 0 < allowed
      → (ws' : Windows) × IsWindowed horizon at after ws'
        × (used (ws k) < limit)
        × (used (ws' k) ≡ used (ws k) + 1)
  unfolding consume Agrees AllHold
  admitted_step false horizon at limit k before after allowed ttl ws h soon long pos run one =
      absurd (ground arith)
  admitted_step true horizon at limit k before after allowed ttl ws h soon long pos run one =
      let (kept, grows, room) = script_step horizon at limit k before ws h soon long pos in
      let (agrees, _) = script-Agrees redis at k limit window_ms before (ws k) (h.holds k) in
      let step = admit redis.expired at limit window_ms (ws k) in
      let told : ◌≡◌ {A = Option (ℕ × ℕ)} (some (allowed, ttl)) (some step.1) =
        sym (ap (λ x. x.1) run) ∙ agrees in
      let first : allowed ≡ step.1.0 = ap (λ x. x.0) (some-injective (allowed, ttl) step.1 told) in
      let (less, more) = room (rw (← first) one) in
      (put k step.0 ws, rw (← ap (λ x. x.0) run) kept, less, more)
