-- ===== src/Admission/Limit.antt =====
-- How many requests of an application the API serves in one window.
use mathlib.Core.Option.{some-injective}
use cesar_core.Base.{
  ℕ, ◌+◌, ◌-◌, ◌<◌, ◌≤◌, String, ◌≡◌, refl, sym, ap, ◌∙◌, Bool, true, false, ◌&&◌, Option, none,
  some, List, [], ◌∷◌, ◌==◌, arith, Bool-cases, inl, inr, eq_iff, if◌then◌else◌, All,
}
use cesar_core.ControlPlane.Registry.{Capability, cap_eq, get_quota}
use cesar_core.ControlPlane.Registry.Tables.{cap_eq_iff}
use cesar_core.ControlPlane.Token.{Bytes}
use cesar_core.ControlPlane.Credentials.{Store}
use cesar_core.ControlPlane.Rollups.{Row}
use cesar_core.Security.Authentication.{denied, granted_to}
use cesar_core.Security.Authorization.{quota_key}
use cesar_core.Security.Quota.{Redis}
use cesar_core.Security.Quota.Window.{Windows}
use cesar_core.Security.Quota.Keys.{Holds}
use cesar_core.Security.Quota.Laws.{AllHold}
use cesar_core.Gateway.Terms.{Context, Sent}
use cesar_core.Admission.{
  Incoming, Settings, World, Response, refused, crashed, handled, identify, serve,
}
use cesar_core.Admission.Laws.{serve-IsServed}
use cesar_core.Admission.Counters.{used, Counts, serve-Counts}
use cesar_core.Admission.Windowed.{
  window_ms, IsWindowed, IsWindowed-later, Counts-step, admitted_step,
}

-- A request with its route.
pub record Call : Type 1 where
  pub Answer : Type 0
  pub Body : Type 0
  pub handler : Context → Body → List Row → List Row × Sent Answer
  pub capability : Capability
  pub invalid : ℕ
  pub incoming : Incoming
  pub body : Option Body

abbrev pub is_handled : {Answer : Type 0} → Response Answer → Bool
is_handled (refused status headers) = false
is_handled crashed = false
is_handled (handled sent) = true

-- The times of the requests are in their order, from some time on.
unfoldable pub InOrder : ℕ → List Call → Type 1
InOrder now [] = Unit
InOrder now (k ∷ ks) = (now ≤ k.incoming.at) × InOrder k.incoming.at ks

module _ {Db : Type 0} (redis : Redis Db) (utf8 : String → Bytes)
    (hmac_sha256 : Bytes → Bytes → Bytes) (hex_tail : Bytes → String) (settings : Settings) where
  unfoldable pub run_call : (k : Call) → World Db → World Db × Response k.Answer
  run_call k w =
      serve redis utf8 hmac_sha256 hex_tail k.handler settings k.capability k.invalid k.incoming
        k.body w

  -- Whether a request comes from an application, for a capability.
  abbrev pub is_for : String → Capability → Store → Call → Bool
  is_for id c s k = elim (identify redis utf8 hmac_sha256 hex_tail settings k.incoming s) [
    | denied d ↦ false
    | granted_to j ↦ j == id && cap_eq k.capability c
  ]

  -- How many of some requests, in their order, are of an application and a capability, and reach the
  -- handler of their route.
  unfoldable pub served : String → Capability → List Call → World Db → ℕ
  served id c [] w = 0
  served id c (k ∷ ks) w =
      let result = run_call k w in
      (if is_for id c w.store k && is_handled result.1 then 1 else 0) + served id c ks result.0

is_handled-cases :
    {Answer : Type 0} (r : Response Answer)
    → is_handled r ≡ true
    → (sent : Sent Answer) × (r ≡ handled sent)
is_handled-cases (handled sent) h = (sent, refl)
is_handled-cases (refused status headers) h = cc
is_handled-cases crashed h = cc

module _ {Db : Type 0} (redis : Redis Db) (utf8 : String → Bytes)
    (hmac_sha256 : Bytes → Bytes → Bytes) (hex_tail : Bytes → String) (settings : Settings) where
  is_for-identity :
      (id : String) (c : Capability) (s : Store) (k : Call) (j : String)
      → is_for redis utf8 hmac_sha256 hex_tail settings id c s k ≡ true
      → identify redis utf8 hmac_sha256 hex_tail settings k.incoming s ≡ granted_to j
      → (j ≡ id) × (k.capability ≡ c)
  is_for-identity id c s k j h e =
      let tests : (j == id && cap_eq k.capability c) ≡ true =
        sym (
          ap (λ x. elim x [ denied d ↦ false | granted_to i ↦ i == id && cap_eq k.capability c ]) e)
        ∙ h in
      (ground (arith, eq_iff j id), ground (arith, cap_eq_iff k.capability c))

  run_call-Counts :
      (k : Call) (w : World Db)
      → Counts redis k.incoming.at w.counters
          (run_call redis utf8 hmac_sha256 hex_tail settings k w).0.counters
        × ((run_call redis utf8 hmac_sha256 hex_tail settings k w).0.store ≡ w.store)
  unfolding run_call
  run_call-Counts k w =
      serve-Counts redis utf8 hmac_sha256 hex_tail k.handler settings k.capability k.invalid
        k.incoming k.body w

  -- A served request of an application and a capability.
  served_step :
      (id : String) (c : Capability) (limit horizon : ℕ) (k : Call) (w : World Db) (ws : Windows)
      → get_quota id c w.store.registry.policies ≡ some limit
      → IsWindowed redis horizon k.incoming.at w.counters ws
      → k.incoming.at < horizon
      → horizon ≤ k.incoming.at + window_ms
      → (is_for redis utf8 hmac_sha256 hex_tail settings id c w.store k
          && is_handled (run_call redis utf8 hmac_sha256 hex_tail settings k w).1)
        ≡ true
      → (ws' : Windows) × IsWindowed redis horizon k.incoming.at
          (run_call redis utf8 hmac_sha256 hex_tail settings k w).0.counters
          ws'
        × (used (ws (quota_key settings.quota_namespace id c)) < limit)
        × (used (ws' (quota_key settings.quota_namespace id c))
            ≡ used (ws (quota_key settings.quota_namespace id c)) + 1)
  unfolding run_call
  served_step id c limit horizon k w ws quota h soon long both =
      let result = run_call redis utf8 hmac_sha256 hex_tail settings k w in
      let (sent, answered) = is_handled-cases result.1 (ground arith) in
      let one =
        serve-IsServed redis utf8 hmac_sha256 hex_tail k.handler settings k.capability k.invalid
          k.incoming k.body w result.0 sent (ap (λ r. (result.0, r)) answered) in
      let (same_id, same_capability) =
        is_for-identity id c w.store k one.id (ground arith) one.identity in
      let whole = one.within in
      let within_limit : ◌≡◌ {A = Option ℕ} (some whole.limit) (some limit) =
        sym whole.quota ∙ rw (same_id, same_capability) quota in
      let same_limit : whole.limit ≡ limit = some-injective whole.limit limit within_limit in
      admitted_step redis settings.durable horizon k.incoming.at limit
        (quota_key settings.quota_namespace id c) w.counters result.0.counters whole.allowed
        whole.ttl ws h soon long (rw (← same_limit) whole.positive)
        (rw (← same_id, ← same_capability, ← same_limit) whole.counted) whole.admitted

  -- The requests that are served, and the requests that the window has counted, are at most the limit.
  served_bound :
      (id : String) (c : Capability) (limit horizon now : ℕ) (ks : List Call) (w : World Db)
      (ws : Windows)
      → get_quota id c w.store.registry.policies ≡ some limit
      → IsWindowed redis horizon now w.counters ws
      → InOrder now ks
      → All (λ k. k.incoming.at < horizon) ks
      → horizon ≤ now + window_ms
      → served redis utf8 hmac_sha256 hex_tail settings id c ks w
        ≤ limit - used (ws (quota_key settings.quota_namespace id c))
  unfolding served InOrder
  served_bound id c limit horizon now [] w ws quota h order soon long = omega arith
  served_bound id c limit horizon now (k ∷ ks) w ws quota h (le, order) (soon, later) long =
      let key = quota_key settings.quota_namespace id c in
      let result = run_call redis utf8 hmac_sha256 hex_tail settings k w in
      let at_call = IsWindowed-later redis horizon now k.incoming.at w.counters ws le h in
      let still : horizon ≤ k.incoming.at + window_ms = omega (arith, le, long) in
      let (counts, store) = run_call-Counts k w in
      let kept : get_quota id c result.0.store.registry.policies ≡ some limit = rw store quota in
      elim (Bool-cases
        (is_for redis utf8 hmac_sha256 hex_tail settings id c w.store k && is_handled result.1)) [
          | inl both ↦
              let (ws', windowed, room, more) =
                served_step id c limit horizon k w ws quota at_call soon still both in
              let rest =
                served_bound id c limit horizon k.incoming.at ks result.0 ws' kept windowed order
                  later still in
              rw both (omega (arith, rest, room, more))
          | inr other ↦
              let (ws', windowed, grows) =
                Counts-step redis horizon k.incoming.at w.counters result.0.counters ws at_call soon
                  still counts in
              let rest =
                served_bound id c limit horizon k.incoming.at ks result.0 ws' kept windowed order
                  later still in
              rw other (omega (arith, rest, grows key))
        ]

  -- From counters without keys, of requests in the order of their times, all within the sixty seconds
  -- after some time, of any applications and for any capabilities, at most the limit of an application
  -- for a capability reach the handler of their route.
  pub served-limit :
      (id : String) (c : Capability) (limit start : ℕ) (ks : List Call) (w : World Db)
      → get_quota id c w.store.registry.policies ≡ some limit
      → ((at : ℕ) (k : String) → redis.get at k w.counters ≡ none)
      → InOrder start ks
      → All (λ k. k.incoming.at < start + window_ms) ks
      → served redis utf8 hmac_sha256 hex_tail settings id c ks w ≤ limit
  unfolding AllHold Holds
  served-limit id c limit start ks w quota clear order soon =
      let fresh : IsWindowed redis (start + window_ms) start w.counters (λ k. none) = record {
        holds = λ k at le. clear at k;
        ends = λ k. tt;
      } in
      omega (
        arith,
        served_bound id c limit (start + window_ms) start ks w (λ k. none) quota fresh order soon
            (omega arith),
      )
