-- ===== src/Admission/Passed.antt =====
-- What the checks of a request in api/deps.py, and the handler of its route, have found where they
-- pass.
use mathlib.Core.Option.{some-injective}
use cesar_core.Base.{
  ℕ, ◌*◌, ◌<◌, String, ◌≡◌, ◌≢◌, refl, ap, ◌∙◌, true, false, Option, none, some, List, arith,
  Option-cases, Bool-cases, inl, inr, ltb,
}
use cesar_core.ControlPlane.Registry.{Capability, Registry, granted, get_quota}
use cesar_core.ControlPlane.Rollups.{Row}
use cesar_core.Security.Authentication.{is_active}
use cesar_core.Security.Authorization.{
  Verdict, passed, allows_capability, authorize_capability, quota_key, answered, check,
  authorized_context,
}
use cesar_core.Gateway.Terms.{Context, Sent}
use cesar_core.Admission.{
  Incoming, World, handled, refused_verdict, context_of, both_headers, handle, proceed,
}

module _ {Db : Type 0} (counts : String → ℕ → ℕ → Db → Db × Option (ℕ × ℕ)) where
  -- What the checks of an identity have found where they pass.
  pub record IsWithin (namespace : String) (window : ℕ) (id : String) (c : Capability)
      (r : Registry) (before after : Db) : Type 0 where
    pub on : is_active id r ≡ some true
    pub has : granted id c r.grants ≡ true
    pub limit : ℕ
    pub quota : get_quota id c r.policies ≡ some limit
    pub positive : 0 < limit
    pub allowed : ℕ
    pub ttl : ℕ
    pub counted :
        counts (quota_key namespace id c) limit (window * 1000) before
        ≡ (after, some (allowed, ttl))
    pub admitted : 0 < allowed

  allows-on :
      (id : String) (c : Capability) (r : Registry)
      → authorize_capability id c r ≡ none
      → (is_active id r ≡ some true) × (granted id c r.grants ≡ true)
  unfolding authorize_capability allows_capability
  allows-on id c r h = elim (Option-cases (is_active id r)) [
    | inl e ↦ absurd (ground arith)
    | inr (on, e) ↦ (ground arith, ground arith)
  ]

  never_passed :
      (id : String) (c : Capability) (r : Registry) → authorize_capability id c r ≢ some passed
  unfolding authorize_capability
  never_passed id c r h = elim (Option-cases (allows_capability id c r)) [
    | inl e ↦ ground arith
    | inr (true, e) ↦ ground arith
    | inr (false, e) ↦ ground arith
  ]

  answered-passed :
      (o : Option (ℕ × ℕ)) → answered o ≡ passed → (n ttl : ℕ) × (o ≡ some (n, ttl)) × (0 < n)
  unfolding answered
  answered-passed none h = absurd (ground arith)
  answered-passed (some (n, ttl)) h = (n, ttl, refl, ground arith)

  check-passed :
      (namespace : String) (window : ℕ) (id : String) (c : Capability) (limit : ℕ)
      (before after : Db)
      → check counts namespace window id c limit before ≡ (after, passed)
      → (0 < limit)
        × ((n ttl : ℕ) × (counts (quota_key namespace id c) limit (window * 1000) before
              ≡ (after, some (n, ttl)))
            × (0 < n))
  unfolding check
  check-passed namespace window id c limit before after h = elim (Bool-cases (ltb limit 1)) [
    | inl e ↦ absurd (ground arith)
    | inr e ↦
        let run = counts (quota_key namespace id c) limit (window * 1000) before in
        let told : answered run.1 ≡ passed = ground arith in
        let (n, ttl, same, pos) = answered-passed run.1 told in
        (ground arith, (n, ttl, ground (arith, same), pos))
  ]

  pub authorized-passed :
      (namespace : String) (window : ℕ) (id : String) (c : Capability) (r : Registry)
      (before after : Db)
      → authorized_context counts namespace window id c r before ≡ (after, passed)
      → IsWithin namespace window id c r before after
  unfolding authorized_context
  authorized-passed namespace window id c r before after h =
      elim (Option-cases (authorize_capability id c r)) [
        | inr (v, e) ↦ absurd (ground (arith, never_passed id c r))
        | inl e ↦ elim (Option-cases (get_quota id c r.policies)) [
          | inl q ↦ absurd (ground arith)
          | inr (limit, q) ↦
              let (on, has) = allows-on id c r e in
              let (pos, (n, ttl, run, counted)) =
                check-passed namespace window id c limit before after (ground arith) in
              record {
                on = on;
                has = has;
                limit = limit;
                quota = q;
                positive = pos;
                allowed = n;
                ttl = ttl;
                counted = run;
                admitted = counted;
              }
        ]
      ]

module _ {Answer Body : Type 0} (handler : Context → Body → List Row → List Row × Sent Answer) where
  -- The handler ran on a context of the identity, with the texts of the headers and a valid body.
  pub record IsHandled {Db : Type 0} (i : Incoming) (id : String) (body : Option Body)
      (w w' : World Db) (sent : Sent Answer) : Type 0 where
    pub service : String
    pub purpose : String
    pub context : Context
    pub given : Body
    pub headers : both_headers i ≡ some (service, purpose)
    pub made : context_of i id service purpose ≡ some context
    pub valid : body ≡ some given
    pub ran : handler context given w.rows ≡ (w'.rows, sent)
    pub kept : w'.store ≡ w.store

  handle-handled :
      {Db : Type 0} (invalid : ℕ) (o : Option Context) (body : Option Body) (w w' : World Db)
      (sent : Sent Answer)
      → handle handler invalid o body w ≡ (w', handled sent)
      → (context : Context) × (given : Body) × (o ≡ some context)
        × (body ≡ some given)
        × (handler context given w.rows ≡ (w'.rows, sent))
        × (w'.store ≡ w.store)
        × (w'.counters ≡ w.counters)
  unfolding handle
  handle-handled invalid none body w w' sent h = absurd (ground arith)
  handle-handled invalid (some context) none w w' sent h = absurd (ground arith)
  handle-handled invalid (some context) (some given) w w' sent h =
      (context, given, refl, refl, ground arith, ground arith, ground arith)

  verdict_passed : (v : Verdict) → refused_verdict {Answer = Answer} v ≡ none → v ≡ passed
  unfolding refused_verdict
  verdict_passed v h = ground arith

  never_handled : (v : Verdict) (sent : Sent Answer) → refused_verdict v ≢ some (handled sent)
  unfolding refused_verdict
  never_handled v sent h = ground arith

  pub proceed-handled :
      {Db : Type 0} (invalid : ℕ) (i : Incoming) (id service purpose : String) (body : Option Body)
      (w w' : World Db) (db : Db) (v : Verdict) (sent : Sent Answer)
      → both_headers i ≡ some (service, purpose)
      → proceed handler invalid i id (service, purpose) body w (db, v) ≡ (w', handled sent)
      → IsHandled i id body w w' sent × (v ≡ passed) × (w'.counters ≡ db)
  unfolding proceed
  proceed-handled invalid i id service purpose body w w' db v sent texts h =
      elim (Option-cases (refused_verdict {Answer = Answer} v)) [
        | inr (response, e) ↦ absurd (ground (arith, never_handled v sent))
        | inl e ↦
            let (context, given, made, valid, ran, kept, counters) =
              handle-handled invalid (context_of i id service purpose) body
                (record w { counters = db }) w' sent (ground arith) in
            (
              record {
                service = service;
                purpose = purpose;
                context = context;
                given = given;
                headers = texts;
                made = made;
                valid = valid;
                ran = ran;
                kept = kept;
              },
              verdict_passed v e,
              counters,
            )
      ]

pub context_of-id :
    (i : Incoming) (id service purpose : String) (context : Context)
    → context_of i id service purpose ≡ some context
    → context.application_id ≡ id
unfolding context_of
context_of-id i id service purpose context h = ground arith

-- The context that the handler ran on.
pub context-made :
    {Answer Body : Type 0} (handler : Context → Body → List Row → List Row × Sent Answer)
    {Db : Type 0} (i : Incoming) (id : String) (body : Body) (w w' : World Db) (sent : Sent Answer)
    → IsHandled handler i id (some body) w w' sent
    → (context : Context) × (context.application_id ≡ id)
      × (handler context body w.rows ≡ (w'.rows, sent))
context-made handler i id body w w' sent h = (
  h.context,
  context_of-id i id h.service h.purpose h.context h.made,
  ap (λ b. handler h.context b w.rows) (some-injective body h.given h.valid) ∙ h.ran,
)
