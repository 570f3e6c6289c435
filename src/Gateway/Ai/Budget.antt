-- ===== src/Gateway/Ai/Budget.antt =====
-- The limit on the tokens of a completion, through the one or two calls of a request.
use cesar_core.Base.{
  ℕ, ◌-◌, ◌≤◌, String, ◌≡◌, refl, ap, sym, Bool, true, false, Option, none, some, List, [], arith,
  if◌then◌else◌, Bool-cases, Option-cases, inl, inr,
}
use cesar_core.ControlPlane.Token.{File}
use cesar_core.Gateway.Json.{Json, Fields, member, at_key}
use cesar_core.Gateway.Omniroute.{Reply, Response, Error}
use cesar_core.Gateway.Omniroute
use cesar_core.Gateway.Terms.{chained, Outcome, raised, returned}
use cesar_core.Gateway.Ai.{Request, Target, Failure}
use cesar_core.Gateway.Ai.Usage.{
  Usage, normalize_usage, sum_usage, completion_of, verify_max_tokens,
}
use cesar_core.Gateway.Ai.Grounding.{
  Payload, needed, remaining, message_of, calls_of, list_of, tool_call_ids, hashed, complete_ids,
  some_sources, tool_results, grounded_followup,
}
use cesar_core.Gateway.Ai.Provider.{
  Answer, called, content_of, finish, first_payload, ground_and_finish, complete,
}

pub branch_true {ℓ} :
    {A : Type ℓ} (test : Bool) (x y : A) {z : A} → test ≡ true → (if test then x else y) ≡ z → x ≡ z
branch_true true x y t h = h
branch_true false x y t h = cc

pub branch_false {ℓ} :
    {A : Type ℓ} (test : Bool) (x y : A) {z : A}
    → test ≡ false
    → (if test then x else y) ≡ z
    → y ≡ z
branch_false true x y t h = cc
branch_false false x y t h = h

pub finish-usage :
    (request : Request) (target : Target) (first : Option Usage) (sources : List String)
    (response : Response) (a : Answer)
    → finish request target first sources response ≡ returned a
    → (a.usage ≡ sum_usage first (normalize_usage (member "usage" response.body)))
      × (verify_max_tokens request.max_tokens (completion_of a.usage) ≡ true)
unfolding finish
finish-usage request target first sources response a h =
    elim (Option-cases (content_of response.body)) [
      | inl e ↦ absurd (ground arith)
      | inr (content, e) ↦ (ground arith, ground arith)
    ]

verified :
    (limit : ℕ) (used : Option ℕ)
    → verify_max_tokens (some limit) used ≡ true
    → (n : ℕ) × (used ≡ some n) × (n ≤ limit)
unfolding verify_max_tokens
verified limit none h = absurd (ground arith)
verified limit (some n) h = (n, refl, ground arith)

remaining_left :
    (limit : ℕ) (used left : Option ℕ)
    → remaining (some limit) used ≡ returned left
    → (n : ℕ) × (used ≡ some n) × (left ≡ some (limit - n)) × (1 ≤ limit - n)
unfolding remaining
remaining_left limit none left h = absurd (ground arith)
remaining_left limit (some n) left h = (n, refl, ground arith, ground arith)

-- The limit of the payload of a value, and whether it asks for a search.
max_of : Outcome Failure (Payload × List String) → Option ℕ
max_of (raised failure) = none
max_of (returned (payload, sources)) = payload.max_tokens

searches : Outcome Failure (Payload × List String) → Bool
searches (raised failure) = false
searches (returned (payload, sources)) = payload.web_search

followup_sent :
    (loads : String → Option Json) (request : Request) (target : Target) (body : Fields)
    (usage : Option Usage) (payload : Payload) (sources : List String)
    → grounded_followup loads request target body usage ≡ returned (payload, sources)
    → (remaining request.max_tokens (completion_of usage) ≡ returned payload.max_tokens)
      × (payload.web_search ≡ false)
unfolding grounded_followup max_of searches
followup_sent loads request target body usage payload sources h =
    let (assistant, e₁, h₁) = chained (needed (message_of body)) _ h in
    let (calls, e₂, h₂) = chained (needed (calls_of (at_key "tool_calls" assistant))) _ h₁ in
    let (results, e₃, h₃) = chained (needed (list_of (member "tool_results" body))) _ h₂ in
    let (ids, e₄, h₄) = chained (hashed (tool_call_ids calls)) _ h₃ in
    let (known, e₅, h₅) = chained (complete_ids ids) _ h₄ in
    let (found, e₆, h₆) = chained (tool_results loads known results) _ h₅ in
    let (kept, e₇, h₇) = chained (some_sources found.0) _ h₆ in
    let (left, e₈, h₈) = chained (remaining request.max_tokens (completion_of usage)) _ h₇ in
    let same : left ≡ payload.max_tokens = ap max_of h₈ in (rw (← same) e₈, ap searches (sym h₈))

module _ (loads : String → Option Json) (key_file : File String)
    (network_first network_second : Payload → Reply) where
  -- The parts of the second call.
  grounded :
      (request : Request) (target : Target) (first : Response) (a : Answer)
      → ground_and_finish loads key_file network_first network_second request target first
        ≡ returned a
      → (payload : Payload) × (sources : List String) × (last : Response) × (grounded_followup loads
            request target first.body
            (normalize_usage (member "usage" first.body))
          ≡ returned (payload, sources))
        × (called (Omniroute.request key_file (network_second payload)) ≡ returned last)
        × (finish request target (normalize_usage (member "usage" first.body)) sources last
            ≡ returned a)
  unfolding ground_and_finish
  grounded request target first a h =
      let usage = normalize_usage (member "usage" first.body) in
      let (followup, e₁, h₁) =
        chained (grounded_followup loads request target first.body usage) _ h in
      let (last, e₂, h₂) =
        chained (called (Omniroute.request key_file (network_second followup.0))) _ h₁ in
      (followup.0, followup.1, last, e₁, e₂, h₂)

  parts :
      (request : Request) (target : Target) (a : Answer)
      → complete loads key_file network_first network_second request target ≡ returned a
      → (first : Response) × (called
            (Omniroute.request key_file (network_first (first_payload request target)))
          ≡ returned first)
        × ((if request.require_search_grounding
              then ground_and_finish loads key_file network_first network_second request target
                  first
              else finish request target none [] first)
            ≡ returned a)
  unfolding complete
  parts request target a h =
      chained (called (Omniroute.request key_file (network_first (first_payload request target)))) _
        h

  -- A request with a limit is answered only where the answer reports a use, of at most that limit.
  pub capped :
      (request : Request) (target : Target) (a : Answer) (limit : ℕ)
      → complete loads key_file network_first network_second request target ≡ returned a
      → request.max_tokens ≡ some limit
      → (n : ℕ) × (completion_of a.usage ≡ some n) × (n ≤ limit)
  capped request target a limit h e =
      let (first, _, h₁) = parts request target a h in
      verified limit (completion_of a.usage) (elim (Bool-cases request.require_search_grounding) [
        | inl t ↦
            let (_, sources, last, _, _, h₂) =
              grounded request target first a
                (branch_true request.require_search_grounding _ _ t h₁) in
            rw (← e) (finish-usage request target _ sources last a h₂).1
        | inr t ↦
            rw (← e)
              (finish-usage request target none [] first a
                (branch_false request.require_search_grounding _ _ t h₁)).1
      ])

  -- Where an answered request with a limit asks for a search, its first call reported a use. The
  -- payload that the second call sends carries a limit of exactly what that use left, at least one
  -- token, and it asks for no search; the answer is made from the response to that second call.
  pub grounded_budget :
      (request : Request) (target : Target) (a : Answer) (limit : ℕ)
      → complete loads key_file network_first network_second request target ≡ returned a
      → request.max_tokens ≡ some limit
      → request.require_search_grounding ≡ true
      → (first : Response) × (payload : Payload) × (sources : List String) × (used : ℕ) × (called
            (Omniroute.request key_file (network_first (first_payload request target)))
          ≡ returned first)
        × (grounded_followup loads request target first.body
              (normalize_usage (member "usage" first.body))
            ≡ returned (payload, sources))
        × (completion_of (normalize_usage (member "usage" first.body)) ≡ some used)
        × (payload.max_tokens ≡ some (limit - used))
        × (1 ≤ limit - used)
        × (payload.web_search ≡ false)
        × ((last : Response) × (called (Omniroute.request key_file (network_second payload))
              ≡ returned last)
            × (finish request target (normalize_usage (member "usage" first.body)) sources last
                ≡ returned a))
  grounded_budget request target a limit h e t =
      let (first, e₁, h₁) = parts request target a h in
      let (payload, sources, last, e₂, sent, h₂) =
        grounded request target first a (branch_true request.require_search_grounding _ _ t h₁) in
      let usage = normalize_usage (member "usage" first.body) in
      let (kept, silent) = followup_sent loads request target first.body usage payload sources e₂ in
      let (used, e₃, e₄, e₅) =
        remaining_left limit (completion_of usage) payload.max_tokens (rw (← e) kept) in
      (first, payload, sources, used, e₁, e₂, e₃, e₄, e₅, silent, (last, sent, h₂))
