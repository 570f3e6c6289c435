-- ===== src/Gateway/Ai/Answered.antt =====
-- What an answered request of AI has passed, through all the parts of the gateway.
use cesar_core.Base.{ℕ, ◌≤◌, String, ◌≡◌, ap, Option, none, some, List, arith}
use cesar_core.ControlPlane.Registry.{Registry, Listed}
use cesar_core.ControlPlane.Token.{File}
use cesar_core.ControlPlane.Rollups.{Row, record_usage}
use cesar_core.Gateway.Json.{Json}
use cesar_core.Gateway.Omniroute.{Reply}
use cesar_core.Gateway.Terms.{
  chained, Sent, answer, detail, internal_error, Outcome, raised, returned,
}
use cesar_core.Gateway.Ai.{Request, Target, Failure, resolve}
use cesar_core.Gateway.Ai.Rules.{Config, Rules, ai_rules}
use cesar_core.Gateway.Ai.Resolved.{IsAllowed, resolve-ai_rules_iff}
use cesar_core.Gateway.Ai.Usage.{completion_of}
use cesar_core.Gateway.Ai.Grounding.{Payload}
use cesar_core.Gateway.Ai.Provider.{Answer, complete, generate}
use cesar_core.Gateway.Ai.Budget.{capped}
use cesar_core.Gateway.Ai.Route.{success_use, error_response, refuse, respond, generate_ai}

-- The answer that is sent, if any.
sent_answer : List Row × Sent Answer → Option Answer
sent_answer (rows, answer a) = some a
sent_answer (rows, detail status code request_id correlation_id id) = none
sent_answer (rows, internal_error) = none

refuse-answer :
    (now : ℕ) (request : Request) (rows : List Row) (failure : Failure)
    → sent_answer (refuse now request.context rows failure) ≡ none
unfolding sent_answer refuse error_response
refuse-answer now request rows failure = ground arith

responded :
    (now : ℕ) (request : Request) (rows last : List Row) (o : Outcome Failure Answer) (a : Answer)
    → respond now request.context rows o ≡ (last, answer a)
    → (o ≡ returned a) × (last ≡ record_usage (success_use now request.context a) rows)
unfolding respond sent_answer
responded now request rows last (raised failure) a h =
    absurd (ground (arith, refuse-answer now request rows failure, ap sent_answer h))
responded now request rows last (returned b) a h = (ground arith, ground arith)

module _ (loads : String → Option Json) (key_file : File String)
    (network_first network_second : Payload → Reply) where
  generated :
      (r : Registry) (rules : Rules) (request : Request) (a : Answer)
      → generate loads key_file network_first network_second r rules request ≡ returned a
      → (t : Target) × (resolve r rules request ≡ returned t)
        × (complete loads key_file network_first network_second request t ≡ returned a)
  unfolding generate
  generated r rules request a h = chained (resolve r rules request) _ h

  -- The API answers a request of AI that sets a limit on its tokens only where the configuration,
  -- the tables and the policy allow it for some target; the answer then reports a use of at most
  -- that limit, and the call is recorded as one success of the application.
  pub answered-IsAllowed :
      (c : Config) (as_ : List Listed) (r : Registry) (now : ℕ) (request : Request)
      (rows last : List Row) (a : Answer) (limit : ℕ)
      → generate_ai loads key_file network_first network_second now r (ai_rules c as_) request rows
        ≡ (last, answer a)
      → request.max_tokens ≡ some limit
      → ((t : Target) × IsAllowed c as_ r request t)
        × ((n : ℕ) × (completion_of a.usage ≡ some n) × (n ≤ limit))
        × (last ≡ record_usage (success_use now request.context a) rows)
  unfolding generate_ai
  answered-IsAllowed c as_ r now request rows last a limit h e =
      let (ran, kept) = responded now request rows last _ a h in
      let (t, found, done) = generated r (ai_rules c as_) request a ran in
      (
        (t, (resolve-ai_rules_iff c as_ r request t).0 found),
        capped loads key_file network_first network_second request t a limit done e,
        kept,
      )
