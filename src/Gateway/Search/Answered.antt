-- ===== src/Gateway/Search/Answered.antt =====
-- An answered request of search, from the configuration to the rollup.
use cesar_core.Base.{
  ℕ, zero, suc, ◌≤◌, String, ◌≡◌, sym, ap, ◌∙◌, true, false, ◌&&◌, Option, none, some, List, [],
  ◌∷◌, arith, length, includes, Option-cases, inl, inr, ◌==◌,
}
use cesar_core.ControlPlane.Registry.{Registry, Listed, search}
use cesar_core.ControlPlane.Token.{File}
use cesar_core.ControlPlane.Rollups.{Row, record_usage}
use cesar_core.Security.Authentication.{is_active}
use cesar_core.Gateway.Omniroute.{Reply}
use cesar_core.Gateway.Terms.{
  Sent, answer, detail, internal_error, Outcome, raised, returned, chained, is_free_only, Context,
}
use cesar_core.Gateway.Services.{ServiceRules, active_with, find_rule, if-offer}
use cesar_core.Gateway.Search.{
  Config, Request, Target, Failure, provider_for, documentation_provider, is_configured, target_for,
  technical_documentation, search_rules, resolve,
}
use cesar_core.Gateway.Search.Provider.{Payload, Answer, first_results, search_web, manage}
use cesar_core.Gateway.Search.Values.{Result}
use cesar_core.Gateway.Search.Route.{success_use, error_response, refuse, respond, search_route}
use cesar_core.Gateway.Search.Laws.{picked, find_rule-search_rules}

-- The conditions of a search.
pub record IsAllowed (c : Config) (as_ : List Listed) (r : Registry) (request : Request)
    : Type 0 where
  pub configured : is_configured c ≡ true
  pub listed : includes (active_with search as_) request.context.application_id ≡ true
  pub is_on : is_active request.context.application_id r ≡ some true
  pub provider : String
  pub chosen :
      picked
        (technical_documentation == request.context.purpose)
        (documentation_provider c)
        (provider_for c request.requirements.service_class)
      ≡ some provider
  pub free : (is_free_only request.requirements.cost_policy && c.provider_is_paid) ≡ false
  pub within : request.max_results ≤ c.max_results_limit

resolved :
    (r : Registry) (rules : ServiceRules Target) (request : Request) (t : Target)
    → resolve r rules request ≡ returned t
    → (is_active request.context.application_id r ≡ some true)
      × ((find_rule rules request.context request.requirements ≡ some t)
          × (((is_free_only request.requirements.cost_policy && t.paid) ≡ false)
              × (request.max_results ≤ t.max_results_limit)))
unfolding resolve
resolved r rules request t h =
    elim (Option-cases (find_rule rules request.context request.requirements)) [
      | inl e ↦ absurd (ground arith)
      | inr (target, e) ↦ (ground arith, (ground arith, (ground arith, ground arith)))
    ]

resolve-IsAllowed :
    (c : Config) (as_ : List Listed) (r : Registry) (request : Request) (t : Target)
    → resolve r (search_rules c as_) request ≡ returned t
    → IsAllowed c as_ r request
resolve-IsAllowed c as_ r request t h =
    let (is_on, (found, (free, within))) = resolved r (search_rules c as_) request t h in
    let (tests, (provider, chosen, same)) =
      if-offer (is_configured c && includes (active_with search as_) request.context.application_id)
        (target_for c)
        (picked (technical_documentation == request.context.purpose) (documentation_provider c)
          (provider_for c request.requirements.service_class))
        t (sym (find_rule-search_rules c as_ request.context request.requirements) ∙ found) in
    let limit : c.max_results_limit ≡ t.max_results_limit =
      ap (λ (x : Target). x.max_results_limit) same in
    record {
      configured = ground (arith, tests);
      listed = ground (arith, tests);
      is_on = is_on;
      provider = provider;
      chosen = chosen;
      free =
          ap (λ (x : Target). is_free_only request.requirements.cost_policy && x.paid) same ∙ free;
      within = ground (arith, within, limit);
    }

first_results-length : (n : ℕ) (rs : List Result) → length (first_results n rs) ≤ n
unfolding first_results
first_results-length zero rs = omega arith
first_results-length (suc n) [] = omega arith
first_results-length (suc n) (r ∷ rs) = ground (arith, first_results-length n rs)

-- The answer that is sent, if any.
sent_answer : List Row × Sent Answer → Option Answer
sent_answer (rows, answer a) = some a
sent_answer (rows, detail status code request_id correlation_id id) = none
sent_answer (rows, internal_error) = none

refuse-answer :
    (now : ℕ) (context : Context) (rows : List Row) (failure : Failure)
    → sent_answer (refuse now context rows failure) ≡ none
unfolding sent_answer refuse error_response
refuse-answer now context rows failure = ground arith

responded :
    (now : ℕ) (context : Context) (rows last : List Row) (o : Outcome Failure Answer) (a : Answer)
    → respond now context rows o ≡ (last, answer a)
    → (o ≡ returned a) × (last ≡ record_usage (success_use now context a) rows)
unfolding respond sent_answer
responded now context rows last (raised failure) a h =
    absurd (ground (arith, refuse-answer now context rows failure, ap sent_answer h))
responded now context rows last (returned b) a h = (ground arith, ground arith)

same_answer : (a b : Answer) → ◌≡◌ {A = Outcome Failure Answer} (returned a) (returned b) → a ≡ b
same_answer a b h = ground (arith, h)

module _ (key_file : File String) (network : Payload → Reply) where
  managed :
      (r : Registry) (rules : ServiceRules Target) (request : Request) (a : Answer)
      → manage key_file network r rules request ≡ returned a
      → (t : Target) × (resolve r rules request ≡ returned t)
        × (length a.results ≤ request.max_results)
  unfolding manage
  managed r rules request a h =
      let (t, found, h₁) = chained (resolve r rules request) _ h in
      let (b, _, h₂) = chained (search_web key_file network request t) _ h₁ in
      let same : record b { results = first_results request.max_results b.results } ≡ a =
        same_answer _ a h₂ in
      (t, found, rw (← same) (first_results-length request.max_results b.results))

  -- The API answers a search only where the configuration, the tables and the policy allow it, by the
  -- documentation provider for its purpose or by that of its class; it gives at most as many results
  -- as were asked for; and the call is recorded as one success of the application.
  pub searched-IsAllowed :
      (c : Config) (as_ : List Listed) (r : Registry) (now : ℕ) (request : Request)
      (rows last : List Row) (a : Answer)
      → search_route key_file network now r (search_rules c as_) request rows ≡ (last, answer a)
      → IsAllowed c as_ r request
        × (length a.results ≤ request.max_results)
        × (last ≡ record_usage (success_use now request.context a) rows)
  unfolding search_route
  searched-IsAllowed c as_ r now request rows last a h =
      let (ran, kept) = responded now request.context rows last _ a h in
      let (t, found, short) = managed r (search_rules c as_) request a ran in
      (resolve-IsAllowed c as_ r request t found, short, kept)
