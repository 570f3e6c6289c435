-- ===== src/Gateway/Fetch/Answered.antt =====
-- An answered request of fetch, from the configuration to the rollup.
use cesar_core.Base.{
  ℕ, ◌≤◌, String, ◌≡◌, refl, sym, ap, ◌∙◌, Bool, true, false, ◌&&◌, Option, none, some, List, [],
  arith, includes, if◌then◌else◌, Bool-cases, Option-cases, inl, inr, ◌==◌,
}
use cesar_core.ControlPlane.Registry.{Registry, Listed, fetch}
use cesar_core.ControlPlane.Token.{File}
use cesar_core.ControlPlane.Rollups.{Row, record_usage}
use cesar_core.Security.Authentication.{is_active}
use cesar_core.Gateway.Omniroute.{Reply, Response}
use cesar_core.Gateway.Omniroute
use cesar_core.Gateway.Table.{get}
use cesar_core.Gateway.Terms.{
  Sent, answer, detail, internal_error, Outcome, raised, returned, chained, is_free_only, Context,
  Requirements,
}
use cesar_core.Gateway.Services.{
  service_key, ServiceRules, active_with, offer, classes-get, first_rule, find_rule, if-offer,
  key_for,
}
use cesar_core.Gateway.Fetch.{
  Config, Request, Target, Failure, provider_for, is_configured, target_for, fetch_rules, resolve,
}
use cesar_core.Gateway.Fetch.Url.{Library, accepts_target}
use cesar_core.Gateway.Fetch.Provider.{Payload, Answer, called, fetch_page, manage}
use cesar_core.Gateway.Fetch.Route.{success_use, error_response, refuse, respond, fetch_url}
use cesar_core.Gateway.Fetch.Laws.{IsSafe, accepts_target-IsSafe, length_of, envelope_bound}

-- The conditions of a fetch.
pub record IsAllowed (c : Config) (as_ : List Listed) (r : Registry) (request : Request)
    : Type 0 where
  pub configured : is_configured c ≡ true
  pub listed : includes (active_with fetch as_) request.context.application_id ≡ true
  pub is_on : is_active request.context.application_id r ≡ some true
  pub provider : String
  pub chosen : provider_for c request.requirements.service_class ≡ some provider
  pub free : (is_free_only request.requirements.cost_policy && c.provider_is_paid) ≡ false

joined :
    (known wild : Bool) (target : Option Target)
    → first_rule (if known && wild then target else none) (if known && true then target else none)
      ≡ (if known then target else none)
joined true true none = refl
joined true true (some t) = refl
joined true false target = refl
joined false wild target = refl

find_rule-fetch_rules :
    (c : Config) (as_ : List Listed) (context : Context) (requirements : Requirements)
    → find_rule (fetch_rules c as_) context requirements ≡ (
        if is_configured c && includes (active_with fetch as_) context.application_id
        then offer (target_for c) (provider_for c requirements.service_class) none
        else none)
unfolding fetch_rules find_rule get
find_rule-fetch_rules c as_ context requirements = elim (Bool-cases (is_configured c)) [
  | inl e ↦ rw e (
      rw
        (
          classes-get "*" (provider_for c) (target_for c) (active_with fetch as_)
              (key_for context requirements context.purpose) [],
          classes-get "*" (provider_for c) (target_for c) (active_with fetch as_)
              (key_for context requirements "*") [],
        )
        (joined (includes (active_with fetch as_) context.application_id) ("*" == context.purpose)
          (offer (target_for c) (provider_for c requirements.service_class) none)))
  | inr e ↦ rw e refl
]

resolved :
    (r : Registry) (rules : ServiceRules Target) (request : Request) (t : Target)
    → resolve r rules request ≡ returned t
    → (is_active request.context.application_id r ≡ some true)
      × ((find_rule rules request.context request.requirements ≡ some t)
          × ((is_free_only request.requirements.cost_policy && t.paid) ≡ false))
unfolding resolve
resolved r rules request t h =
    elim (Option-cases (find_rule rules request.context request.requirements)) [
      | inl e ↦ absurd (ground arith)
      | inr (target, e) ↦ (ground arith, (ground arith, ground arith))
    ]

resolve-IsAllowed :
    (c : Config) (as_ : List Listed) (r : Registry) (request : Request) (t : Target)
    → resolve r (fetch_rules c as_) request ≡ returned t
    → IsAllowed c as_ r request
resolve-IsAllowed c as_ r request t h =
    let (is_on, (found, free)) = resolved r (fetch_rules c as_) request t h in
    let (tests, (provider, chosen, same)) =
      if-offer (is_configured c && includes (active_with fetch as_) request.context.application_id)
        (target_for c) (provider_for c request.requirements.service_class) t
        (sym (find_rule-fetch_rules c as_ request.context request.requirements) ∙ found) in
    record {
      configured = ground (arith, tests);
      listed = ground (arith, tests);
      is_on = is_on;
      provider = provider;
      chosen = chosen;
      free =
          ap (λ (x : Target). is_free_only request.requirements.cost_policy && x.paid) same ∙ free;
    }

-- The answer that is sent, if any.
sent_answer : List Row × Sent Answer → Option Answer
sent_answer (rows, answer a) = some a
sent_answer (rows, detail status code request_id correlation_id id) = none
sent_answer (rows, internal_error) = none

refuse-answer :
    (now : ℕ) (context : Context) (rows : List Row) (failure : Failure)
    → sent_answer (refuse now context rows failure) ≡ none
unfolding sent_answer refuse error_response
refuse-answer now context rows failure = ground arith

responded :
    (now : ℕ) (context : Context) (rows last : List Row) (o : Outcome Failure Answer) (a : Answer)
    → respond now context rows o ≡ (last, answer a)
    → (o ≡ returned a) × (last ≡ record_usage (success_use now context a) rows)
unfolding respond sent_answer
responded now context rows last (raised failure) a h =
    absurd (ground (arith, refuse-answer now context rows failure, ap sent_answer h))
responded now context rows last (returned b) a h = (ground arith, ground arith)

module _ (library : Library) (key_file : File String) (network : Payload → Reply) where
  -- An answered fetch had an address that is safe, and passed on to the manager.
  guarded :
      (now limit : ℕ) (r : Registry) (rules : ServiceRules Target) (request : Request)
      (rows last : List Row) (a : Answer)
      → fetch_url library key_file network now limit r rules request rows ≡ (last, answer a)
      → (accepts_target library request.url ≡ true)
        × (respond now request.context rows (manage key_file network limit r rules request)
            ≡ (last, answer a))
  unfolding fetch_url error_response sent_answer
  guarded now limit r rules request rows last a h =
      elim (Bool-cases (accepts_target library request.url)) [
        | inl e ↦ (e, ground arith)
        | inr e ↦ absurd (ground (arith, ap sent_answer h))
      ]

  -- The API answers a fetch only where the address is safe, and the configuration, the tables and the
  -- policy allow it; the content is at most as long as the configured limit; and the call is recorded
  -- as one success of the application.
  pub fetched-IsSafe :
      (c : Config) (as_ : List Listed) (r : Registry) (now : ℕ) (request : Request)
      (rows last : List Row) (a : Answer)
      → fetch_url library key_file network now c.max_content_length r
          (fetch_rules c as_)
          request
          rows
        ≡ (last, answer a)
      → IsSafe library request.url
        × IsAllowed c as_ r request
        × (length_of a.content ≤ c.max_content_length)
        × (last ≡ record_usage (success_use now request.context a) rows)
  unfolding manage fetch_page
  fetched-IsSafe c as_ r now request rows last a h =
      let (safe, sent) =
        guarded now c.max_content_length r (fetch_rules c as_) request rows last a h in
      let (ran, kept) = responded now request.context rows last _ a sent in
      let (t, found, fetched) = chained (resolve r (fetch_rules c as_) request) _ ran in
      let (response, _, read) =
        chained
          (called (
            Omniroute.request key_file
              (network (record { url = request.url; provider = t.provider }))))
          _ fetched in
      (
        accepts_target-IsSafe library request.url safe,
        resolve-IsAllowed c as_ r request t found,
        envelope_bound c.max_content_length request response a read,
        kept,
      )
