-- ===== src/Gateway/Ai/Examples.antt =====
-- Runs of a call of AI.
use cesar_core.Base.{ℕ, ◌≤◌, ◌≡◌, ◌↔◌, refl, true, false, Option, none, some, List, [], ◌∷◌}
use cesar_core.ControlPlane.Registry.{
  listed, get_application, granted, same_key, find, bootstrap, seeds, known_rows, seed,
  ignore_application, get_quota,
}
use cesar_core.Gateway.Json.{member, at_key, first_item, optional_int, optional_string, truthy}
use cesar_core.Gateway.Omniroute.{Reply, timed_out, answered, Response, received, raise_for_status}
use cesar_core.Gateway.Omniroute
use cesar_core.Gateway.Table.{get}
use cesar_core.Gateway.Terms.{raised, returned}
use cesar_core.Gateway.Ai.{
  Role, Message, Request, Target, Failure, upstream_auth, upstream_response, PolicyKey, key_of,
  wildcard, resolve,
}
use cesar_core.Gateway.Ai.Rules.{
  rules_of, ai_rules, is_configured, normalized, model_for, model_for_profile, class_step,
  class_rules, profile_step, profile_rules, active_ai, has_ai,
}
use cesar_core.Gateway.Table.{for_each, set}
use cesar_core.Gateway.Ai
use cesar_core.Gateway.Ai.{policy_key, chosen, permitted, over_limit}
use cesar_core.Gateway.Terms.{same_class, same_profile, is_free_only}
use cesar_core.Security.Authentication.{is_active}
use cesar_core.ControlPlane.Token.{strip, left_strip, right_strip, is_space}
use cesar_core.Gateway.Ai.Laws.{rule_for, rule_lem}
use cesar_core.Gateway.Ai.Resolved.{IsAllowed, resolve-ai_rules_iff}
use cesar_core.Gateway.Ai.Usage.{sum_usage, normalize_usage, verify_max_tokens}
use cesar_core.Gateway.Ai.Grounding.{Payload, plain_messages}
use cesar_core.Gateway.Ai.Provider.{finish, first_payload, complete, generate, content_of}
use cesar_core.Gateway.Ai.Budget.{capped}
use cesar_core.ControlPlane.Rollups.{Row, row_of, upsert, record_usage}
use cesar_core.Gateway.Terms.{answer}
use cesar_core.Gateway.Ai.Route.{success_use, respond, generate_ai}
use cesar_core.Gateway.Ai.Failures.{failure_for, first_call_failure}
use cesar_core.Gateway.Ai.Samples.{
  config, context, asking, medium, booted, applications, plain_network, nothing, key_file, used_of,
  answer_of,
}

rule_lem_example :
    get (key_of (asking false) wildcard) (rules_of config ("gg_oferta" ∷ []))
    ≡ rule_for config ("gg_oferta" ∷ []) (key_of (asking false) wildcard)
rule_lem_example = rule_lem config ("gg_oferta" ∷ []) (key_of (asking false) wildcard)

resolve-ai_rules_example :
    (resolve booted (ai_rules config applications) (asking false) ≡ returned medium)
    ↔ IsAllowed config applications booted (asking false) medium
resolve-ai_rules_example = resolve-ai_rules_iff config applications booted (asking false) medium

plain_run :
    generate nothing key_file plain_network plain_network booted
      (ai_rules config applications)
      (asking false)
    ≡ returned (answer_of false (used_of 4) [])
unfolding generate resolve chosen permitted over_limit ai_rules rules_of is_configured normalized
    model_for model_for_profile class_step class_rules profile_step profile_rules for_each get set
    Ai.same_key same_class same_profile is_free_only active_ai has_ai bootstrap known_rows seeds
    seed ignore_application find granted get_quota same_key get_application listed is_active
    complete first_payload plain_messages Omniroute.request received raise_for_status finish
    content_of sum_usage normalize_usage verify_max_tokens member at_key first_item optional_int
    optional_string truthy strip left_strip right_strip is_space
plain_run = refl

complete_run :
    complete nothing key_file plain_network plain_network (asking false) medium
    ≡ returned (answer_of false (used_of 4) [])
unfolding complete first_payload plain_messages Omniroute.request received raise_for_status finish
    content_of sum_usage normalize_usage verify_max_tokens member at_key first_item optional_int
    optional_string truthy strip left_strip right_strip is_space
complete_run = refl

capped_example : (n : ℕ) × (◌≡◌ {A = Option ℕ} (some 4) (some n)) × (n ≤ 10)
capped_example =
    capped nothing key_file plain_network plain_network (asking false) medium
      (answer_of false (used_of 4) []) 10 complete_run refl

abbrev refusing : Payload → Reply
refusing payload = answered 401 none (some "u1") none

first_call_failure_example :
    complete nothing key_file refusing plain_network (asking false) medium
    ≡ raised (upstream_auth (some 401) (some "u1"))
unfolding failure_for
first_call_failure_example =
    first_call_failure nothing key_file refusing plain_network (asking false) medium
      (upstream_auth (some 401) (some "u1")) refl refl

enforced : Omniroute.authentication_enforced (answered 401 none none none) ≡ returned true
unfolding Omniroute.authentication_enforced
enforced = refl

-- A request that the upstream refuses as malformed has passed its check of the credential.
reached : Omniroute.credential_accepted (answered 400 none none none) ≡ returned true
unfolding Omniroute.credential_accepted
reached = refl

abbrev pub once : List Row
once = row_of (success_use 7 context (answer_of false (used_of 4) [])) ∷ []

pub sent :
    generate_ai nothing key_file plain_network plain_network 7 booted
      (ai_rules config applications)
      (asking false)
      []
    ≡ (once, answer (answer_of false (used_of 4) []))
unfolding generate_ai respond record_usage upsert
sent = rw plain_run refl
