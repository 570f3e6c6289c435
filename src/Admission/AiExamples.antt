-- ===== src/Admission/AiExamples.antt =====
-- A run of the route of AI.
use cesar_core.Base.{ℕ, ◌≤◌, String, ◌≡◌, refl, Option, false, some, []}
use cesar_core.ControlPlane.Registry
use cesar_core.ControlPlane.Registry.{
  Capability, ai, search, fetch, cap_eq, get_application, listed, granted, find, bootstrap, seeds,
  known_rows, seed, ignore_application, get_quota,
}
use cesar_core.ControlPlane.Token.{
  strip, left_strip, right_strip, is_space, starts_with, drop, parse_credential, has_dot, split_dot,
}
use cesar_core.ControlPlane.Rollups.{record_usage}
use cesar_core.ControlPlane.Routes.{capability_name}
use cesar_core.ControlPlane.Listing.{list_applications, order_by, place}
use cesar_core.Security.Authentication.{is_active, authenticate, legacy, is_configured, read_secret}
use cesar_core.Security.Authorization.{
  authorized_context, authorize_capability, allows_capability, check, answered, quota_key,
}
use cesar_core.Security.Quota.{run_script, counted, consume}
use cesar_core.Security.Quota.Samples.{Store, store, empty, read, left, at_key, bumped}
use cesar_core.Gateway.Terms.{answer, Context}
use cesar_core.Gateway.Ai
use cesar_core.Gateway.Ai.{Target}
use cesar_core.Gateway.Ai.Rules.{ai_rules, active_ai, has_ai}
use cesar_core.Gateway.Ai.Resolved.{IsAllowed}
use cesar_core.Gateway.Ai.Samples
use cesar_core.Gateway.Ai.Examples.{sent}
use cesar_core.Gateway.Ai.Examples
use cesar_core.Gateway.Ai.Route.{success_use}
use cesar_core.Gateway.Ai.Provider.{Answer}
use cesar_core.Admission.{
  World, handled, resolve_correlation_id, refused_identity, refused_verdict, context_of, identify,
  authorize, handle, proceed, serve,
}
use cesar_core.Admission.Laws.{IsServed}
use cesar_core.Admission.Samples.{bytes, hmac, hex_tail, settings, asking, booted, world}
use cesar_core.Admission.PostAi.{ai_handler, ai_request, post_ai, post_ai-answered}

-- The counters after one request with some key.
abbrev counted_once : String → Store
counted_once key = at_key key (some (1, 60005)) empty

same_rules :
    ai_rules Ai.Samples.config (list_applications booted)
    ≡ ai_rules Ai.Samples.config Ai.Samples.applications
unfolding ai_rules active_ai has_ai list_applications order_by place get_application listed find
    bootstrap seeds known_rows seed ignore_application granted get_quota Registry.same_key cap_eq
same_rules = refl

abbrev said : Answer
said = Ai.Samples.answer_of false (Ai.Samples.used_of 4) []

abbrev after_ai : World Store
after_ai = world (counted_once "q:gg_oferta:ai") Ai.Examples.once

posted_ai :
    post_ai store bytes hmac hex_tail Ai.Samples.key_file Ai.Samples.nothing
      Ai.Samples.plain_network Ai.Samples.plain_network settings 7 Ai.Samples.config
      (asking "chat" 5)
      (some (Ai.Samples.asking false))
      (world empty [])
    ≡ (after_ai, handled (answer said))
unfolding post_ai ai_handler serve authorize authorized_context authorize_capability
    allows_capability check answered consume run_script counted read left at_key bumped quota_key
    capability_name cap_eq proceed refused_verdict handle context_of resolve_correlation_id
    refused_identity identify authenticate legacy is_configured read_secret strip left_strip
    right_strip is_space starts_with drop parse_credential has_dot split_dot is_active find
    bootstrap seeds known_rows seed ignore_application granted get_quota Registry.same_key
posted_ai = rw (same_rules, sent) refl

post_ai-answered_example :
    (served : IsServed store bytes hmac hex_tail
      (ai_handler store bytes hmac hex_tail Ai.Samples.key_file Ai.Samples.nothing
        Ai.Samples.plain_network Ai.Samples.plain_network 7 Ai.Samples.config booted)
      settings
      ai
      (asking "chat" 5)
      (some (Ai.Samples.asking false))
      (world empty [])
      after_ai
      (answer said))
    × (context : Context) × (context.application_id ≡ served.id)
    × ((t : Target) × IsAllowed Ai.Samples.config
          (list_applications booted)
          booted
          (ai_request context (Ai.Samples.asking false))
          t)
    × ((n : ℕ) × ◌≡◌ {A = Option ℕ} (some 4) (some n) × (n ≤ 10))
    × (Ai.Examples.once ≡ record_usage (success_use 7 context said) [])
post_ai-answered_example =
    post_ai-answered store bytes hmac hex_tail Ai.Samples.key_file Ai.Samples.nothing
      Ai.Samples.plain_network Ai.Samples.plain_network settings 7 Ai.Samples.config
      (asking "chat" 5) (Ai.Samples.asking false) (world empty []) after_ai said 10 posted_ai refl
