-- ===== src/Admission/FetchExamples.antt =====
-- A run of the route of fetch.
use cesar_core.Base.{◌≤◌, ◌≡◌, refl, some, []}
use cesar_core.ControlPlane.Registry
use cesar_core.ControlPlane.Registry.{
  Capability, ai, search, fetch, cap_eq, get_application, listed, granted, find, bootstrap, seeds,
  known_rows, seed, ignore_application, get_quota,
}
use cesar_core.ControlPlane.Token.{
  strip, left_strip, right_strip, is_space, starts_with, drop, parse_credential, has_dot, split_dot,
}
use cesar_core.ControlPlane.Rollups.{record_usage}
use cesar_core.ControlPlane.Routes.{capability_name}
use cesar_core.ControlPlane.Listing.{list_applications, order_by, place}
use cesar_core.Security.Authentication.{is_active, authenticate, legacy, is_configured, read_secret}
use cesar_core.Security.Authorization.{
  authorized_context, authorize_capability, allows_capability, check, answered, quota_key,
}
use cesar_core.Security.Quota.{run_script, counted, consume}
use cesar_core.Security.Quota.Samples.{Store, store, empty, read, left, at_key, bumped}
use cesar_core.Gateway.Terms.{answer, Context}
use cesar_core.Gateway.Services.{active_with, lists}
use cesar_core.Gateway.Fetch.{fetch_rules}
use cesar_core.Gateway.Fetch.Examples
use cesar_core.Gateway.Fetch.Examples.{fetched}
use cesar_core.Gateway.Fetch.Route.{success_use}
use cesar_core.Gateway.Fetch.Answered.{IsAllowed}
use cesar_core.Gateway.Fetch.Url.{absent}
use cesar_core.Gateway.Fetch.Laws.{IsSafe, length_of}
use cesar_core.Admission.{
  World, handled, resolve_correlation_id, refused_identity, refused_verdict, context_of, identify,
  authorize, handle, proceed, serve,
}
use cesar_core.Admission.Laws.{IsServed}
use cesar_core.Admission.Samples.{bytes, hmac, hex_tail, settings, asking, booted, world}
use cesar_core.Admission.PostFetch.{fetch_handler, fetch_request, post_fetch, post_fetch-answered}

same_rules :
    fetch_rules Examples.config (list_applications booted)
    ≡ fetch_rules Examples.config Examples.applications
unfolding fetch_rules active_with lists list_applications order_by place get_application listed find
    bootstrap seeds known_rows seed ignore_application granted get_quota Registry.same_key cap_eq
same_rules = refl

abbrev after_fetch : World Store
after_fetch = world (at_key "q:gg_oferta:fetch" (some (1, 60005)) empty) Examples.once

posted_fetch :
    post_fetch store bytes hmac hex_tail Examples.key_file
      (Examples.library absent)
      Examples.serving
      settings
      7
      Examples.config
      (asking "collect" 5)
      (some Examples.request)
      (world empty [])
    ≡ (after_fetch, handled (answer Examples.read))
unfolding post_fetch fetch_handler serve authorize authorized_context authorize_capability
    allows_capability check answered consume run_script counted read left at_key bumped quota_key
    capability_name cap_eq proceed refused_verdict handle context_of resolve_correlation_id
    refused_identity identify authenticate legacy is_configured read_secret strip left_strip
    right_strip is_space starts_with drop parse_credential has_dot split_dot is_active find
    bootstrap seeds known_rows seed ignore_application granted get_quota Registry.same_key
posted_fetch = rw (same_rules, fetched) refl

post_fetch-answered_example :
    (served : IsServed store bytes hmac hex_tail
      (fetch_handler store bytes hmac hex_tail Examples.key_file
        (Examples.library absent)
        Examples.serving
        7
        Examples.config
        booted)
      settings
      fetch
      (asking "collect" 5)
      (some Examples.request)
      (world empty [])
      after_fetch
      (answer Examples.read))
    × (context : Context) × (context.application_id ≡ served.id)
    × IsSafe (Examples.library absent) "https://a.example"
    × IsAllowed Examples.config
        (list_applications booted)
        booted
        (fetch_request context Examples.request)
    × (length_of (some "Pric") ≤ 4)
    × (Examples.once ≡ record_usage (success_use 7 context Examples.read) [])
post_fetch-answered_example =
    post_fetch-answered store bytes hmac hex_tail Examples.key_file (Examples.library absent)
      Examples.serving settings 7 Examples.config (asking "collect" 5) Examples.request
      (world empty []) after_fetch Examples.read posted_fetch
