-- ===== src/Admission/SearchExamples.antt =====
-- A run of the route of search.
use cesar_core.Base.{◌≤◌, ◌≡◌, refl, some, [], length}
use cesar_core.ControlPlane.Registry
use cesar_core.ControlPlane.Registry.{
  Capability, ai, search, fetch, cap_eq, get_application, listed, granted, find, bootstrap, seeds,
  known_rows, seed, ignore_application, get_quota,
}
use cesar_core.ControlPlane.Token.{
  strip, left_strip, right_strip, is_space, starts_with, drop, parse_credential, has_dot, split_dot,
}
use cesar_core.ControlPlane.Rollups.{record_usage}
use cesar_core.ControlPlane.Routes.{capability_name}
use cesar_core.ControlPlane.Listing.{list_applications, order_by, place}
use cesar_core.Security.Authentication.{is_active, authenticate, legacy, is_configured, read_secret}
use cesar_core.Security.Authorization.{
  authorized_context, authorize_capability, allows_capability, check, answered, quota_key,
}
use cesar_core.Security.Quota.{run_script, counted, consume}
use cesar_core.Security.Quota.Samples.{Store, store, empty, read, left, at_key, bumped}
use cesar_core.Gateway.Terms.{answer, Context}
use cesar_core.Gateway.Services.{active_with, lists}
use cesar_core.Gateway.Search.{search_rules}
use cesar_core.Gateway.Search.Examples
use cesar_core.Gateway.Search.Examples.{searched}
use cesar_core.Gateway.Search.Route.{success_use}
use cesar_core.Gateway.Search.Answered.{IsAllowed}
use cesar_core.Admission.{
  World, handled, resolve_correlation_id, refused_identity, refused_verdict, context_of, identify,
  authorize, handle, proceed, serve,
}
use cesar_core.Admission.Laws.{IsServed}
use cesar_core.Admission.Samples.{bytes, hmac, hex_tail, settings, asking, booted, world}
use cesar_core.Admission.PostSearch.{
  search_handler, search_request, post_search, post_search-answered,
}

same_rules :
    search_rules Examples.config (list_applications booted)
    ≡ search_rules Examples.config Examples.applications
unfolding search_rules active_with lists list_applications order_by place get_application listed
    find bootstrap seeds known_rows seed ignore_application granted get_quota Registry.same_key
    cap_eq
same_rules = refl

abbrev after_search : World Store
after_search = world (at_key "q:gg_oferta:search" (some (1, 60005)) empty) Examples.once

posted_search :
    post_search store bytes hmac hex_tail Examples.key_file Examples.two_hits settings 7
      Examples.config
      (asking "technical_documentation" 5)
      (some Examples.request)
      (world empty [])
    ≡ (after_search, handled (answer Examples.found))
unfolding post_search search_handler serve authorize authorized_context authorize_capability
    allows_capability check answered consume run_script counted read left at_key bumped quota_key
    capability_name cap_eq proceed refused_verdict handle context_of resolve_correlation_id
    refused_identity identify authenticate legacy is_configured read_secret strip left_strip
    right_strip is_space starts_with drop parse_credential has_dot split_dot is_active find
    bootstrap seeds known_rows seed ignore_application granted get_quota Registry.same_key
posted_search = rw (same_rules, searched) refl

post_search-answered_example :
    (served : IsServed store bytes hmac hex_tail
      (search_handler store bytes hmac hex_tail Examples.key_file Examples.two_hits 7
        Examples.config booted)
      settings
      search
      (asking "technical_documentation" 5)
      (some Examples.request)
      (world empty [])
      after_search
      (answer Examples.found))
    × (context : Context) × (context.application_id ≡ served.id)
    × IsAllowed Examples.config
        (list_applications booted)
        booted
        (search_request context Examples.request)
    × (length Examples.found.results ≤ 1)
    × (Examples.once ≡ record_usage (success_use 7 context Examples.found) [])
post_search-answered_example =
    post_search-answered store bytes hmac hex_tail Examples.key_file Examples.two_hits settings 7
      Examples.config (asking "technical_documentation" 5) Examples.request (world empty [])
      after_search Examples.found posted_search
