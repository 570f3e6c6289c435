-- ===== src/Admission/Examples.antt =====
-- Runs of a request from its headers to its answer.

use cesar_core.Base.{ℕ, ◌≤◌, ◌≡◌, refl, none, some, [], ◌∷◌, List}
use cesar_core.ControlPlane.Registry
use cesar_core.ControlPlane.Registry.{
  Capability, ai, search, fetch, cap_eq, get_application, listed, granted, find, bootstrap, seeds,
  known_rows, seed, ignore_application, get_quota,
}
use cesar_core.ControlPlane.Token.{
  strip, left_strip, right_strip, is_space, starts_with, drop, parse_credential, has_dot, split_dot,
}
use cesar_core.ControlPlane.Rollups.{Row}
use cesar_core.ControlPlane.Routes.{capability_name}
use cesar_core.Security.Authentication.{is_active, authenticate, legacy, is_configured, read_secret}
use cesar_core.Security.Authorization.{
  authorized_context, authorize_capability, allows_capability, check, answered, quota_key,
}
use cesar_core.Security.Quota.{run_script, counted, consume}
use cesar_core.Security.Quota.Samples.{store, empty, read, left, at_key, bumped}
use cesar_core.Admission.{
  refused, handled, resolve_correlation_id, refused_identity, refused_verdict, context_of, identify,
  authorize, handle, proceed, serve,
}
use cesar_core.Admission.Samples.{bytes, hmac, hex_tail, settings, asking, booted, world}
use cesar_core.Gateway.Terms.{answer, Context, Sent}
use cesar_core.Admission.{crashed}
use cesar_core.Admission.Laws.{IsServed, serve-IsServed}
use cesar_core.Admission.Limit.{Call, InOrder, run_call, served, served-limit}
use cesar_core.Base.{arith}
use cesar_core.Security.Quota.Samples.{Store, empty_read}

-- A handler that gives its body back.
abbrev echo : Context → ℕ → List Row → List Row × Sent ℕ
echo context n rows = (rows, answer n)

-- The counters after some requests of AI.
abbrev counted_ai : ℕ → Store
counted_ai n = at_key "q:gg_oferta:ai" (some (n, 60005)) empty

echoed :
    serve store bytes hmac hex_tail echo settings ai 400 (asking "chat" 5) (some 7) (world empty [])
    ≡ (world (counted_ai 1) [], handled (answer 7))
unfolding serve authorize authorized_context authorize_capability allows_capability check answered
    consume run_script counted read left at_key bumped quota_key capability_name cap_eq proceed
    refused_verdict handle context_of resolve_correlation_id refused_identity identify authenticate
    legacy is_configured read_secret strip left_strip right_strip is_space starts_with drop
    parse_credential has_dot split_dot is_active find bootstrap seeds known_rows seed
    ignore_application granted get_quota Registry.same_key
echoed = refl

serve-IsServed_example :
    IsServed store bytes hmac hex_tail echo settings ai
      (asking "chat" 5)
      (some 7)
      (world empty [])
      (world (counted_ai 1) [])
      (answer 7)
serve-IsServed_example =
    serve-IsServed store bytes hmac hex_tail echo settings ai 400 (asking "chat" 5) (some 7)
      (world empty []) (world (counted_ai 1) []) (answer 7) echoed

-- An empty purpose is an error that nothing expects, and the quota has counted it.
empty_purpose :
    serve store bytes hmac hex_tail echo settings ai 400 (asking "" 5) (some 7) (world empty [])
    ≡ (world (counted_ai 1) [], crashed)
unfolding serve authorize authorized_context authorize_capability allows_capability check answered
    consume run_script counted read left at_key bumped quota_key capability_name cap_eq proceed
    refused_verdict handle context_of resolve_correlation_id refused_identity identify authenticate
    legacy is_configured read_secret strip left_strip right_strip is_space starts_with drop
    parse_credential has_dot split_dot is_active find bootstrap seeds known_rows seed
    ignore_application granted get_quota Registry.same_key
empty_purpose = refl

-- So is one whose body is invalid.
invalid_body :
    serve store bytes hmac hex_tail echo settings ai 400 (asking "chat" 5) none (world empty [])
    ≡ (world (counted_ai 1) [], refused 400 [])
unfolding serve authorize authorized_context authorize_capability allows_capability check answered
    consume run_script counted read left at_key bumped quota_key capability_name cap_eq proceed
    refused_verdict handle context_of resolve_correlation_id refused_identity identify authenticate
    legacy is_configured read_secret strip left_strip right_strip is_space starts_with drop
    parse_credential has_dot split_dot is_active find bootstrap seeds known_rows seed
    ignore_application granted get_quota Registry.same_key
invalid_body = refl

abbrev call : ℕ → Call
call at = record {
  Answer = ℕ;
  Body = ℕ;
  handler = echo;
  capability = ai;
  invalid = 400;
  incoming = asking "chat" at;
  body = some 7;
}

two_limit : get_quota "gg_oferta" ai booted.policies ≡ some 2
unfolding get_quota bootstrap seeds known_rows seed ignore_application granted find
    Registry.same_key cap_eq
two_limit = refl

abbrev calls : List Call
calls = call 5 ∷ call 6 ∷ call 7 ∷ []

-- Of three requests of a window, two are served.
two_served : served store bytes hmac hex_tail settings "gg_oferta" ai calls (world empty []) ≡ 2
unfolding served run_call serve authorize authorized_context authorize_capability allows_capability
    check answered consume run_script counted read left at_key bumped quota_key capability_name
    cap_eq proceed refused_verdict handle context_of resolve_correlation_id refused_identity
    identify authenticate legacy is_configured read_secret strip left_strip right_strip is_space
    starts_with drop parse_credential has_dot split_dot is_active find bootstrap seeds known_rows
    seed ignore_application granted get_quota Registry.same_key
two_served = refl

served-limit_example :
    served store bytes hmac hex_tail settings "gg_oferta" ai calls (world empty []) ≤ 2
unfolding InOrder
served-limit_example =
    served-limit store bytes hmac hex_tail settings "gg_oferta" ai 2 5 calls (world empty [])
      two_limit empty_read (omega arith, (omega arith, (omega arith, tt)))
      (omega arith, (omega arith, (omega arith, tt)))
