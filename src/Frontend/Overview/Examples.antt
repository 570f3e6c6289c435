-- ===== src/Frontend/Overview/Examples.antt =====
-- Runs of the first screen.
use cesar_core.Base.{◌≡◌, refl, none, [], ◌∷◌}
use cesar_core.Frontend.Api.{failed}
use cesar_core.Frontend.Overview.{Summary, Screen, failure, replied, render}

abbrev mounted : Screen
mounted = record { content = none; error = "" }

abbrev answer : Summary
answer = record {
  version = "0.9";
  uptime_seconds = 150;
  applications = 2;
  active_applications = 1;
  credentials = 3;
  ai_requests = 7;
  search_requests = 4;
  errors = 1;
  readiness = "ok";
  dependencies = record { name = "ai_router"; status = "ok"; reason = none } ∷ [];
}

refused : render (replied (failed "HTTP 500") mounted) ≡ failure "HTTP 500"
unfolding replied render
refused = refl
