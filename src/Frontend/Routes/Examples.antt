-- ===== src/Frontend/Routes/Examples.antt =====
-- Runs of the screen of the routes.
use cesar_core.Base.{◌≡◌, refl, true, none, [], ◌∷◌}
use cesar_core.Frontend.Api.{ok, failed}
use cesar_core.Frontend.Components.{emerald}
use cesar_core.Frontend.Routes.{Route, Screen, failure, no_routes, table, replied, render}

abbrev mounted : Screen
mounted = record { items = []; error = "" }

waits : render mounted ≡ no_routes
unfolding render
waits = refl

refused : render (replied (failed "HTTP 401") mounted) ≡ failure "HTTP 401"
unfolding replied render
refused = refl

abbrev answer : Route
answer = record {
  method = "GET";
  path = "/v1/status";
  summary = "";
  capability = none;
  authenticated = true;
  availability = "available";
}

listed :
    render (replied (ok (answer ∷ [])) mounted)
    ≡ table (
        record {
          method = "GET";
          path = "/v1/status";
          capability = "core";
          lock = true;
          authentication = "Bearer";
          badge = record { colour = emerald; label = "available" };
          summary = "—";
        }
        ∷ [])
unfolding replied render
listed = refl
