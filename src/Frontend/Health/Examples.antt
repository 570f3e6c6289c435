-- ===== src/Frontend/Health/Examples.antt =====
-- Runs of the screen of the probes.
use cesar_core.Base.{String, ◌≡◌, refl, true, none, some, [], ◌∷◌}
use cesar_core.Frontend.Api.{ok, failed}
use cesar_core.Frontend.Components.{emerald, rose}
use cesar_core.Frontend.Health.{Report, Screen, failure, waiting, page, replied, render}

abbrev plain : String → String
plain t = t

abbrev mounted : Screen
mounted = record { content = none; error = "" }

waits : render plain mounted ≡ waiting
unfolding render
waits = refl

refused : render plain (replied (failed "HTTP 503") mounted) ≡ failure "HTTP 503"
unfolding replied render
refused = refl

abbrev answer : Report
answer = record {
  status = "ok";
  reason = none;
  latency_ms = "12.5";
  components =
      record { name = "ai_router"; status = "failed"; checked_at = "10:00"; version = some "2" }
      ∷ [];
}

probes :
    render plain (replied (ok answer) mounted)
    ≡ page (record {
      green = true;
      summary = "Todos os requisitos habilitados responderam";
      latency = "12.5";
      badge = record { colour = emerald; label = "ok" };
      articles =
          record {
            name = "ai router";
            version = some "2";
            badge = record { colour = rose; label = "failed" };
            checked = "10:00";
          }
          ∷ [];
    })
unfolding replied render
probes = refl
