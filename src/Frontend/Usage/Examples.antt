-- ===== src/Frontend/Usage/Examples.antt =====
-- Runs of the screen of usage: the theorems at concrete replies, and what is rendered.
use cesar_core.Base.{ℕ, zero, suc, ◌*◌, ◌≤◌, ◌≡◌, ◌↔◌, refl, none, some, [], ◌∷◌, arith, or_else}
use cesar_core.Frontend.Api.{Reply, ok, failed}
use cesar_core.Frontend.Usage.{
  Quota, UsageData, percent, bar_width, select, effect, initial, replied,
}
use cesar_core.Frontend.Usage.Steps.{System, Reach, Always}
use cesar_core.Frontend.Usage.Laws.{bar_width_bounds, stale}

abbrev half_used : Quota
half_used = record {
  application_id = "gg_oferta";
  capability = "ai";
  used = some 30;
  limit = 60;
  ttl_seconds = some 12;
}

bar_width_bounds_example :
    (n : ℕ) × (bar_width half_used ≡ percent n half_used.limit)
    × (n ≤ 100 * half_used.limit)
    × ((n ≡ 100 * half_used.limit) ↔ (half_used.limit ≤ or_else half_used.used 0))
bar_width_bounds_example = bar_width_bounds half_used (omega arith)

abbrev nothing : UsageData
nothing = record { rollups = []; quotas = [] }

abbrev something : UsageData
something = record { rollups = []; quotas = half_used ∷ [] }

abbrev answer : ℕ → Reply UsageData
answer zero = failed "days must be between 1 and 30"
answer (suc zero) = ok something
answer (suc (suc n)) = ok nothing

-- The reply of the first request has come, and another period is chosen.
abbrev chosen : System
chosen = record { pending = 1 ∷ []; screen = select 1 (replied (answer 7) (effect initial)) }

abbrev refused : System
refused = record {
  pending = 30 ∷ [];
  screen = record { days = 30; content = none; error = "down" };
}

abbrev refused_later : System
refused_later = record { pending = []; screen = replied (answer 30) refused.screen }

-- The text of the error, after the reply to a request that was under way.
error_kept : refused_later.screen.error ≡ "down"
unfolding replied
error_kept = refl

stale_example :
    Reach answer Always
      (record { pending = []; screen = record { days = 7; content = none; error = "" } })
      (record { pending = []; screen = record { days = 30; content = some something; error = "" } })
stale_example =
    stale answer 1 30 something nothing (record { days = 7; content = none; error = "" }) refl
      (omega arith) (omega arith) refl refl
