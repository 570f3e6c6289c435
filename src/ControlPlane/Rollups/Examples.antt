-- ===== src/ControlPlane/Rollups/Examples.antt =====
-- Runs of the rollups.
use cesar_core.Base.{
  ℕ, ◌+◌, ◌*◌, String, ◌≡◌, refl, Bool, true, false, List, [], ◌∷◌, map, length, sum_by,
}
use cesar_core.ControlPlane.Registry.{ai, cap_eq}
use cesar_core.ControlPlane.Rollups.{
  success, same_status, same_flag, Bucket, same_bucket, Use, hour, day, hour_of, bucket_of, upsert,
  record_usage, usage, prune_usage,
}
use cesar_core.ControlPlane.Rollups.Laws.{
  tokens, tally, logged, Op, recorded, pruned, table, calls, table_lem,
}
use cesar_core.ControlPlane.Rollups.Shown.{screen_row, recent, shown_totals}
use cesar_core.Frontend.Usage.{totals}

-- A call of AI by gg_oferta that used some tokens.
abbrev asked : ℕ → ℕ → Use
asked at used = record {
  at = at;
  application_id = "gg_oferta";
  capability = ai;
  status_class = success;
  provider = "omniroute";
  cached = false;
  tokens = used;
  queries = 0;
}

-- Two calls of one hour, one three days later, and a pruning that keeps two days.
abbrev some_days : List Op
some_days =
    recorded (asked (5 * hour) 10)
    ∷ recorded (asked (5 * hour + 7) 20)
    ∷ recorded (asked (5 * hour + 3 * day) 40)
    ∷ pruned 2 (6 * hour + 3 * day)
    ∷ []

-- The calls of one hour are one row.
one_row :
    table (recorded (asked (5 * hour) 10) ∷ recorded (asked (5 * hour + 7) 20) ∷ []) []
    ≡ record { bucket = bucket_of (asked (5 * hour) 10); requests = 2; tokens = 30; queries = 0 }
      ∷ []
unfolding table record_usage upsert same_bucket cap_eq same_status same_flag hour_of
one_row = refl

abbrev every : Bucket → Bool
every k = true

table_example : tally tokens every (table some_days []) ≡ logged tokens every (calls some_days [])
table_example = table_lem some_days tokens every

pruned_run : tally tokens every (table some_days []) ≡ 40
unfolding tally table record_usage prune_usage upsert same_bucket cap_eq same_status same_flag
    hour_of
pruned_run = refl

abbrev no_text : ℕ → String
no_text at = ""

shown_totals_example :
    totals (map (screen_row no_text) (usage 7 (6 * hour + 3 * day) (table some_days []))) ≡ record {
      requests = length (recent 7 (6 * hour + 3 * day) (calls some_days []));
      tokens = sum_by (λ (u : Use). u.tokens) (recent 7 (6 * hour + 3 * day) (calls some_days []));
      queries =
          sum_by (λ (u : Use). u.queries) (recent 7 (6 * hour + 3 * day) (calls some_days []));
    }
shown_totals_example = shown_totals no_text some_days 7 (6 * hour + 3 * day)
