-- ===== src/ControlPlane/Rollups/Shown.antt =====
-- The rollups that admin/routes.py sends to frontend/src/screens/Usage.tsx: what the screen adds up.
use cesar_core.Base.{
  ℕ, ◌+◌, String, ◌≡◌, refl, sym, ◌∙◌, Bool, true, false, ◌&&◌, List, [], ◌∷◌, arith, map, keep,
  leb, length, sum_by, Bool-cases, inl, inr,
}
use cesar_core.ControlPlane.Routes.{capability_name}
use cesar_core.ControlPlane.Rollups.{Bucket, Row, Use, bucket_of, place, ordered, since, usage}
use cesar_core.ControlPlane.Rollups.Laws.{
  Measure, requests, tokens, queries, in_row, in_use, tally, logged, keep-tally, keep-logged, Op,
  table, calls, table_lem,
}
use cesar_core.Frontend.Usage.{Totals, totals}
use cesar_core.Frontend.Usage
use cesar_core.Frontend.Usage.Sums.{totals-sum}

abbrev flag : Bool → ℕ
flag true = 1
flag false = 0

-- `dict(row)` as the screen reads it; `isoformat` is the text of a time.
unfoldable pub screen_row : (ℕ → String) → Row → Usage.Row
unfolding capability_name
screen_row isoformat r = record {
  bucket_hour = isoformat r.bucket.bucket_hour;
  application_id = r.bucket.application_id;
  capability = capability_name r.bucket.capability;
  provider = r.bucket.provider;
  cached = flag r.bucket.cached;
  requests = r.requests;
  tokens = r.tokens;
  queries = r.queries;
}

abbrev any_bucket : Bucket → Bool
any_bucket k = true

place-tally :
    (m : Measure) (row : Row) (rows : List Row)
    → tally m any_bucket (place row rows) ≡ in_row m row + tally m any_bucket rows
unfolding tally place
place-tally m row [] = refl
place-tally m row (next ∷ rows) =
    elim (Bool-cases (leb row.bucket.bucket_hour next.bucket.bucket_hour)) [
      | inl e ↦ rw e refl
      | inr e ↦ rw (e, place-tally m row rows) (omega arith)
    ]

ordered-tally :
    (m : Measure) (rows : List Row) → tally m any_bucket (ordered rows) ≡ tally m any_bucket rows
unfolding tally ordered
ordered-tally m [] = refl
ordered-tally m (row ∷ rows) = place-tally m row (ordered rows) ∙ rw (ordered-tally m rows) refl

-- The calls of the last days, by the hour.
abbrev pub recent : ℕ → ℕ → List Use → List Use
recent days now us = keep (λ u. leb (since days now) (bucket_of u).bucket_hour) us

usage-tally :
    (ops : List Op) (m : Measure) (days now : ℕ)
    → tally m any_bucket (usage days now (table ops []))
      ≡ logged m any_bucket (recent days now (calls ops []))
unfolding usage
usage-tally ops m days now =
    let p : Bucket → Bool = λ (k : Bucket). leb (since days now) k.bucket_hour in
    ordered-tally m (keep (λ row. p row.bucket) (table ops []))
    ∙ (keep-tally m any_bucket p (table ops [])
        ∙ (table_lem ops m (λ k. p k && any_bucket k)
            ∙ sym (keep-logged m any_bucket p (calls ops []))))

logged-requests : (us : List Use) → logged requests any_bucket us ≡ length us
unfolding logged
logged-requests [] = refl
logged-requests (u ∷ us) = rw (logged-requests us) (omega arith)

logged-sum : (m : Measure) (us : List Use) → logged m any_bucket us ≡ sum_by (in_use m) us
unfolding logged
logged-sum m [] = refl
logged-sum m (u ∷ us) = rw (logged-sum m us) refl

shown-requests :
    (isoformat : ℕ → String) (rows : List Row)
    → sum_by (λ (r : Usage.Row). r.requests) (map (screen_row isoformat) rows)
      ≡ tally requests any_bucket rows
unfolding tally screen_row
shown-requests isoformat [] = refl
shown-requests isoformat (r ∷ rows) = rw (shown-requests isoformat rows) refl

shown-tokens :
    (isoformat : ℕ → String) (rows : List Row)
    → sum_by (λ (r : Usage.Row). r.tokens) (map (screen_row isoformat) rows)
      ≡ tally tokens any_bucket rows
unfolding tally screen_row
shown-tokens isoformat [] = refl
shown-tokens isoformat (r ∷ rows) = rw (shown-tokens isoformat rows) refl

shown-queries :
    (isoformat : ℕ → String) (rows : List Row)
    → sum_by (λ (r : Usage.Row). r.queries) (map (screen_row isoformat) rows)
      ≡ tally queries any_bucket rows
unfolding tally screen_row
shown-queries isoformat [] = refl
shown-queries isoformat (r ∷ rows) = rw (shown-queries isoformat rows) refl

-- After any calls and prunings, the totals that the screen of usage shows for some days are the
-- number of the calls of these days, by the hour, that are not pruned, and the sums of their tokens
-- and queries.
pub shown_totals :
    (isoformat : ℕ → String) (ops : List Op) (days now : ℕ)
    → totals (map (screen_row isoformat) (usage days now (table ops []))) ≡ record {
      requests = length (recent days now (calls ops []));
      tokens = sum_by (λ (u : Use). u.tokens) (recent days now (calls ops []));
      queries = sum_by (λ (u : Use). u.queries) (recent days now (calls ops []));
    }
shown_totals isoformat ops days now =
    let rows = usage days now (table ops []) in
    let us = recent days now (calls ops []) in
    rw
      (
        totals-sum (map (screen_row isoformat) rows),
        shown-requests isoformat rows ∙ (usage-tally ops requests days now ∙ logged-requests us),
        shown-tokens isoformat rows ∙ (usage-tally ops tokens days now ∙ logged-sum tokens us),
        shown-queries isoformat rows ∙ (usage-tally ops queries days now ∙ logged-sum queries us),
      )
      refl
