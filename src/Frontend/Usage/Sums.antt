-- ===== src/Frontend/Usage/Sums.antt =====
-- The totals of the screen of usage as sums.
use cesar_core.Base.{◌+◌, ◌≡◌, ◌∙◌, List, [], ◌∷◌, arith, sum_by}
use mathlib.Core.List.{foldl}
use cesar_core.Frontend.Usage.{Row, Totals, add_row, no_totals, totals}

folded :
    (a : Totals) (rows : List Row)
    → foldl add_row a rows ≡ record {
      requests = a.requests + sum_by (λ (r : Row). r.requests) rows;
      tokens = a.tokens + sum_by (λ (r : Row). r.tokens) rows;
      queries = a.queries + sum_by (λ (r : Row). r.queries) rows;
    }
unfolding add_row
folded a [] = ground arith
folded a (r ∷ rows) = folded (add_row a r) rows ∙ ground arith

pub totals-sum :
    (rows : List Row)
    → totals rows ≡ record {
      requests = sum_by (λ (r : Row). r.requests) rows;
      tokens = sum_by (λ (r : Row). r.tokens) rows;
      queries = sum_by (λ (r : Row). r.queries) rows;
    }
unfolding totals
totals-sum rows = folded no_totals rows ∙ ground arith
