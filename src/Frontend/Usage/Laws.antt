-- ===== src/Frontend/Usage/Laws.antt =====
-- Totals, bars, the period of the data that is shown, and errors on the screen of usage.
use cesar_core.Base.{
  ℕ, ◌+◌, ◌*◌, ◌≤◌, ◌<◌, min, String, ◌≡◌, ◌≢◌, ◌↔◌, ◌⊎◌, refl, some, List, [], ◌∷◌, ◌++◌, arith,
  or_else, sum_by,
}
use mathlib.Core.List.{foldl}
use cesar_core.Frontend.Api.{Reply, ok, failed}
use cesar_core.Frontend.Usage.{
  Row, Quota, UsageData, Screen, select, replied, Totals, add_row, totals, percent, bar_width,
}
use cesar_core.Frontend.Usage.Steps.{System, Step, choose, arrive, Reach, here, next, Always}

foldl-add_row :
    (a : Totals) (rows : List Row)
    → foldl add_row a rows ≡ record {
      requests = a.requests + sum_by (λ r. r.requests) rows;
      tokens = a.tokens + sum_by (λ r. r.tokens) rows;
      queries = a.queries + sum_by (λ r. r.queries) rows;
    }
unfolding add_row
foldl-add_row a [] = ground arith
foldl-add_row a (r ∷ rows) = rw (foldl-add_row (add_row a r) rows) (ground arith)

-- The three totals are the sums over the rollups of requests, of tokens and of queries.
pub totals_lem :
    (rows : List Row)
    → totals rows ≡ record {
      requests = sum_by (λ r. r.requests) rows;
      tokens = sum_by (λ r. r.tokens) rows;
      queries = sum_by (λ r. r.queries) rows;
    }
unfolding totals
totals_lem rows = rw foldl-add_row (ground arith)

-- The bar of a quota with a positive limit never passes a hundred percent, and is full exactly when
-- the use in the window has reached the limit.
pub bar_width_bounds :
    (q : Quota)
    → 0 < q.limit
    → (n : ℕ) × (bar_width q ≡ percent n q.limit)
      × (n ≤ 100 * q.limit)
      × ((n ≡ 100 * q.limit) ↔ (q.limit ≤ or_else q.used 0))
unfolding bar_width
bar_width_bounds q h = (
  min (100 * q.limit) (or_else q.used 0 * 100),
  ground arith,
  omega arith,
  ((λ e. omega arith), (λ e. omega arith)),
)

module _ (answer : ℕ → Reply UsageData) where
  -- The screen shows the answer for the chosen period, as data or as an error.
  abbrev pub Answered : Screen → Type 0
  Answered s =
      ((m : String) × (answer s.days ≡ failed m) × (s.error ≡ m))
      ⊎ ((d : UsageData) × (answer s.days ≡ ok d) × (s.content ≡ some d))

  -- The reply for the chosen period is awaited, or none is, and the screen shows the answer.
  abbrev pub IsCurrent : System → Type 0
  IsCurrent s = (s.pending ≡ s.screen.days ∷ []) ⊎ ((s.pending ≡ []) × Answered s.screen)

  module _ (Allowed : List ℕ → Type 0) where
    arrive_with :
        {p q : List ℕ} {s : Screen} (d : ℕ) (r : Reply UsageData) (before rest : List ℕ)
        → answer d ≡ r
        → p ≡ before ++ d ∷ rest
        → q ≡ before ++ rest
        → Step answer Allowed
            (record { pending = p; screen = s })
            (record { pending = q; screen = replied r s })
    arrive_with d r before rest same e f = rw (← same) (arrive d before rest e f)

    Step-error :
        {s t : System}
        → Step answer Allowed s t
        → ((d : ℕ) (m : String) → answer d ≡ failed m → m ≢ "")
        → s.screen.error ≢ ""
        → t.screen.error ≢ ""
    Step-error (choose d e n a) says h = absurd (h e)
    Step-error (arrive {s = s} d before rest e f) says h = replied_error (answer d) refl
      where
        replied_error : (r : Reply UsageData) → answer d ≡ r → (replied r s).error ≢ ""
        replied_error (ok v) same = unfold replied in h
        replied_error (failed m) same = unfold replied in says d m same

    -- Once an error is shown, and if no failure has an empty message, an error is shown for ever:
    -- the choice of the period, which would clear it, is not rendered.
    pub error_stays :
        {s t : System}
        → Reach answer Allowed s t
        → ((d : ℕ) (m : String) → answer d ≡ failed m → m ≢ "")
        → s.screen.error ≢ ""
        → t.screen.error ≢ ""
    error_stays here says h = h
    error_stays (next r st) says h = Step-error st says (error_stays r says h)

  -- From a screen with no error and no request under way, and for any other period d and any third
  -- choice e that both get data, the administrator may choose d and then e so that in the end no
  -- request is under way, e is chosen, and the data of d is shown.
  pub stale :
      (d e : ℕ) (a b : UsageData) (s : Screen)
      → s.error ≡ ""
      → d ≢ s.days
      → e ≢ d
      → answer d ≡ ok a
      → answer e ≡ ok b
      → Reach answer Always
          (record { pending = []; screen = s })
          (record { pending = []; screen = record { days = e; content = some a; error = "" } })
  unfolding select replied
  stale d e a b s h n m p q =
      next
        (next (next (next here (choose d h n tt)) (choose e refl m tt))
          (arrive_with Always e (ok b) (d ∷ []) [] q refl refl))
        (arrive_with Always d (ok a) [] [] p refl refl)
