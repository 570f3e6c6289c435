-- ===== src/Security/Quota/Bounds.antt =====
-- How many requests a window of security/quota.py admits.
use cesar_core.Base.{
  ℕ, ◌+◌, ◌-◌, ◌≤◌, ◌<◌, min, String, ◌≡◌, refl, ap, ◌∙◌, Bool, false, Option, none, some, List, [],
  ◌∷◌, arith, leb, length, sum_by, All, Bool-cases, inl, inr, eq_refl,
}
use cesar_core.Security.Quota.{Redis}
use cesar_core.Security.Quota.Window.{Ask, Window, admit, Windows, put, answers}
use cesar_core.Security.Quota.Laws.{replies, InOrder, replies_lem}

-- Requests of one key under one limit, at some times.
abbrev pub asks : String → ℕ → ℕ → List ℕ → List Ask
asks k limit window [] = []
asks k limit window (at ∷ ats) =
    record { at = at; key = k; limit = limit; window = window } ∷ asks k limit window ats

-- Whether an answer admits: 1, or 0.
abbrev pub allowed : Option (ℕ × ℕ) → ℕ
allowed none = 0
allowed (some (one, ttl)) = one

put_same : (k : String) (w : Window) (ws : Windows) → put k w ws k ≡ w
unfolding put
put_same k w ws = rw (eq_refl k) refl

admitted-open :
    (closed : ℕ → ℕ → Bool) (k : String) (limit window n end : ℕ) (ats : List ℕ) (ws : Windows)
    → ((at : ℕ) → at < end → closed end at ≡ false)
    → All (λ at. at < end) ats
    → n ≤ limit
    → ws k ≡ some (n, end)
    → sum_by allowed (answers closed (asks k limit window ats) ws) ≡ min (limit - n) (length ats)
unfolding answers admit
admitted-open closed k limit window n end [] ws before inside le e = omega arith
admitted-open closed k limit window n end (at ∷ ats) ws before (now, inside) le e =
    elim (Bool-cases (leb limit n)) [
      | inl t ↦
          rw
            (
              e,
              before at now,
              t,
              admitted-open closed k limit window n end ats _ before inside le
                  (put_same k (some (n, end)) ws),
            )
            (ground arith)
      | inr t ↦
          rw
            (
              e,
              before at now,
              t,
              admitted-open closed k limit window (n + 1) end ats _ before inside (ground arith)
                  (put_same k (some (n + 1, end)) ws),
            )
            (ground arith)
    ]

opened :
    (closed : ℕ → ℕ → Bool) (k : String) (limit window t : ℕ) (ats : List ℕ)
    → ((at : ℕ) → at < t + window → closed (t + window) at ≡ false)
    → All (λ at. at < t + window) ats
    → 1 ≤ limit
    → sum_by allowed (answers closed (asks k limit window (t ∷ ats)) (λ j. none))
      ≡ min limit (length (t ∷ ats))
unfolding answers admit
opened closed k limit window t ats before inside pos =
    rw
      (admitted-open closed k limit window 1 (t + window) ats _ before inside pos
        (put_same k (some (1, t + window)) (λ j. none)))
      (omega arith)

module _ {Db : Type 0} (redis : Redis Db) where
  -- Over a database without keys, of requests of one key under a positive limit, in the order of
  -- their times and all within the window that the first of them opens, the script admits exactly
  -- the limit, or all where they are fewer.
  pub window_admits :
      (db : Db) (k : String) (limit window t : ℕ) (ats : List ℕ)
      → ((at : ℕ) (j : String) → redis.get at j db ≡ none)
      → InOrder 0 (asks k limit window (t ∷ ats))
      → All (λ at. at < t + window) ats
      → 1 ≤ limit
      → sum_by allowed (replies redis (asks k limit window (t ∷ ats)) db)
        ≡ min limit (length (t ∷ ats))
  window_admits db k limit window t ats clear order inside pos =
      ap (sum_by allowed) (replies_lem redis (asks k limit window (t ∷ ats)) db clear order)
      ∙ opened redis.expired k limit window t ats (redis.expired_before (t + window)) inside pos
