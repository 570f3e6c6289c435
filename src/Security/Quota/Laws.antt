-- ===== src/Security/Quota/Laws.antt =====
-- The script against the fixed window.
use cesar_core.Base.{
  ℕ, ◌≤◌, String, ◌≡◌, refl, sym, Option, none, List, [], ◌∷◌, ◌==◌, Bool-cases, inl, inr, eq_iff,
}
use cesar_core.Security.Quota.{Redis, run_script}
use cesar_core.Security.Quota.Window.{Ask, admit, Windows, put, answers}
use cesar_core.Security.Quota.Keys.{Holds, Agrees, Later, script-Agrees, script-other}

module _ {Db : Type 0} (redis : Redis Db) where
  -- What the script answers to some requests, in their order.
  unfoldable pub replies : List Ask → Db → List (Option (ℕ × ℕ))
  replies [] db = []
  replies (a ∷ as_) db =
      let step = run_script redis a.at a.key a.limit a.window db in step.1 ∷ replies as_ step.0

  -- All keys agree with their windows.
  unfoldable pub AllHold : ℕ → Db → Windows → Type 0
  AllHold now db ws = (k : String) → Holds redis now db k (ws k)

  pub script-AllHold :
      (now : ℕ) (k : String) (limit window : ℕ) (db : Db) (ws : Windows)
      → AllHold now db ws
      → AllHold now
          (run_script redis now k limit window db).0
          (put k (admit redis.expired now limit window (ws k)).0 ws)
  unfolding AllHold put Agrees
  script-AllHold now k limit window db ws h j = elim (Bool-cases (j == k)) [
    | inl e ↦
        let same : k ≡ j = sym ((eq_iff j k).0 e) in
        rw (e, ← same) (script-Agrees redis now k limit window db (ws k) (h k)).1
    | inr e ↦ rw e (script-other redis now j k limit window db (ws j) e (h j))
  ]

-- The requests come in the order of their times, from some time on.
unfoldable pub InOrder : ℕ → List Ask → Type 0
InOrder now [] = Unit
InOrder now (a ∷ as_) = (now ≤ a.at) × InOrder a.at as_

module _ {Db : Type 0} (redis : Redis Db) where
  replies-answers :
      (as_ : List Ask) (now : ℕ) (db : Db) (ws : Windows)
      → InOrder now as_
      → AllHold redis now db ws
      → replies redis as_ db ≡ answers redis.expired as_ ws
  unfolding InOrder AllHold replies answers Agrees
  replies-answers [] now db ws order h = refl
  replies-answers (a ∷ as_) now db ws (le, order) h =
      let later : AllHold redis a.at db ws = λ k. Later redis now a.at db k (ws k) le (h k) in
      rw
        (
          (script-Agrees redis a.at a.key a.limit a.window db (ws a.key) (later a.key)).0,
          replies-answers as_ a.at _ _ order
              (script-AllHold redis a.at a.key a.limit a.window db ws later),
        )
        refl

  -- Over a database without keys, and commands with the laws of Redis, requests of any keys that
  -- come in the order of their times get from the script exactly the answers of the fixed windows of
  -- their keys.
  pub replies_lem :
      (as_ : List Ask) (db : Db)
      → ((at : ℕ) (k : String) → redis.get at k db ≡ none)
      → InOrder 0 as_
      → replies redis as_ db ≡ answers redis.expired as_ (λ k. none)
  unfolding AllHold Holds
  replies_lem as_ db clear order = replies-answers as_ 0 db (λ k. none) order (λ k at l. clear at k)
