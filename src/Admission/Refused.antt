-- ===== src/Admission/Refused.antt =====
-- What a refused request is told, and what it leaves.
use cesar_core.Base.{ℕ, ◌≤◌, ◌≡◌, ◌≢◌, Option, List, [], ◌∷◌, ◌⊎◌}
use cesar_core.ControlPlane.Registry.{Registry}
use cesar_core.Security.Authorization.{Verdict, passed, exceeded, answered}
use cesar_core.Security.Quota.{Redis}
use cesar_core.Admission.{Header, www_authenticate, retry_after}

-- A count that is not admitted leaves the counters.
module _ {Db : Type 0} (redis : Redis Db) where
  -- Whether the answer of the store admits.
  IsAnswer : Db × Option (ℕ × ℕ) → Db → Type 0
  IsAnswer run db = answered run.1 ≢ passed → run.0 ≡ db

  -- A verdict that does not pass leaves the counters, and one on the quota names a positive time.
  IsFair : Db × Verdict → Db → Type 0
  IsFair run db =
      (run.1 ≢ passed → run.0 ≡ db) × ((seconds : ℕ) → run.1 ≡ exceeded seconds → 1 ≤ seconds)

-- The headers that a status has.
abbrev pub Told : ℕ → List Header → Type 0
Told status headers =
    ((status ≡ 401) × (headers ≡ www_authenticate ∷ []))
    ⊎ (((status ≡ 429) × ((seconds : ℕ) × (1 ≤ seconds) × (headers ≡ retry_after seconds ∷ [])))
        ⊎ ((status ≡ 403 ⊎ status ≡ 503) × (headers ≡ [])))
