-- ===== src/Frontend/Usage/Steps.antt =====
-- The screen of usage together with the requests that are under way.
use cesar_core.Base.{ℕ, ◌≡◌, ◌≢◌, List, [], ◌∷◌, ◌++◌}
use cesar_core.Frontend.Api.{Reply}
use cesar_core.Frontend.Usage.{Screen, UsageData, initial, effect, select, replied}

-- The periods of the requests under way, the oldest first, and the hooks.
pub record System : Type 0 where
  pub pending : List ℕ
  pub screen : Screen

-- `answer d` is what the request for `d` days settles to. A period is chosen while the choice is
-- rendered, and only another one than the present one sets off the effect; `Allowed` says with
-- which requests under way the administrator may choose.
module _ (answer : ℕ → Reply UsageData) (Allowed : List ℕ → Type 0) where
  pub data Step : System → System → Type 0 where
    choose :
        {p : List ℕ} {s : Screen} (d : ℕ)
        → s.error ≡ ""
        → d ≢ s.days
        → Allowed p
        → Step
            (record { pending = p; screen = s })
            (record { pending = p ++ d ∷ []; screen = select d s })
    arrive :
        {p q : List ℕ} {s : Screen} (d : ℕ) (before rest : List ℕ)
        → p ≡ before ++ d ∷ rest
        → q ≡ before ++ rest
        → Step
            (record { pending = p; screen = s })
            (record { pending = q; screen = replied (answer d) s })

  pub data Reach (s : System) : System → Type 0 where
    here : Reach s s
    next : {t u : System} → Reach s t → Step t u → Reach s u

-- The screen after it is mounted: its first effect has sent a request.
abbrev pub mounted : System
mounted = record { pending = 7 ∷ []; screen = effect initial }

-- Any number of requests may be under way.
abbrev pub Always : List ℕ → Type 0
Always p = Unit

-- The administrator waits for the reply before choosing again.
abbrev pub Patient : List ℕ → Type 0
Patient p = p ≡ []
