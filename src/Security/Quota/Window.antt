-- ===== src/Security/Quota/Window.antt =====
-- The fixed window that the script of security/quota.py is to count in.
use cesar_core.Base.{
  ℕ, ◌+◌, ◌-◌, String, Bool, Option, none, some, List, [], ◌∷◌, ◌==◌, leb, if◌then◌else◌,
}

-- A request: its time, and the arguments of the script.
pub record Ask : Type 0 where
  pub at : ℕ
  pub key : String
  pub limit : ℕ
  pub window : ℕ

-- The count and the end of an open window, if any.
abbrev pub Window : Type 0
Window = Option (ℕ × ℕ)

-- A closed window opens with the request; an open one admits up to the limit. `closed` says whether
-- a window with some end is over at some time.
unfoldable pub admit : (ℕ → ℕ → Bool) → ℕ → ℕ → ℕ → Window → Window × (ℕ × ℕ)
admit closed at limit window none = (some (1, at + window), (1, window))
admit closed at limit window (some (n, end)) =
    if closed end at
    then (some (1, at + window), (1, window))
    else if leb limit n
    then (some (n, end), (0, end - at))
    else (some (n + 1, end), (1, end - at))

-- A window for each key.
abbrev pub Windows : Type 0
Windows = String → Window

unfoldable pub put : String → Window → Windows → Windows
put k w ws j = if j == k then w else ws j

-- The answers to some requests, in their order.
unfoldable pub answers : (ℕ → ℕ → Bool) → List Ask → Windows → List (Option (ℕ × ℕ))
answers closed [] ws = []
answers closed (a ∷ as_) ws =
    let step = admit closed a.at a.limit a.window (ws a.key) in
    some step.1 ∷ answers closed as_ (put a.key step.0 ws)
