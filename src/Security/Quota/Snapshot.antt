-- ===== src/Security/Quota/Snapshot.antt =====
-- `snapshot` of security/quota.py: what a key holds, without counting.
use cesar_core.Base.{
  ℕ, ◌-◌, ◌≤◌, String, ◌≡◌, refl, Bool, true, Option, none, some, List, [], ◌∷◌, arith, Bool-cases,
  inl, inr, if◌then◌else◌,
}
use cesar_core.Security.Quota.{Value, whole, malformed, Redis, run_script}
use cesar_core.Security.Quota.Window.{Ask, Window, Windows, admit, put}
use cesar_core.Security.Quota.Keys.{Holds, Later}
use cesar_core.Security.Quota.Laws.{AllHold, script-AllHold}

-- `int(raw) if raw else 0`: `none` where it raises.
abbrev pub number_of : Option Value → Option ℕ
number_of none = some 0
number_of (some (whole n)) = some n
number_of (some malformed) = none

-- `max(0, int(ttl))`.
abbrev pub time_left : Option ℕ → ℕ
time_left none = 0
time_left (some ttl) = ttl

abbrev pub with_time : ℕ → Option ℕ → Option (ℕ × ℕ)
with_time ttl none = none
with_time ttl (some n) = some (n, ttl)

-- What an open window has counted, and what is left of it; nothing of a closed one.
abbrev pub open_count : (ℕ → ℕ → Bool) → ℕ → Window → ℕ
open_count closed at none = 0
open_count closed at (some (n, end)) = if closed end at then 0 else n

abbrev pub open_left : (ℕ → ℕ → Bool) → ℕ → Window → ℕ
open_left closed at none = 0
open_left closed at (some (n, end)) = if closed end at then 0 else end - at

-- The windows after some requests.
unfoldable pub counted_windows : (ℕ → ℕ → Bool) → List Ask → Windows → Windows
counted_windows closed [] ws = ws
counted_windows closed (a ∷ as_) ws =
    counted_windows closed as_ (put a.key (admit closed a.at a.limit a.window (ws a.key)).0 ws)

-- The requests come in the order of their times, from one time to another.
unfoldable pub Between : ℕ → List Ask → ℕ → Type 0
Between start [] end = start ≤ end
Between start (a ∷ as_) end = (start ≤ a.at) × Between a.at as_ end

module _ {Db : Type 0} (redis : Redis Db) where
  -- The two commands are sent one after the other: `GET` at the time `now`, and `PTTL` at the time
  -- `later`; `meanwhile` is what the commands of others make of the database in between. `none` where
  -- it raises.
  unfoldable pub snapshot : Bool → ℕ → ℕ → (Db → Db) → String → Db → Option (ℕ × ℕ)
  snapshot durable now later meanwhile k db =
      if durable
      then with_time (time_left (redis.pttl later k (meanwhile db)))
          (number_of (redis.get now k db))
      else none

  -- The database after the script has run for some requests.
  unfoldable pub counted_db : List Ask → Db → Db
  counted_db [] db = db
  counted_db (a ∷ as_) db = counted_db as_ (run_script redis a.at a.key a.limit a.window db).0

  counted-AllHold :
      (as_ : List Ask) (start end : ℕ) (db : Db) (ws : Windows)
      → Between start as_ end
      → AllHold redis start db ws
      → AllHold redis end (counted_db as_ db) (counted_windows redis.expired as_ ws)
  unfolding Between counted_db counted_windows AllHold
  counted-AllHold [] start end db ws le h = λ k. Later redis start end db k (ws k) le (h k)
  counted-AllHold (a ∷ as_) start end db ws (le, order) h = counted-AllHold as_ a.at end _ _ order (
      script-AllHold redis a.at a.key a.limit a.window db ws
        (λ k. Later redis start a.at db k (ws k) le (h k)))

  number_held :
      (now : ℕ) (k : String) (db : Db) (w : Window)
      → Holds redis now db k w
      → number_of (redis.get now k db) ≡ some (open_count redis.expired now w)
  unfolding Holds
  number_held now k db none h = rw (h now (omega arith)) refl
  number_held now k db (some (n, end)) (pos, h) =
      rw ((h now (omega arith)).0)
        (elim (Bool-cases (redis.expired end now)) [ inl e ↦ rw e refl | inr e ↦ rw e refl ])

  time_held :
      (now : ℕ) (k : String) (db : Db) (w : Window)
      → (redis.get now k db ≡ none → redis.pttl now k db ≡ none)
      → Holds redis now db k w
      → time_left (redis.pttl now k db) ≡ open_left redis.expired now w
  unfolding Holds
  time_held now k db none gone h = rw (gone (h now (omega arith))) refl
  time_held now k db (some (n, end)) gone (pos, h) =
      rw ((h now (omega arith)).1)
        (elim (Bool-cases (redis.expired end now)) [ inl e ↦ rw e refl | inr e ↦ rw e refl ])

  -- From a database without keys, let requests of any keys run the script, some before the snapshot
  -- of a key and some between its two commands, in the order of their times. The snapshot then shows
  -- what the fixed window of the key has counted at its first command, and how long the window that
  -- is open at its second command still lasts; a closed window shows zeros. The command `PTTL` gives
  -- no time for a key that is not there.
  pub snapshot_lem :
      (before meanwhile : List Ask) (now later : ℕ) (k : String) (db : Db)
      → ((at : ℕ) (j : String) (d : Db) → redis.get at j d ≡ none → redis.pttl at j d ≡ none)
      → ((at : ℕ) (j : String) → redis.get at j db ≡ none)
      → Between 0 before now
      → Between now meanwhile later
      → snapshot true now later (counted_db meanwhile) k (counted_db before db)
        ≡ some (
          open_count redis.expired now (counted_windows redis.expired before (λ j. none) k),
          open_left redis.expired later (
              counted_windows redis.expired meanwhile
                (counted_windows redis.expired before (λ j. none))
                k),
        )
  unfolding snapshot AllHold Holds
  snapshot_lem before meanwhile now later k db gone clear first second =
      let held = counted-AllHold before 0 now db (λ j. none) first (λ j at l. clear at j) in
      let held_later = counted-AllHold meanwhile now later (counted_db before db) _ second held in
      rw (number_held now k _ _ (held k), time_held later k _ _ (gone later k _) (held_later k))
        refl
