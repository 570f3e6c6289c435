-- ===== src/Security/Quota/Keys.antt =====
-- One key under the script of security/quota.py, and the other keys.
use cesar_core.Base.{
  ℕ, ◌+◌, ◌-◌, ◌≤◌, String, ◌≡◌, refl, ◌∙◌, false, Option, none, some, ◌==◌, arith, leb, ltb,
  if◌then◌else◌, Bool-cases, Option-cases, inl, inr,
}
use cesar_core.Security.Quota.{Value, whole, malformed, until, Redis, counted, run_script}
use cesar_core.Security.Quota.Window.{Window, admit}

module _ {Db : Type 0} (redis : Redis Db) where
  -- What a key holds from a time on, and that it agrees with a window.
  unfoldable pub Holds : ℕ → Db → String → Window → Type 0
  Holds now db k none = (at : ℕ) → now ≤ at → redis.get at k db ≡ none
  Holds now db k (some (n, end)) =
      (1 ≤ n)
      × ((at : ℕ)
          → now ≤ at
          → (redis.get at k db ≡ until (redis.expired end at) (whole n))
            × (redis.pttl at k db ≡ until (redis.expired end at) (end - at)))

  pub Later :
      (now at : ℕ) (db : Db) (k : String) (w : Window)
      → now ≤ at
      → Holds now db k w
      → Holds at db k w
  unfolding Holds
  Later now at db k none le h = λ t l. h t (ground arith)
  Later now at db k (some (n, end)) le (pos, h) = (pos, λ t l. h t (ground arith))

  set-Holds :
      (now : ℕ) (db : Db) (k : String) (px : ℕ)
      → Holds now (redis.set_px now k 1 px db) k (some (1, now + px))
  unfolding Holds
  set-Holds now db k px =
      (omega arith, λ at l. (redis.get_set now at k 1 px db l, redis.pttl_set now at k 1 px db l))

  -- An open window has its end ahead.
  open_end : (now end : ℕ) → redis.expired end now ≡ false → now ≤ end
  open_end now end e = elim (Bool-cases (ltb end now)) [
    | inl l ↦ absurd (ground (arith, redis.expired_after end now (ground arith)))
    | inr l ↦ ground arith
  ]

  incr-Holds :
      (now : ℕ) (db : Db) (k : String) (n end : ℕ)
      → redis.expired end now ≡ false
      → Holds now db k (some (n, end))
      → Holds now (redis.incr now k db) k (some (n + 1, end))
  unfolding Holds
  incr-Holds now db k n end e (pos, h) =
      let held : redis.get now k db ≡ some (whole n) = (h now (omega arith)).0 ∙ rw e refl in
      let left : redis.pttl now k db ≡ some (end - now) = (h now (omega arith)).1 ∙ rw e refl in
      let ends : now + (end - now) ≡ end = ground (arith, open_end now end e) in
      (
        omega arith,
        λ at l. (
          rw (← ends) (redis.get_incr now at k n (end - now) db l held left),
          rw (← ends) (redis.pttl_incr now at k n (end - now) db l held left),
        ),
      )

  -- An answer and a database that agree with those of the fixed window.
  unfoldable pub Agrees : ℕ → String → Db × Option (ℕ × ℕ) → Window × (ℕ × ℕ) → Type 0
  Agrees now k result step = (result.1 ≡ some step.1) × Holds now result.0 k step.0

  script_new :
      (now : ℕ) (k : String) (limit window : ℕ) (db : Db)
      → redis.get now k db ≡ none
      → run_script redis now k limit window db ≡ (redis.set_px now k 1 window db, some (1, window))
  unfolding run_script
  script_new now k limit window db e = ground arith

  script_old :
      (now : ℕ) (k : String) (limit window : ℕ) (db : Db) (value : Value)
      → redis.get now k db ≡ some value
      → run_script redis now k limit window db
        ≡ counted redis now k limit value (redis.pttl now k db) db
  unfolding run_script
  script_old now k limit window db value e = ground arith

  counted-open :
      (now : ℕ) (k : String) (limit : ℕ) (db : Db) (n end : ℕ)
      → redis.expired end now ≡ false
      → Holds now db k (some (n, end))
      → Agrees now k (counted redis now k limit (whole n) (some (end - now)) db) (
          if leb limit n
          then (some (n, end), (0, end - now))
          else (some (n + 1, end), (1, end - now)))
  unfolding counted Agrees Holds
  counted-open now k limit db n end e (pos, h) =
      let counts : ltb n 1 ≡ false = ground arith in
      rw counts (elim (Bool-cases (leb limit n)) [
        | inl t ↦ rw t (refl, (pos, h))
        | inr t ↦ rw t (refl, incr-Holds now db k n end e (pos, h))
      ])

  script-open :
      (now : ℕ) (k : String) (limit window : ℕ) (db : Db) (n end : ℕ)
      → redis.expired end now ≡ false
      → Holds now db k (some (n, end))
      → Agrees now k (run_script redis now k limit window db) (
          if leb limit n
          then (some (n, end), (0, end - now))
          else (some (n + 1, end), (1, end - now)))
  unfolding Holds
  script-open now k limit window db n end e (pos, h) =
      let held : redis.get now k db ≡ some (whole n) = (h now (omega arith)).0 ∙ rw e refl in
      let left : redis.pttl now k db ≡ some (end - now) = (h now (omega arith)).1 ∙ rw e refl in
      rw (script_old now k limit window db (whole n) held, left)
        (counted-open now k limit db n end e (pos, h))

  script-closed :
      (now : ℕ) (k : String) (limit window : ℕ) (db : Db)
      → redis.get now k db ≡ none
      → Agrees now k (run_script redis now k limit window db) (some (1, now + window), (1, window))
  unfolding Agrees
  script-closed now k limit window db e =
      rw (script_new now k limit window db e) (refl, set-Holds now db k window)

  pub script-Agrees :
      (now : ℕ) (k : String) (limit window : ℕ) (db : Db) (w : Window)
      → Holds now db k w
      → Agrees now k
          (run_script redis now k limit window db)
          (admit redis.expired now limit window w)
  unfolding admit Holds
  script-Agrees now k limit window db none h =
      script-closed now k limit window db (h now (omega arith))
  script-Agrees now k limit window db (some (n, end)) h =
      elim (Bool-cases (redis.expired end now)) [
        | inl e ↦ rw e (script-closed now k limit window db ((h.1 now (omega arith)).0 ∙ rw e refl))
        | inr e ↦ rw e (script-open now k limit window db n end e h)
      ]

  counted_command :
      (P : Db → Type 0) (now : ℕ) (k : String) (limit : ℕ) (value : Value) (ttl : Option ℕ)
      (db : Db)
      → P db
      → P (redis.incr now k db)
      → P (counted redis now k limit value ttl db).0
  unfolding counted
  counted_command P now k limit malformed ttl db p r = p
  counted_command P now k limit (whole count) none db p r = p
  counted_command P now k limit (whole count) (some ttl) db p r = elim (Bool-cases (ltb count 1)) [
    | inl e ↦ rw e p
    | inr e ↦ rw e (elim (Bool-cases (leb limit count)) [ inl t ↦ rw t p | inr t ↦ rw t r ])
  ]

  -- What holds of the database and of what one command makes of it holds after the script.
  one_command :
      (P : Db → Type 0) (now : ℕ) (k : String) (limit window : ℕ) (db : Db)
      → P db
      → P (redis.set_px now k 1 window db)
      → P (redis.incr now k db)
      → P (run_script redis now k limit window db).0
  one_command P now k limit window db p q r = elim (Option-cases (redis.get now k db)) [
    | inl e ↦ rw (script_new now k limit window db e) q
    | inr (value, e) ↦
        rw (script_old now k limit window db value e)
          (counted_command P now k limit value (redis.pttl now k db) db p r)
  ]

  -- The commands that Redis has for another key leave a key as it is.
  copied :
      (now : ℕ) (db last : Db) (j : String) (w : Window)
      → ((at : ℕ) → redis.get at j last ≡ redis.get at j db)
      → ((at : ℕ) → redis.pttl at j last ≡ redis.pttl at j db)
      → Holds now db j w
      → Holds now last j w
  unfolding Holds
  copied now db last j none gets ttls h = λ at l. gets at ∙ h at l
  copied now db last j (some (n, end)) gets ttls (pos, h) =
      (pos, λ at l. (gets at ∙ (h at l).0, ttls at ∙ (h at l).1))

  pub script-other :
      (now : ℕ) (j k : String) (limit window : ℕ) (db : Db) (w : Window)
      → (j == k) ≡ false
      → Holds now db j w
      → Holds now (run_script redis now k limit window db).0 j w
  script-other now j k limit window db w e h =
      one_command (λ last. Holds now last j w) now k limit window db h
        (copied now db _ j w (λ at. redis.get_set_other now at j k 1 window db e)
          (λ at. redis.pttl_set_other now at j k 1 window db e) h)
        (copied now db _ j w (λ at. redis.get_incr_other now at j k db e)
          (λ at. redis.pttl_incr_other now at j k db e) h)
