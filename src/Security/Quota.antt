-- ===== src/Security/Quota.antt =====
-- security/quota.py: the script that Redis runs to count a request. The commands of Redis are an
-- interface; its laws are the documentation's. A script sees one time, in milliseconds.
pub mod Window
pub mod Keys
pub mod Laws
pub mod Bounds
pub mod Snapshot
pub mod Samples
mod Examples
use cesar_core.Base.{
  ℕ, ◌+◌, ◌-◌, ◌≤◌, ◌<◌, String, ◌≡◌, Bool, true, false, Option, none, some, ◌==◌, leb, ltb,
  if◌then◌else◌,
}

-- A value as the script reads it: a natural number, as `SET` and `INCR` write it, or a text that is no
-- such number. Numbers that neither writes, such as `2.0`, are left out.
pub data Value : Type 0 where
  whole : ℕ → Value
  malformed : Value

-- What a key holds that was given a deadline.
abbrev pub until {ℓ} : {A : Type ℓ} → Bool → A → Option A
until true a = none
until false a = some a

-- The commands; `pttl` is `none` where Redis answers with a negative number.
pub record Redis (Db : Type 0) : Type 0 where
  pub get : ℕ → String → Db → Option Value
  pub pttl : ℕ → String → Db → Option ℕ
  pub set_px : ℕ → String → ℕ → ℕ → Db → Db
  pub incr : ℕ → String → Db → Db
  -- Whether a key with the first number as its deadline is gone at the second.
  pub expired : ℕ → ℕ → Bool
  pub expired_before : (deadline at : ℕ) → at < deadline → expired deadline at ≡ false
  pub expired_after : (deadline at : ℕ) → deadline < at → expired deadline at ≡ true
  pub get_set :
      (now at : ℕ) (k : String) (n px : ℕ) (db : Db)
      → now ≤ at
      → get at k (set_px now k n px db) ≡ until (expired (now + px) at) (whole n)
  pub pttl_set :
      (now at : ℕ) (k : String) (n px : ℕ) (db : Db)
      → now ≤ at
      → pttl at k (set_px now k n px db) ≡ until (expired (now + px) at) (now + px - at)
  -- `INCR` of a number keeps the deadline.
  pub get_incr :
      (now at : ℕ) (k : String) (n ttl : ℕ) (db : Db)
      → now ≤ at
      → get now k db ≡ some (whole n)
      → pttl now k db ≡ some ttl
      → get at k (incr now k db) ≡ until (expired (now + ttl) at) (whole (n + 1))
  pub pttl_incr :
      (now at : ℕ) (k : String) (n ttl : ℕ) (db : Db)
      → now ≤ at
      → get now k db ≡ some (whole n)
      → pttl now k db ≡ some ttl
      → pttl at k (incr now k db) ≡ until (expired (now + ttl) at) (now + ttl - at)
  -- The other keys stay.
  pub get_set_other :
      (now at : ℕ) (j k : String) (n px : ℕ) (db : Db)
      → (j == k) ≡ false
      → get at j (set_px now k n px db) ≡ get at j db
  pub pttl_set_other :
      (now at : ℕ) (j k : String) (n px : ℕ) (db : Db)
      → (j == k) ≡ false
      → pttl at j (set_px now k n px db) ≡ pttl at j db
  pub get_incr_other :
      (now at : ℕ) (j k : String) (db : Db)
      → (j == k) ≡ false
      → get at j (incr now k db) ≡ get at j db
  pub pttl_incr_other :
      (now at : ℕ) (j k : String) (db : Db)
      → (j == k) ≡ false
      → pttl at j (incr now k db) ≡ pttl at j db

module _ {Db : Type 0} (redis : Redis Db) where
  -- The part of the script past `GET`, where the key holds a value.
  unfoldable pub counted : ℕ → String → ℕ → Value → Option ℕ → Db → Db × Option (ℕ × ℕ)
  counted now k limit (whole count) (some ttl) db =
      if ltb count 1
      then (db, none)
      else if leb limit count
      then (db, some (0, ttl))
      else (redis.incr now k db, some (1, ttl))
  counted now k limit _ _ db = (db, none)

  -- `CONSUME`; `none` is the reply of an error.
  unfoldable pub run_script : ℕ → String → ℕ → ℕ → Db → Db × Option (ℕ × ℕ)
  unfolding counted
  run_script now k limit window db = elim (redis.get now k db) [
    | none ↦ (redis.set_px now k 1 window db, some (1, window))
    | some value ↦ counted now k limit value (redis.pttl now k db) db
  ]

  -- `RedisQuotaStore.consume`, where `durable` says whether `_durable` returns.
  unfoldable pub consume : Bool → ℕ → String → ℕ → ℕ → Db → Db × Option (ℕ × ℕ)
  consume durable now k limit window db =
      if durable then run_script now k limit window db else (db, none)
