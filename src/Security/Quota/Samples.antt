-- ===== src/Security/Quota/Samples.antt =====
-- A store that has the laws of Redis.
use cesar_core.Base.{
  ℕ, ◌+◌, ◌-◌, ◌≤◌, ◌<◌, String, ◌≡◌, refl, ap, true, false, Option, none, some, ◌==◌, arith, leb,
  if◌then◌else◌, eq_refl,
}
use cesar_core.Security.Quota.{Value, whole, until, Redis}

-- The number and the deadline of each key.
abbrev pub Store : Type 0
Store = String → Option (ℕ × ℕ)

unfoldable pub read : ℕ → Option (ℕ × ℕ) → Option Value
read at none = none
read at (some (n, end)) = until (leb end at) (whole n)

unfoldable pub left : ℕ → Option (ℕ × ℕ) → Option ℕ
left at none = none
left at (some (n, end)) = until (leb end at) (end - at)

unfoldable pub bumped : Option (ℕ × ℕ) → Option (ℕ × ℕ)
bumped none = none
bumped (some (n, end)) = some (n + 1, end)

unfoldable pub at_key : String → Option (ℕ × ℕ) → Store → Store
at_key k v db j = if j == k then v else db j

pub at_key_same : (k : String) (v : Option (ℕ × ℕ)) (db : Store) → at_key k v db k ≡ v
unfolding at_key
at_key_same k v db = rw (eq_refl k) refl

pub at_key_other :
    (j k : String) (v : Option (ℕ × ℕ)) (db : Store) → (j == k) ≡ false → at_key k v db j ≡ db j
unfolding at_key
at_key_other j k v db e = rw e refl

pub read-bumped :
    (now at n ttl : ℕ) (v : Option (ℕ × ℕ))
    → now ≤ at
    → read now v ≡ some (whole n)
    → left now v ≡ some ttl
    → (read at (bumped v) ≡ until (leb (now + ttl) at) (whole (n + 1)))
      × (left at (bumped v) ≡ until (leb (now + ttl) at) (now + ttl - at))
unfolding read left bumped
read-bumped now at n ttl none le e f = absurd (ground arith)
read-bumped now at n ttl (some (m, end)) le e f = (ground arith, ground arith)

pub unread-left : (at : ℕ) (v : Option (ℕ × ℕ)) → read at v ≡ none → left at v ≡ none
unfolding read left
unread-left at none e = refl
unread-left at (some (n, end)) e = ground (arith, e)

pub read_set :
    (now at : ℕ) (k : String) (n px : ℕ) (db : Store)
    → read at (at_key k (some (n, now + px)) db k) ≡ until (leb (now + px) at) (whole n)
unfolding read
read_set now at k n px db = rw (at_key_same k (some (n, now + px)) db) refl

pub left_set :
    (now at : ℕ) (k : String) (n px : ℕ) (db : Store)
    → left at (at_key k (some (n, now + px)) db k) ≡ until (leb (now + px) at) (now + px - at)
unfolding left
left_set now at k n px db = rw (at_key_same k (some (n, now + px)) db) refl

pub leb_before : (end at : ℕ) → at < end → leb end at ≡ false
leb_before end at l = ground arith

pub leb_after : (end at : ℕ) → end < at → leb end at ≡ true
leb_after end at l = ground arith

abbrev pub store : Redis Store
store = record {
  get = λ at k db. read at (db k);
  pttl = λ at k db. left at (db k);
  set_px = λ now k n px db. at_key k (some (n, now + px)) db;
  incr = λ now k db. at_key k (bumped (db k)) db;
  expired = λ end at. leb end at;
  expired_before = leb_before;
  expired_after = leb_after;
  get_set = λ now at k n px db l. read_set now at k n px db;
  pttl_set = λ now at k n px db l. left_set now at k n px db;
  get_incr = λ now at k n ttl db l e f.
      rw (at_key_same k (bumped (db k)) db) (read-bumped now at n ttl (db k) l e f).0;
  pttl_incr = λ now at k n ttl db l e f.
      rw (at_key_same k (bumped (db k)) db) (read-bumped now at n ttl (db k) l e f).1;
  get_set_other = λ now at j k n px db e. ap (read at) (at_key_other j k (some (n, now + px)) db e);
  pttl_set_other =
      λ now at j k n px db e. ap (left at) (at_key_other j k (some (n, now + px)) db e);
  get_incr_other = λ now at j k db e. ap (read at) (at_key_other j k (bumped (db k)) db e);
  pttl_incr_other = λ now at j k db e. ap (left at) (at_key_other j k (bumped (db k)) db e);
}

abbrev pub empty : Store
empty k = none

pub empty_read : (at : ℕ) (k : String) → store.get at k empty ≡ none
unfolding read
empty_read at k = refl
