-- ===== src/ControlPlane/Rollups/Laws.antt =====
-- The rollups against the list of all calls: what a table holds is the sum of the calls behind it.
use cesar_core.Base.{
  ℕ, ◌+◌, ◌≡◌, refl, sym, ap, ◌∙◌, ◌↔◌, Bool, true, not, ◌&&◌, List, [], ◌∷◌, arith, keep, ltb,
  if◌then◌else◌, Bool-cases, inl, inr, eq_iff,
}
use cesar_core.ControlPlane.Registry.{Capability, cap_eq}
use cesar_core.ControlPlane.Rollups.{
  StatusClass, same_status, same_flag, Bucket, same_bucket, Row, Use, bucket_of, row_of, merged,
  upsert, record_usage, since, prune_usage,
}

cap_iff : (c d : Capability) → (cap_eq c d ≡ true) ↔ (c ≡ d)
unfolding cap_eq
cap_iff c d = (λ h. ground arith, λ e. ground arith)

status_iff : (a b : StatusClass) → (same_status a b ≡ true) ↔ (a ≡ b)
unfolding same_status
status_iff a b = (λ h. ground arith, λ e. ground arith)

flag_iff : (a b : Bool) → (same_flag a b ≡ true) ↔ (a ≡ b)
unfolding same_flag
flag_iff a b = (λ h. ground arith, λ e. ground arith)

bucket_same : (j k : Bucket) → same_bucket j k ≡ true → j ≡ k
unfolding same_bucket
bucket_same j k h = ground (
  arith,
  eq_iff j.application_id k.application_id,
  eq_iff j.provider k.provider,
  cap_iff j.capability k.capability,
  status_iff j.status_class k.status_class,
  flag_iff j.cached k.cached,
)

-- What is counted.
pub data Measure : Type 0 where
  requests tokens queries : Measure

abbrev pub in_row : Measure → Row → ℕ
in_row requests r = r.requests
in_row tokens r = r.tokens
in_row queries r = r.queries

abbrev pub in_use : Measure → Use → ℕ
in_use requests u = 1
in_use tokens u = u.tokens
in_use queries u = u.queries

-- The sum over the rows whose key passes a test, and over the calls whose key does.
unfoldable pub tally : Measure → (Bucket → Bool) → List Row → ℕ
tally m p [] = 0
tally m p (r ∷ rs) = (if p r.bucket then in_row m r else 0) + tally m p rs

unfoldable pub logged : Measure → (Bucket → Bool) → List Use → ℕ
logged m p [] = 0
logged m p (u ∷ us) = (if p (bucket_of u) then in_use m u else 0) + logged m p us

merged-in :
    (m : Measure) (row : Row) (u : Use)
    → in_row m (merged row (row_of u)) ≡ in_use m u + in_row m row
merged-in requests row u = omega arith
merged-in tokens row u = omega arith
merged-in queries row u = omega arith

row_of-in : (m : Measure) (u : Use) → in_row m (row_of u) ≡ in_use m u
row_of-in requests u = refl
row_of-in tokens u = refl
row_of-in queries u = refl

upsert-tally :
    (m : Measure) (p : Bucket → Bool) (u : Use) (rows : List Row)
    → tally m p (upsert (row_of u) rows)
      ≡ (if p (bucket_of u) then in_use m u else 0) + tally m p rows
unfolding tally upsert
upsert-tally m p u [] = rw (row_of-in m u) refl
upsert-tally m p u (row ∷ rows) = elim (Bool-cases (same_bucket row.bucket (bucket_of u))) [
  | inl e ↦
      let same : p row.bucket ≡ p (bucket_of u) = ap p (bucket_same row.bucket (bucket_of u) e) in
      rw (e, merged-in m row u, same)
        (elim (Bool-cases (p (bucket_of u))) [
          | inl t ↦ rw t (omega arith)
          | inr t ↦ rw t (omega arith)
        ])
  | inr e ↦ rw (e, upsert-tally m p u rows) (omega arith)
]

pub keep-tally :
    (m : Measure) (p q : Bucket → Bool) (rows : List Row)
    → tally m p (keep (λ row. q row.bucket) rows) ≡ tally m (λ k. q k && p k) rows
unfolding tally
keep-tally m p q [] = refl
keep-tally m p q (row ∷ rows) = elim (Bool-cases (q row.bucket)) [
  | inl e ↦ rw (e, keep-tally m p q rows) refl
  | inr e ↦ rw (e, keep-tally m p q rows) (omega arith)
]

pub keep-logged :
    (m : Measure) (p q : Bucket → Bool) (us : List Use)
    → logged m p (keep (λ u. q (bucket_of u)) us) ≡ logged m (λ k. q k && p k) us
unfolding logged
keep-logged m p q [] = refl
keep-logged m p q (u ∷ us) = elim (Bool-cases (q (bucket_of u))) [
  | inl e ↦ rw (e, keep-logged m p q us) refl
  | inr e ↦ rw (e, keep-logged m p q us) (omega arith)
]

-- An operation of the store on the rollups.
pub data Op : Type 0 where
  recorded : Use → Op
  pruned : (retention_days now : ℕ) → Op

-- The table after some operations.
unfoldable pub table : List Op → List Row → List Row
table [] rows = rows
table (recorded u ∷ ops) rows = table ops (record_usage u rows)
table (pruned days now ∷ ops) rows = table ops (prune_usage days now rows).0

-- A test of the age of a key.
abbrev pub is_fresh : ℕ → ℕ → Bucket → Bool
is_fresh days now k = not (ltb k.bucket_hour (since days now))

-- The abstract state: all calls, of which pruning forgets the old ones.
unfoldable pub calls : List Op → List Use → List Use
calls [] us = us
calls (recorded u ∷ ops) us = calls ops (u ∷ us)
calls (pruned days now ∷ ops) us = calls ops (keep (λ u. is_fresh days now (bucket_of u)) us)

-- A table and a list of calls that agree on every sum.
pub Agrees : List Row → List Use → Type 0
Agrees rows us = (m : Measure) (p : Bucket → Bool) → tally m p rows ≡ logged m p us

record-Agrees :
    (u : Use) (rows : List Row) (us : List Use)
    → Agrees rows us
    → Agrees (record_usage u rows) (u ∷ us)
unfolding Agrees record_usage logged
record-Agrees u rows us h m p = upsert-tally m p u rows ∙ rw (h m p) refl

prune-Agrees :
    (days now : ℕ) (rows : List Row) (us : List Use)
    → Agrees rows us
    → Agrees (prune_usage days now rows).0 (keep (λ u. is_fresh days now (bucket_of u)) us)
unfolding Agrees prune_usage
prune-Agrees days now rows us h m p =
    keep-tally m p (is_fresh days now) rows
    ∙ (h m (λ k. is_fresh days now k && p k) ∙ sym (keep-logged m p (is_fresh days now) us))

table-Agrees :
    (ops : List Op) (rows : List Row) (us : List Use)
    → Agrees rows us
    → Agrees (table ops rows) (calls ops us)
unfolding table calls
table-Agrees [] rows us h = h
table-Agrees (recorded u ∷ ops) rows us h =
    table-Agrees ops (record_usage u rows) (u ∷ us) (record-Agrees u rows us h)
table-Agrees (pruned days now ∷ ops) rows us h =
    table-Agrees ops (prune_usage days now rows).0 _ (prune-Agrees days now rows us h)

-- After any calls and prunings, for every test of keys, the requests, tokens and queries of the rows
-- that pass it are those of the calls that pass it and that no pruning was to forget.
pub table_lem :
    (ops : List Op) (m : Measure) (p : Bucket → Bool)
    → tally m p (table ops []) ≡ logged m p (calls ops [])
unfolding Agrees tally logged
table_lem ops m p = table-Agrees ops [] [] (λ n q. refl) m p
