-- ===== src/ControlPlane/Rollups.antt =====
-- admin/storage.py and admin/migrations: the rollups of usage, a row for each hour, application,
-- capability, outcome, provider and use of the cache. Times are microseconds since the epoch, and a
-- time before it is 0; no row is as old.
pub mod Laws
pub mod Shown
mod Examples
use cesar_core.Base.{
  ℕ, ◌+◌, ◌-◌, ◌*◌, ◌%◌, String, Bool, true, false, not, ◌&&◌, List, [], ◌∷◌, ◌==◌, keep, length,
  leb, ltb, nat_eq, if◌then◌else◌,
}
use cesar_core.ControlPlane.Registry.{Capability, cap_eq}

pub data StatusClass : Type 0 where
  success error : StatusClass

unfoldable pub same_status : StatusClass → StatusClass → Bool
same_status success success = true
same_status error error = true
same_status _ _ = false

unfoldable pub same_flag : Bool → Bool → Bool
same_flag true b = b
same_flag false b = not b

-- The primary key of `usage_rollups`.
pub record Bucket : Type 0 where
  pub bucket_hour : ℕ
  pub application_id : String
  pub capability : Capability
  pub status_class : StatusClass
  pub provider : String
  pub cached : Bool

unfoldable pub same_bucket : Bucket → Bucket → Bool
same_bucket j k =
    nat_eq j.bucket_hour k.bucket_hour
    && (j.application_id == k.application_id
        && (cap_eq j.capability k.capability
            && (same_status j.status_class k.status_class
                && (j.provider == k.provider && same_flag j.cached k.cached))))

-- A row of `usage_rollups`.
pub record Row : Type 0 where
  pub bucket : Bucket
  pub requests : ℕ
  pub tokens : ℕ
  pub queries : ℕ

-- The clock and the arguments of a call of `record_usage`.
pub record Use : Type 0 where
  pub at : ℕ
  pub application_id : String
  pub capability : Capability
  pub status_class : StatusClass
  pub provider : String
  pub cached : Bool
  pub tokens : ℕ
  pub queries : ℕ

abbrev pub hour : ℕ
hour = 3600000000

abbrev pub day : ℕ
day = 24 * hour

-- `replace(minute=0, second=0, microsecond=0)`.
unfoldable pub hour_of : ℕ → ℕ
hour_of at = at - at % hour

abbrev pub bucket_of : Use → Bucket
bucket_of u = record {
  bucket_hour = hour_of u.at;
  application_id = u.application_id;
  capability = u.capability;
  status_class = u.status_class;
  provider = u.provider;
  cached = u.cached;
}

-- The values of the `INSERT`, which are `excluded` in a conflict.
abbrev pub row_of : Use → Row
row_of u = record { bucket = bucket_of u; requests = 1; tokens = u.tokens; queries = u.queries }

-- `ON CONFLICT(…) DO UPDATE SET …`.
abbrev pub merged : Row → Row → Row
merged row excluded = record row {
  requests = row.requests + 1;
  tokens = row.tokens + excluded.tokens;
  queries = row.queries + excluded.queries;
}

unfoldable pub upsert : Row → List Row → List Row
upsert excluded [] = excluded ∷ []
upsert excluded (row ∷ rows) =
    let rest = upsert excluded rows in
    if same_bucket row.bucket excluded.bucket then merged row excluded ∷ rows else row ∷ rest

unfoldable pub record_usage : Use → List Row → List Row
record_usage u rows = upsert (row_of u) rows

-- `ORDER BY bucket_hour`. Rows of one hour, whose order SQLite leaves open, stay as they are.
unfoldable pub place : Row → List Row → List Row
place row [] = row ∷ []
place row (next ∷ rows) =
    let rest = place row rows in
    if leb row.bucket.bucket_hour next.bucket.bucket_hour then row ∷ next ∷ rows else next ∷ rest

unfoldable pub ordered : List Row → List Row
ordered [] = []
ordered (row ∷ rows) = place row (ordered rows)

abbrev pub since : ℕ → ℕ → ℕ
since days now = now - days * day

unfoldable pub usage : ℕ → ℕ → List Row → List Row
unfolding ordered
usage days now rows = ordered (keep (λ row. leb (since days now) row.bucket.bucket_hour) rows)

-- The rows that are left, and how many are removed.
unfoldable pub prune_usage : ℕ → ℕ → List Row → List Row × ℕ
prune_usage retention_days now rows =
    let left = keep (λ row. not (ltb row.bucket.bucket_hour (since retention_days now))) rows in
    (left, length rows - length left)
