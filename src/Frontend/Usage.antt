-- ===== src/Frontend/Usage.antt =====
-- frontend/src/screens/Usage.tsx: the screen of usage and quotas.
pub mod Steps
pub mod Sums
pub mod Laws
mod Examples
use Prim.Native.String
use cesar_core.Base.{
  ℕ, zero, suc, ◌+◌, ◌*◌, min, String, Bool, true, false, Option, none, some, List, [], ◌∷◌, ◌==◌,
  or_else, nat_eq, map, if◌then◌else◌,
}
use mathlib.Core.List.{foldl}
use cesar_core.Frontend.Api.{Reply, ok, failed}

pub record Row : Type 0 where
  pub bucket_hour : String
  pub application_id : String
  pub capability : String
  pub provider : String
  pub cached : ℕ
  pub requests : ℕ
  pub tokens : ℕ
  pub queries : ℕ

pub record Quota : Type 0 where
  pub application_id : String
  pub capability : String
  pub used : Option ℕ
  pub limit : ℕ
  pub ttl_seconds : Option ℕ

pub record UsageData : Type 0 where
  pub rollups : List Row
  pub quotas : List Quota

-- The hooks of `Usage`.
pub record Screen : Type 0 where
  pub days : ℕ
  pub content : Option UsageData
  pub error : String

-- The hooks before the first effect.
abbrev pub initial : Screen
initial = record { days = 7; content = none; error = "" }

-- The effect clears the error and sends a request for `days`.
pub effect : Screen → Screen
effect s = record s { error = "" }

-- The `onChange` of the period, and the effect that the new value sets off.
unfoldable pub select : ℕ → Screen → Screen
unfolding effect
select days s = effect (record s { days = days })

-- The request has settled.
unfoldable pub replied : Reply UsageData → Screen → Screen
replied (ok d) s = record s { content = some d }
replied (failed message) s = record s { error = message }

pub record Totals : Type 0 where
  pub requests : ℕ
  pub tokens : ℕ
  pub queries : ℕ

add_row : Totals → Row → Totals
add_row a r = record {
  requests = a.requests + r.requests;
  tokens = a.tokens + r.tokens;
  queries = a.queries + r.queries;
}

abbrev pub no_totals : Totals
no_totals = record { requests = 0; tokens = 0; queries = 0 }

-- `rollups.reduce(…)`.
pub totals : List Row → Totals
unfolding add_row
totals rows = foldl add_row no_totals rows

-- The width of a bar: a fraction of a hundred, taken exactly; a limit of 0 gives `NaN` or 100.
pub data Width : Type 0 where
  percent : ℕ → ℕ → Width
  not_a_number : Width

-- `Math.min(100, ((q.used ?? 0) / q.limit) * 100)`; `percent n d` is n / d.
pub bar_width : Quota → Width
bar_width q =
    let used = or_else q.used 0 in
    if nat_eq q.limit 0
    then (if nat_eq used 0 then not_a_number else percent 100 1)
    else percent (min (100 * q.limit) (used * 100)) q.limit

pub record QuotaCard : Type 0 where
  pub application_id : String
  pub capability : String
  pub used : Option ℕ
  pub limit : ℕ
  pub width : Width
  pub renews_in : Option ℕ

-- An absent number is shown as a dash.
quota_card : Quota → QuotaCard
unfolding bar_width
quota_card q = record {
  application_id = q.application_id;
  capability = q.capability;
  used = q.used;
  limit = q.limit;
  width = bar_width q;
  renews_in = q.ttl_seconds;
}

pub data Use : Type 0 where
  tokens_used : ℕ → Use
  queries_used : ℕ → Use

pub record RowCells : Type 0 where
  pub hour : String
  pub application_id : String
  pub capability : String
  pub provider : String
  pub cache_mark : Bool
  pub requests : ℕ
  pub use_cell : Use

pub data Rollups : Type 0 where
  table : List RowCells → Rollups
  empty : Rollups

pub record Page : Type 0 where
  pub days : ℕ
  pub cards : Totals
  pub quotas : List QuotaCard
  pub rollups : Rollups

pub data View : Type 0 where
  failure : String → View
  page : Page → View

-- `locale_time` is `new Date(…).toLocaleString()`.
module _ (locale_time : String → String) where
  row_cells : Row → RowCells
  row_cells r = record {
    hour = locale_time r.bucket_hour;
    application_id = r.application_id;
    capability = r.capability;
    provider = if r.provider == "" then "—" else r.provider;
    cache_mark = if nat_eq r.cached 0 then false else true;
    requests = r.requests;
    use_cell = if r.capability == "ai" then tokens_used r.tokens else queries_used r.queries;
  }

  rollup_table : List Row → Rollups
  unfolding row_cells
  rollup_table [] = empty
  rollup_table (r ∷ rs) = table (map row_cells (r ∷ rs))

  render_page : ℕ → Option UsageData → Page
  unfolding totals quota_card rollup_table
  render_page days none = record { days = days; cards = no_totals; quotas = []; rollups = empty }
  render_page days (some d) = record {
    days = days;
    cards = totals d.rollups;
    quotas = map quota_card d.quotas;
    rollups = rollup_table d.rollups;
  }

  -- An error takes the place of the whole screen, the choice of the period included.
  unfoldable pub render : Screen → View
  unfolding render_page
  render s = if s.error == "" then page (render_page s.days s.content) else failure s.error
