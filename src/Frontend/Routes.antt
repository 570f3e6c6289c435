-- ===== src/Frontend/Routes.antt =====
-- frontend/src/screens/Routes.tsx: the screen of the published routes.
mod Examples
use cesar_core.Base.{String, Bool, Option, List, [], ◌∷◌, ◌==◌, or_else, map, if◌then◌else◌}
use cesar_core.Frontend.Api.{Reply, ok, failed}
use cesar_core.Frontend.Components.{Badge, status}

pub record Route : Type 0 where
  pub method : String
  pub path : String
  pub summary : String
  pub capability : Option String
  pub authenticated : Bool
  pub availability : String

pub record Screen : Type 0 where
  pub items : List Route
  pub error : String

unfoldable pub replied : Reply (List Route) → Screen → Screen
replied (ok items) s = record s { items = items }
replied (failed message) s = record s { error = message }

pub record Cells : Type 0 where
  pub method : String
  pub path : String
  pub capability : String
  pub lock : Bool
  pub authentication : String
  pub badge : Badge
  pub summary : String

unfoldable pub cells : Route → Cells
unfolding status
cells r = record {
  method = r.method;
  path = r.path;
  capability = or_else r.capability "core";
  lock = r.authenticated;
  authentication = if r.authenticated then "Bearer" else "Pública";
  badge = status r.availability;
  summary = if r.summary == "" then "—" else r.summary;
}

pub data View : Type 0 where
  failure : String → View
  no_routes : View
  table : List Cells → View

unfoldable pub rows : List Route → View
unfolding cells
rows [] = no_routes
rows (r ∷ rs) = table (map cells (r ∷ rs))

unfoldable pub render : Screen → View
unfolding rows
render s = if s.error == "" then rows s.items else failure s.error
