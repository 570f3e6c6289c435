-- ===== src/Frontend/Applications.antt =====
-- frontend/src/screens/Applications.tsx: the screen of the registry, and its two dialogs.
pub mod Form
pub mod Steps
pub mod Laws
mod Examples
use Prim.Native.String
use cesar_core.Base.{
  ℕ, String, Bool, true, false, not, ◌&&◌, Option, none, some, List, [], ◌∷◌, ◌==◌, or_else, map,
  if◌then◌else◌, Dict, lookup,
}
use cesar_core.Frontend.Api.{Reply, ok, failed}
use cesar_core.Frontend.Components.{Badge, status}

-- An application as `GET /applications` gives it.
pub record Entry : Type 0 where
  pub id : String
  pub display_name : String
  pub client_id : String
  pub state : String
  pub is_protected : Bool
  pub capabilities : List String
  pub quotas : Dict ℕ

-- The hooks of `Applications`.
pub record Screen : Type 0 where
  pub apps : List Entry
  pub create_open : Bool
  pub editing : Option Entry
  pub loading : Bool
  pub page_error : String

abbrev pub initial : Screen
initial = record { apps = []; create_open = false; editing = none; loading = true; page_error = "" }

-- `load` up to its request.
unfoldable pub start_load : Screen → Screen
start_load s = record s { loading = true; page_error = "" }

-- The `then`, `catch` and `finally` of `load`.
unfoldable pub loaded : Reply (List Entry) → Screen → Screen
loaded (ok apps) s = record s { apps = apps; loading = false }
loaded (failed message) s = record s { page_error = message; loading = false }

unfoldable pub open_create : Screen → Screen
open_create s = record s { create_open = true }

unfoldable pub close_create : Screen → Screen
close_create s = record s { create_open = false }

unfoldable pub open_edit : Entry → Screen → Screen
open_edit app s = record s { editing = some app }

unfoldable pub close_edit : Screen → Screen
close_edit s = record s { editing = none }

-- The `done` of a dialog closes it and sets a new load off.
unfoldable pub done_create : Screen → Screen
unfolding start_load close_create
done_create s = start_load (close_create s)

unfoldable pub done_edit : Screen → Screen
unfolding start_load close_edit
done_edit s = start_load (close_edit s)

abbrev pub is_empty {ℓ} : {A : Type ℓ} → List A → Bool
is_empty [] = true
is_empty (x ∷ xs) = false

pub record Cells : Type 0 where
  pub name : String
  pub id : String
  pub state : Badge
  -- An application without capabilities has a dash in their place.
  pub capabilities : List String
  pub quotas : List (String × Option ℕ)

cells : Entry → Cells
unfolding status
cells app = record {
  name = app.display_name;
  id = app.id;
  state = status app.state;
  capabilities = if is_empty app.capabilities then "—" ∷ [] else app.capabilities;
  quotas = map (λ c. (c, lookup c app.quotas)) app.capabilities;
}

pub record View : Type 0 where
  pub banner : Option String
  pub loading_row : Bool
  pub empty_row : Bool
  pub rows : List Cells
  pub create_dialog : Bool
  pub edit_dialog : Option Entry

pub render : Screen → View
unfolding cells
render s = record {
  banner = if s.page_error == "" then none else some s.page_error;
  loading_row = s.loading;
  empty_row = not s.loading && s.page_error == "" && is_empty s.apps;
  rows = map cells s.apps;
  create_dialog = s.create_open;
  edit_dialog = s.editing;
}
