-- ===== src/Frontend/Credentials.antt =====
-- frontend/src/screens/Credentials.tsx: the screen of the API keys.
pub mod Steps
pub mod Laws
mod Examples
use cesar_core.Base.{
  String, Bool, true, false, not, ◌&&◌, Option, none, some, List, [], ◌∷◌, ◌==◌, or_else, is_some,
  map, if◌then◌else◌,
}
use mathlib.Core.Option
use cesar_core.Frontend.Api.{Reply, ok, failed}
use cesar_core.Frontend.Components.{Badge, status}
use cesar_core.Frontend.Applications.{is_empty}

pub record Credential : Type 0 where
  pub id : String
  pub application_id : String
  pub name : String
  pub fingerprint : Option String
  pub created_at : Option String
  pub revoked_at : Option String
  pub last_used_at : Option String
  pub read_only : Bool

pub record Choice : Type 0 where
  pub id : String
  pub display_name : String

-- The hooks of `Credentials`.
pub record Screen : Type 0 where
  pub items : List Credential
  pub apps : List Choice
  pub create_open : Bool
  pub secret : String
  pub loading : Bool
  pub page_error : String
  pub create_error : String

abbrev pub initial : Screen
initial = record {
  items = [];
  apps = [];
  create_open = false;
  secret = "";
  loading = true;
  page_error = "";
  create_error = "";
}

-- `load` up to its two requests.
unfoldable pub start_load : Screen → Screen
start_load s = record s { loading = true; page_error = "" }

-- What `Promise.all` of the two requests settles to; `first` says that the rejection of the request
-- for the keys came before the other one's.
unfoldable pub both :
    Bool → Reply (List Credential) → Reply (List Choice) → Reply (List Credential × List Choice)
both first (ok items) (ok apps) = ok (items, apps)
both first (ok items) (failed m) = failed m
both first (failed m) (ok apps) = failed m
both first (failed m) (failed n) = failed (if first then m else n)

-- The `then`, `catch` and `finally` of `load`.
unfoldable pub loaded : Reply (List Credential × List Choice) → Screen → Screen
loaded (ok (items, apps)) s = record s { items = items; apps = apps; loading = false }
loaded (failed message) s = record s { page_error = message; loading = false }

unfoldable pub set_open : Bool → Screen → Screen
set_open o s = record s { create_open = o }

-- The form of a new key: up to its request, and from the reply, which carries the key.
unfoldable pub submit : Screen → Screen
submit s = record s { create_error = "" }

unfoldable pub created : Reply String → Screen → Screen
unfolding start_load
created (ok credential) s = start_load (record s { secret = credential; create_open = false })
created (failed message) s = record s { create_error = message }

-- The reply of a revocation; a rejection is not caught, and changes nothing.
unfoldable pub revoked : Bool → Screen → Screen
unfolding start_load
revoked true s = start_load s
revoked false s = s

abbrev pub set_text : Option String → Bool
set_text none = false
set_text (some t) = not (t == "")

pub record Cells : Type 0 where
  pub name : String
  pub application_id : String
  pub fingerprint : String
  pub created : String
  pub last_used : String
  pub state : Badge
  pub revoked_on : Option String
  pub revoke_button : Option String

pub record View : Type 0 where
  pub banner : Option String
  pub secret_box : Option String
  pub loading_row : Bool
  pub empty_row : Bool
  pub rows : List Cells
  pub create_dialog : Bool
  pub choices : List Choice
  pub create_error : Option String

-- `new Date(…).toLocaleDateString()` and `toLocaleString()` are parameters.
module _ (locale_date locale_time : String → String) where
  -- `t ? f(t) : "—"`.
  dated : (String → String) → Option String → String
  dated f none = "—"
  dated f (some t) = if t == "" then "—" else f t

  unfoldable pub cells : Credential → Cells
  unfolding dated status
  cells item = record {
    name = item.name;
    application_id = item.application_id;
    fingerprint = or_else item.fingerprint "—";
    created = dated locale_date item.created_at;
    last_used = dated locale_time item.last_used_at;
    state = status (if set_text item.revoked_at then "revoked" else "active");
    revoked_on = if set_text item.revoked_at then Option.map locale_date item.revoked_at else none;
    revoke_button =
        if not item.read_only && not (set_text item.revoked_at) then some item.id else none;
  }

  unfoldable pub render : Screen → View
  unfolding cells
  render s = record {
    banner = if s.page_error == "" then none else some s.page_error;
    secret_box = if s.secret == "" then none else some s.secret;
    loading_row = s.loading;
    empty_row = not s.loading && s.page_error == "" && is_empty s.items;
    rows = map cells s.items;
    create_dialog = s.create_open;
    choices = s.apps;
    create_error = if s.create_error == "" then none else some s.create_error;
  }
