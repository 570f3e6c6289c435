-- ===== src/Frontend/App.antt =====
-- frontend/src/App.tsx and main.tsx: theme, session and navigation of the interface.
-- The state holds the hooks of `App` and what the page keeps outside React: the class of the
-- document, the local and session storage, and the hash of the location.
pub mod Steps
pub mod Laws
mod Examples
use cesar_core.Base.{
  ℕ, suc, String, Bool, true, false, not, Option, none, some, List, [], ◌∷◌, ◌==◌, or_else, map,
  includes, if◌then◌else◌, Dict, lookup,
}
use cesar_core.Frontend.Api.{Reply, ok, failed, Tokens, set_csrf}
use cesar_core.Frontend.Components.{ThemeButton, theme_toggle}

pub data Page : Type 0 where
  overview applications credentials usage routes health : Page

unfoldable pub page_id : Page → String
page_id overview = "overview"
page_id applications = "applications"
page_id credentials = "credentials"
page_id usage = "usage"
page_id routes = "routes"
page_id health = "health"

page_label : Page → String
page_label overview = "Visão geral"
page_label applications = "Aplicações"
page_label credentials = "Chaves de API"
page_label usage = "Uso & quotas"
page_label routes = "Rotas"
page_label health = "Saúde"

abbrev pub navigation : List Page
navigation = overview ∷ applications ∷ credentials ∷ usage ∷ routes ∷ health ∷ []

-- The names that an object literal inherits in a browser.
abbrev pub object_prototype : List String
object_prototype =
    "constructor" ∷ "hasOwnProperty" ∷ "isPrototypeOf" ∷ "propertyIsEnumerable" ∷ "toLocaleString"
    ∷ "toString" ∷ "valueOf" ∷ "__proto__" ∷ "__defineGetter__" ∷ "__defineSetter__"
    ∷ "__lookupGetter__" ∷ "__lookupSetter__" ∷ []

-- What the lookup of the screen in the literal of the components gives.
pub data Shown : Type 0 where
  page : Page → Shown
  inherited : String → Shown

-- The literal `{ overview: Overview, … }` at its own names.
own_page : String → Option Page
own_page screen =
    if screen == "overview"
    then some overview
    else if screen == "applications"
    then some applications
    else if screen == "credentials"
    then some credentials
    else if screen == "usage"
    then some usage
    else if screen == "routes"
    then some routes
    else if screen == "health"
    then some health
    else none

-- `{ overview: Overview, … }[screen] ?? Overview`.
pub current : String → Shown
current screen = elim (own_page screen) [
  | some p ↦ page p
  | none ↦ if includes object_prototype screen then inherited screen else page overview
]

pub record App : Type 0 where
  pub authenticated : Option Bool
  pub screen : String
  pub dark : Bool
  pub mobile : Bool
  pub nonce : ℕ
  pub dark_class : Bool
  pub theme : Option String
  pub hash : String
  pub tokens : Tokens

-- `saved ? saved === "dark" : matchMedia(…).matches`.
unfoldable pub saved_dark : Option String → Bool → Bool
saved_dark none prefers = prefers
saved_dark (some saved) prefers = if saved == "" then prefers else saved == "dark"

-- `location.hash.slice(1) || "overview"`.
unfoldable pub saved_screen : String → String
saved_screen hash = if hash == "" then "overview" else hash

-- The page is loaded: main.tsx, the first value of `csrf` in api.ts, and the hooks of `App`.
unfoldable pub load : Option String → String → Dict String → Bool → App
unfolding saved_dark saved_screen
load theme hash session_storage prefers =
    let dark = saved_dark theme prefers in
    record {
      authenticated = none;
      screen = saved_screen hash;
      dark = dark;
      mobile = false;
      nonce = 0;
      dark_class = dark;
      theme = theme;
      hash = hash;
      tokens = record {
        csrf = or_else (lookup "cesar-core-csrf" session_storage) "";
        session_storage = session_storage;
      };
    }

-- The request of `GET /session` has settled, fulfilled or not.
pub probed : Bool → App → App
probed fulfilled a = record a { authenticated = some fulfilled }

pub toggle_theme : App → App
toggle_theme a =
    let next = not a.dark in
    record a { dark = next; dark_class = next; theme = some (if next then "dark" else "light") }

pub navigate : Page → App → App
unfolding page_id
navigate p a = record a { screen = page_id p; hash = page_id p; mobile = false }

-- The browser changes the hash by itself: Back, Forward, or an address that is edited. No handler
-- reads it.
pub moved_to : String → App → App
moved_to hash a = record a { hash = hash }

pub set_mobile : Bool → App → App
set_mobile m a = record a { mobile = m }

pub refresh : App → App
refresh a = record a { nonce = suc a.nonce }

-- The request of `POST /logout` has settled; a rejection leaves the handler before its other calls.
pub logged_out : Bool → App → App
logged_out true a = record a {
  authenticated = some false;
  tokens = record a.tokens { session_storage = [] };
}
logged_out false a = a

-- The hooks of `Login`.
pub record Login : Type 0 where
  pub password : String
  pub error : String
  pub busy : Bool

pub type_password : String → Login → Login
type_password p l = record l { password = p }

unfoldable pub submit : Login → Login
submit l = record l { busy = true; error = "" }

-- The reply of `POST /login`, which carries the CSRF token.
unfoldable pub login_replied : Reply String → Login → App → Login × App
unfolding set_csrf
login_replied (ok csrf) l a = (
  record l { busy = false },
  record a { authenticated = some true; tokens = set_csrf csrf a.tokens },
)
login_replied (failed message) l a = (record l { error = message; busy = false }, a)

-- What is rendered.
pub record NavItem : Type 0 where
  pub id : String
  pub label : String
  pub active : Bool

nav_item : String → Page → NavItem
unfolding page_id page_label
nav_item screen p = record { id = page_id p; label = page_label p; active = screen == page_id p }

pub record LoginForm : Type 0 where
  pub theme_button : ThemeButton
  pub password : String
  pub error : Option String
  pub button : String
  pub button_disabled : Bool

pub record Shell : Type 0 where
  pub overlay : Bool
  pub sidebar_open : Bool
  pub items : List NavItem
  pub theme_button : ThemeButton
  pub content : Shown
  pub content_key : ℕ

pub data View : Type 0 where
  spinner : View
  login_form : LoginForm → View
  shell : Shell → View

-- `{error && <p>…</p>}`.
abbrev pub shown_error : String → Option String
shown_error e = if e == "" then none else some e

render_login : Login → App → LoginForm
unfolding theme_toggle
render_login l a = record {
  theme_button = theme_toggle a.dark;
  password = l.password;
  error = shown_error l.error;
  button = if l.busy then "Entrando…" else "Entrar";
  button_disabled = l.busy;
}

render_shell : App → Shell
unfolding theme_toggle nav_item
render_shell a = record {
  overlay = a.mobile;
  sidebar_open = a.mobile;
  items = map (nav_item a.screen) navigation;
  theme_button = theme_toggle a.dark;
  content = current a.screen;
  content_key = a.nonce;
}

unfoldable pub render : Login → App → View
unfolding render_login render_shell
render l a = elim a.authenticated [
  | none ↦ spinner
  | some known ↦ if known then shell (render_shell a) else login_form (render_login l a)
]
