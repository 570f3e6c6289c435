-- ===== src/Frontend/App/Steps.antt =====
-- What can happen to the interface, one event at a time, in any order.
use cesar_core.Base.{String, Bool, Option, none, Dict, ◌≡◌, true, false}
use cesar_core.Frontend.Api.{Reply}
use cesar_core.Frontend.App.{
  App, Login, Page, load, probed, toggle_theme, navigate, moved_to, set_mobile, refresh, logged_out,
  type_password, submit, login_replied,
}

-- The session is probed once, while `authenticated` is null; a login is submitted only while no
-- other is under way, since the button is disabled. Replies to a login or a logout, and changes of
-- the hash by the browser, may come at any time.
pub data Step : Login × App → Login × App → Type 0 where
  probe :
      {l : Login} {a : App} (fulfilled : Bool)
      → a.authenticated ≡ none
      → Step (l, a) (l, probed fulfilled a)
  theme : {l : Login} {a : App} → Step (l, a) (l, toggle_theme a)
  go : {l : Login} {a : App} (p : Page) → Step (l, a) (l, navigate p a)
  move : {l : Login} {a : App} (hash : String) → Step (l, a) (l, moved_to hash a)
  menu : {l : Login} {a : App} (m : Bool) → Step (l, a) (l, set_mobile m a)
  again : {l : Login} {a : App} → Step (l, a) (l, refresh a)
  leave : {l : Login} {a : App} (fulfilled : Bool) → Step (l, a) (l, logged_out fulfilled a)
  type : {l : Login} {a : App} (p : String) → Step (l, a) (type_password p l, a)
  enter : {l : Login} {a : App} → l.busy ≡ false → Step (l, a) (submit l, a)
  entered : {l : Login} {a : App} (r : Reply String) → Step (l, a) (login_replied r l a)

-- Whether the browser has changed the hash since the last navigation, from whether it had before.
abbrev pub is_moved : {s t : Login × App} → Step s t → Bool → Bool
is_moved (go p) before = false
is_moved (move hash) before = true
is_moved _ before = before

abbrev pub blank_login : Login
blank_login = record { password = ""; error = ""; busy = false }

module _ (theme : Option String) (hash : String) (storage : Dict String) (prefers : Bool) where
  -- The states after the page is loaded with what the browser holds, and whether the browser has
  -- changed the hash since the last navigation, or since the load.
  pub data Reach : Bool → Login × App → Type 0 where
    loaded : Reach false (blank_login, load theme hash storage prefers)
    after :
        {moved : Bool} {s t : Login × App}
        → Reach moved s
        → (step : Step s t) → Reach (is_moved step moved) t
