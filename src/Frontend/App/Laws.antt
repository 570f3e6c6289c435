-- ===== src/Frontend/App/Laws.antt =====
-- App.tsx and main.tsx: what a reload of the page gives, and which page is shown.
use cesar_core.Base.{
  String, ◌≡◌, ◌≢◌, ◌⊎◌, inl, inr, refl, Bool, true, false, not, Option, some, any, map, ◌&&◌, ◌==◌,
  arith, eq_iff, or_else, includes, Option-cases, if◌then◌else◌, Dict, lookup, lookup-insert,
}
use cesar_core.Frontend.Api.{Reply, ok, failed}
use cesar_core.Frontend.App.{
  App, Login, Page, overview, applications, credentials, usage, routes, health, page,
  object_prototype, navigation, nav_item, load, probed, toggle_theme, navigate, moved_to,
  set_mobile, refresh, logged_out, login_replied, saved_dark, saved_screen, current, own_page,
  page_id, shell, Shell, render, render_shell,
}
use cesar_core.Frontend.App.Steps.{
  Step, probe, theme, go, move, is_moved, menu, again, leave, type, enter, entered, Reach, loaded,
  after,
}

-- What a reload needs: the class of the document shows the theme, and what is stored gives the
-- theme, the screen, unless the browser has changed the hash, and, after a login, the token back.
pub record IsPersisted (prefers moved : Bool) (a : App) : Type 0 where
  pub class_shown : a.dark_class ≡ a.dark
  pub theme_kept : saved_dark a.theme prefers ≡ a.dark
  pub screen_kept : (moved ≡ true) ⊎ (saved_screen a.hash ≡ a.screen)
  pub token_kept :
      a.authenticated ≢ some false
      → or_else (lookup "cesar-core-csrf" a.tokens.session_storage) "" ≡ a.tokens.csrf

saved_dark-theme :
    (prefers dark : Bool) → saved_dark (some (if dark then "dark" else "light")) prefers ≡ dark
unfolding saved_dark
saved_dark-theme prefers true = refl
saved_dark-theme prefers false = refl

saved_screen-page_id : (p : Page) → saved_screen (page_id p) ≡ page_id p
unfolding saved_screen page_id
saved_screen-page_id overview = refl
saved_screen-page_id applications = refl
saved_screen-page_id credentials = refl
saved_screen-page_id usage = refl
saved_screen-page_id routes = refl
saved_screen-page_id health = refl

module _ (prefers : Bool) where
  load-IsPersisted :
      (saved : Option String) (hash : String) (storage : Dict String)
      → IsPersisted prefers false (load saved hash storage prefers)
  unfolding load
  load-IsPersisted saved hash storage = record {
    class_shown = refl;
    theme_kept = refl;
    screen_kept = inr refl;
    token_kept = λ h. refl;
  }

  toggle_theme-IsPersisted :
      (moved : Bool) (a : App)
      → IsPersisted prefers moved a
      → IsPersisted prefers moved (toggle_theme a)
  unfolding toggle_theme
  toggle_theme-IsPersisted moved a h = record {
    class_shown = refl;
    theme_kept = saved_dark-theme prefers (not a.dark);
    screen_kept = h.screen_kept;
    token_kept = h.token_kept;
  }

  navigate-IsPersisted :
      (p : Page) (moved : Bool) (a : App)
      → IsPersisted prefers moved a
      → IsPersisted prefers false (navigate p a)
  unfolding navigate
  navigate-IsPersisted p moved a h = record {
    class_shown = h.class_shown;
    theme_kept = h.theme_kept;
    screen_kept = inr (saved_screen-page_id p);
    token_kept = h.token_kept;
  }

  login_replied-IsPersisted :
      (r : Reply String) (l : Login) (moved : Bool) (a : App)
      → IsPersisted prefers moved a
      → IsPersisted prefers moved (login_replied r l a).1
  unfolding login_replied
  login_replied-IsPersisted (ok t) l moved a h = record {
    class_shown = h.class_shown;
    theme_kept = h.theme_kept;
    screen_kept = h.screen_kept;
    token_kept = λ q. rw lookup-insert;
  }
  login_replied-IsPersisted (failed m) l moved a h = h

  Step-IsPersisted :
      {s t : Login × App} (moved : Bool) (step : Step s t)
      → IsPersisted prefers moved s.1
      → IsPersisted prefers (is_moved step moved) t.1
  unfolding probed moved_to set_mobile refresh logged_out
  Step-IsPersisted moved (probe {a = a} f p) h = record {
    class_shown = h.class_shown;
    theme_kept = h.theme_kept;
    screen_kept = h.screen_kept;
    token_kept = λ q. h.token_kept (ground arith);
  }
  Step-IsPersisted moved (theme {a = a}) h = toggle_theme-IsPersisted moved a h
  Step-IsPersisted moved (go {a = a} p) h = navigate-IsPersisted p moved a h
  Step-IsPersisted moved (move hash) h = record {
    class_shown = h.class_shown;
    theme_kept = h.theme_kept;
    screen_kept = inl refl;
    token_kept = h.token_kept;
  }
  Step-IsPersisted moved (menu m) h = record {
    class_shown = h.class_shown;
    theme_kept = h.theme_kept;
    screen_kept = h.screen_kept;
    token_kept = h.token_kept;
  }
  Step-IsPersisted moved again h = record {
    class_shown = h.class_shown;
    theme_kept = h.theme_kept;
    screen_kept = h.screen_kept;
    token_kept = h.token_kept;
  }
  Step-IsPersisted moved (leave true) h = record {
    class_shown = h.class_shown;
    theme_kept = h.theme_kept;
    screen_kept = h.screen_kept;
    token_kept = λ q. absurd (q refl);
  }
  Step-IsPersisted moved (leave false) h = h
  Step-IsPersisted moved (type p) h = h
  Step-IsPersisted moved (enter e) h = h
  Step-IsPersisted moved (entered {l = l} {a = a} r) h = login_replied-IsPersisted r l moved a h

  -- After any events since the page was loaded, in any order, the document's class shows the theme,
  -- and loading the page again from what is stored gives the same theme, the same screen, unless the
  -- browser has changed the hash by itself since the last navigation, and, unless the session is
  -- known to be over, the same CSRF token.
  pub reload :
      (saved : Option String) (hash : String) (storage : Dict String) (moved : Bool)
      (s : Login × App)
      → Reach saved hash storage prefers moved s
      → IsPersisted prefers moved s.1
  reload saved hash storage moved s loaded = load-IsPersisted saved hash storage
  reload saved hash storage moved s (after {moved = before} {s = r} reach step) =
      Step-IsPersisted before step (reload saved hash storage before r reach)

own_page-some : (screen : String) (p : Page) → own_page screen ≡ some p → page_id p ≡ screen
unfolding own_page page_id
own_page-some screen p h = ground (
  arith,
  eq_iff screen "overview",
  eq_iff screen "applications",
  eq_iff screen "credentials",
  eq_iff screen "usage",
  eq_iff screen "routes",
  eq_iff screen "health",
)

own_page-page_id : (p : Page) → own_page (page_id p) ≡ some p
unfolding own_page page_id
own_page-page_id overview = refl
own_page-page_id applications = refl
own_page-page_id credentials = refl
own_page-page_id usage = refl
own_page-page_id routes = refl
own_page-page_id health = refl

-- A screen whose name no object literal inherits is shown as a page: the one with that id, or the
-- overview where no page has it.
pub current_page :
    (screen : String)
    → includes object_prototype screen ≡ false
    → (p : Page) × (current screen ≡ page p)
      × ((page_id p ≡ screen) ⊎ (((q : Page) → page_id q ≢ screen) × (p ≡ overview)))
unfolding current
current_page screen h = elim (Option-cases (own_page screen)) [
  | inl e ↦ (overview, rw (e, current) (rw h), inr ((λ q same. cc (own_page-page_id q)), refl))
  | inr (p, e) ↦ (p, rw (e, current), inl (own_page-some screen p e))
]

page_id-own : (p : Page) → includes object_prototype (page_id p) ≡ false
unfolding page_id
page_id-own overview = refl
page_id-own applications = refl
page_id-own credentials = refl
page_id-own usage = refl
page_id-own routes = refl
page_id-own health = refl

-- The screen after the page is loaded with some hash: that of the hash, or one of the navigation.
IsScreen : String → String → Type 0
IsScreen hash screen = (screen ≡ saved_screen hash) ⊎ ((p : Page) × (screen ≡ page_id p))

marked_item :
    (p : Page)
    → any (λ item. item.active && item.id == page_id p) (map (nav_item (page_id p)) navigation)
      ≡ true
unfolding nav_item page_id
marked_item overview = refl
marked_item applications = refl
marked_item credentials = refl
marked_item usage = refl
marked_item routes = refl
marked_item health = refl

no_item :
    (screen : String)
    → ((q : Page) → page_id q ≢ screen)
    → any (λ item. item.active) (map (nav_item screen) navigation) ≡ false
unfolding nav_item
no_item screen other = ground (
  arith,
  other overview,
  other applications,
  other credentials,
  other usage,
  other routes,
  other health,
  eq_iff screen (page_id overview),
  eq_iff screen (page_id applications),
  eq_iff screen (page_id credentials),
  eq_iff screen (page_id usage),
  eq_iff screen (page_id routes),
  eq_iff screen (page_id health),
)

shell-view : (l : Login) (a : App) (view : Shell) → render l a ≡ shell view → render_shell a ≡ view
unfolding render
shell-view l a view h = elim (Option-cases a.authenticated) [
  | inl e ↦ absurd (ground arith)
  | inr (true, e) ↦ ground arith
  | inr (false, e) ↦ absurd (ground arith)
]

module _ (saved : Option String) (hash : String) (storage : Dict String) (prefers : Bool) where
  Step-screen : {s t : Login × App} → Step s t → IsScreen hash s.1.screen → IsScreen hash t.1.screen
  unfolding IsScreen probed toggle_theme navigate moved_to set_mobile refresh logged_out
      login_replied
  Step-screen (probe f p) h = h
  Step-screen theme h = h
  Step-screen (go p) h = inr (p, refl)
  Step-screen (move other) h = h
  Step-screen (menu m) h = h
  Step-screen again h = h
  Step-screen (leave true) h = h
  Step-screen (leave false) h = h
  Step-screen (type p) h = h
  Step-screen (enter e) h = h
  Step-screen (entered (ok t)) h = h
  Step-screen (entered (failed m)) h = h

  Reach-screen :
      {moved : Bool} {s : Login × App}
      → Reach saved hash storage prefers moved s
      → IsScreen hash s.1.screen
  unfolding load IsScreen
  Reach-screen loaded = inl refl
  Reach-screen (after reach step) = Step-screen step (Reach-screen reach)

  screen-own :
      (screen : String)
      → includes object_prototype (saved_screen hash) ≡ false
      → IsScreen hash screen
      → includes object_prototype screen ≡ false
  unfolding IsScreen
  screen-own screen own (inl e) = rw e own
  screen-own screen own (inr (p, e)) = rw e (page_id-own p)

  -- Where the page was loaded with a hash that names no property that every object inherits, then
  -- after any events, changes of the hash by the browser too, a shell that is shown has a page for
  -- its content: the page whose item of the navigation is marked, or the overview where none is.
  pub shell_page :
      (moved : Bool) (s : Login × App) (view : Shell)
      → Reach saved hash storage prefers moved s
      → includes object_prototype (saved_screen hash) ≡ false
      → render s.0 s.1 ≡ shell view
      → (p : Page) × (view.content ≡ page p)
        × ((any (λ item. item.active && item.id == page_id p) view.items ≡ true)
            ⊎ ((any (λ item. item.active) view.items ≡ false) × (p ≡ overview)))
  unfolding render_shell
  shell_page moved (l, a) view reach own h =
      let (p, shown, marked) =
        current_page a.screen (screen-own a.screen own (Reach-screen reach)) in
      rw (← shell-view l a view h) (
        p,
        shown,
        elim marked [
          | inl same ↦ inl (rw (← same) (marked_item p))
          | inr (other, first) ↦ inr (no_item a.screen other, first)
        ],
      )
