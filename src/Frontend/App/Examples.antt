-- ===== src/Frontend/App/Examples.antt =====
-- Runs of the interface: the theorems at concrete events, and what is rendered.
use cesar_core.Base.{◌≡◌, ◌≢◌, ◌⊎◌, refl, true, false, some, [], any, ◌&&◌, ◌==◌}
use cesar_core.Frontend.Api.{ok}
use cesar_core.Frontend.App.{
  App, Login, load, login_replied, toggle_theme, submit, Page, page, page_id, overview, current,
  own_page, inherited, render, render_shell, probed, applications, moved_to, navigate,
}
use cesar_core.Frontend.App.Steps.{
  Reach, loaded, after, probe, theme, enter, entered, go, move, blank_login,
}
use cesar_core.Frontend.App.Laws.{IsPersisted, reload, current_page, shell_page}

abbrev fresh : App
fresh = load (some "light") "usage" [] true

-- The session has run out; the administrator switches the theme, and logs in.
abbrev logged_in : Login × App
logged_in = login_replied (ok "t1") (submit blank_login) (toggle_theme (probed false fresh))

logged_in-Reach : Reach (some "light") "usage" [] true false logged_in
unfolding load submit
logged_in-Reach =
    after (after (after (after loaded (probe false refl)) theme) (enter refl)) (entered (ok "t1"))

reload_example : IsPersisted true false logged_in.1
reload_example = reload true (some "light") "usage" [] false logged_in logged_in-Reach

current_page_example :
    (p : Page) × (current "usage" ≡ page p)
    × ((page_id p ≡ "usage") ⊎ (((q : Page) → page_id q ≢ "usage") × (p ≡ overview)))
current_page_example = current_page "usage" refl

-- The administrator goes on to the applications, and back with the browser.
abbrev gone_back : Login × App
gone_back = (logged_in.0, moved_to "usage" (navigate applications logged_in.1))

gone_back-Reach : Reach (some "light") "usage" [] true true gone_back
gone_back-Reach = after (after logged_in-Reach (go applications)) (move "usage")

shell_page_example :
    (p : Page) × ((render_shell gone_back.1).content ≡ page p)
    × ((any (λ item. item.active && item.id == page_id p) (render_shell gone_back.1).items ≡ true)
        ⊎ ((any (λ item. item.active) (render_shell gone_back.1).items ≡ false) × (p ≡ overview)))
unfolding render toggle_theme probed submit load login_replied moved_to navigate
shell_page_example =
    shell_page (some "light") "usage" [] true true gone_back (render_shell gone_back.1)
      gone_back-Reach refl refl

-- The page stays where it was, and a reload shows the other one.
back_unseen :
    (gone_back.1.screen ≡ "applications")
    × ((load gone_back.1.theme gone_back.1.hash [] true).screen ≡ "usage")
unfolding load page_id navigate moved_to
back_unseen = (refl, refl)

-- A hash that names an inherited property.
inherited_run :
    (render_shell (probed true (load (some "light") "toString" [] true))).content
    ≡ inherited "toString"
unfolding load probed render_shell current own_page
inherited_run = refl
