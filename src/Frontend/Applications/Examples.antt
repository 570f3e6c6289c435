-- ===== src/Frontend/Applications/Examples.antt =====
-- Runs of the screen of the registry: the theorems at concrete events and forms.
use cesar_core.Base.{
  String, ◌≡◌, ◌≢◌, ◌⊎◌, refl, true, false, some, none, [], ◌∷◌, length, includes, map,
}
use cesar_core.Frontend.Api.{ok, failed}
use cesar_core.Frontend.Applications.{Entry, render, loaded, start_load, initial, done_create}
use cesar_core.Frontend.Applications.Form.{EditForm, edit_body, edit_defaults}
use cesar_core.Frontend.Applications.Steps.{System, reply, created, Reach, at_mount, after}
use cesar_core.Frontend.Applications.Laws.{settled, edit_body-fetch}

abbrev gg_oferta : Entry
gg_oferta = record {
  id = "gg_oferta";
  display_name = "GG Oferta";
  client_id = "ggoferta-core-client";
  state = "active";
  is_protected = false;
  capabilities = "ai" ∷ "fetch" ∷ "search" ∷ [];
  quotas = ("ai", 60) ∷ ("fetch", 60) ∷ ("search", 30) ∷ [];
}

-- An application is created while the first load is under way, and that one fails.
abbrev reloaded : System
reloaded = record {
  pending = 0;
  screen = loaded (ok (gg_oferta ∷ [])) (done_create (loaded (failed "down") (start_load initial)));
}

reloaded-Reach : Reach reloaded
reloaded-Reach =
    after (after (after at_mount (reply (failed "down"))) created) (reply (ok (gg_oferta ∷ [])))

settled_example :
    ((render reloaded.screen).loading_row ≡ false)
    × (map {B = String × String} (λ row. (row.id, row.name)) (render reloaded.screen).rows
        ≡ map {B = String × String} (λ app. (app.id, app.display_name)) reloaded.screen.apps)
    × (((render reloaded.screen).banner ≡ some reloaded.screen.page_error)
        ⊎ (((render reloaded.screen).banner ≡ none)
            × (((render reloaded.screen).empty_row ≡ true) × ((render reloaded.screen).rows ≡ [])
                ⊎ ((render reloaded.screen).empty_row ≡ false)
                  × (0 ≢ length (render reloaded.screen).rows))))
settled_example = settled reloaded-Reach refl

abbrev all_ticked : EditForm
all_ticked = record {
  name = "GG Oferta";
  state = "active";
  ticked = λ c. true;
  quota = λ c. some 10;
}

edit_body-fetch_example :
    includes (edit_body (edit_defaults gg_oferta)).capabilities "fetch" ≡ false
edit_body-fetch_example = edit_body-fetch gg_oferta

shown_after_reload : (render reloaded.screen).banner ≡ none
unfolding render loaded done_create start_load
shown_after_reload = refl
