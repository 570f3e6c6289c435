-- ===== src/Frontend/Applications/Laws.antt =====
-- What the screen of the registry shows while and after it loads, and what the edit form sends.
use cesar_core.Base.{
  String, ◌≡◌, ◌≢◌, ◌⊎◌, inl, inr, refl, ap, true, false, none, some, List, [], ◌∷◌, arith, ◌==◌,
  Bool-cases, length, map, All, includes,
}
use cesar_core.Frontend.Api.{ok, failed}
use cesar_core.Frontend.Applications.{
  Entry, loaded, open_create, close_create, open_edit, close_edit, done_create, done_edit, render,
  is_empty, cells,
}
use cesar_core.Frontend.Applications.Form.{EditForm, edit_body, edit_defaults, boxes}
use cesar_core.Frontend.Applications.Steps.{
  System, Step, reply, created, edited, new, drop, edit, leave, Reach, at_mount, after,
}

-- The spinner is backed by a load: with none under way, it is not shown.
abbrev pub IsBacked : System → Type 0
IsBacked s = s.pending ≡ 0 → s.screen.loading ≡ false

Step-IsBacked : {s t : System} → Step s t → IsBacked s → IsBacked t
unfolding loaded done_create done_edit open_create close_create open_edit close_edit
Step-IsBacked (reply (ok a)) h = λ e. refl
Step-IsBacked (reply (failed m)) h = λ e. refl
Step-IsBacked created h = λ e. absurd (omega arith)
Step-IsBacked edited h = λ e. absurd (omega arith)
Step-IsBacked new h = h
Step-IsBacked drop h = h
Step-IsBacked (edit app) h = h
Step-IsBacked leave h = h

Reach-IsBacked : {s : System} → Reach s → IsBacked s
Reach-IsBacked at_mount = λ e. absurd (omega arith)
Reach-IsBacked (after r st) = Step-IsBacked st (Reach-IsBacked r)

row_or_note :
    (apps : List Entry)
    → ((is_empty apps ≡ true) × (map cells apps ≡ []))
      ⊎ ((is_empty apps ≡ false) × (0 ≢ length (map cells apps)))
row_or_note [] = inl (refl, refl)
row_or_note (app ∷ apps) = inr (refl, omega arith)

cells_shown :
    (apps : List Entry)
    → map {B = String × String} (λ row. (row.id, row.name)) (map cells apps)
      ≡ map {B = String × String} (λ app. (app.id, app.display_name)) apps
unfolding cells
cells_shown [] = refl
cells_shown (app ∷ apps) = ap (λ rest. (app.id, app.display_name) ∷ rest) (cells_shown apps)

-- After any events, when every load has settled, the screen is out of its loading state, and it has
-- one row for each application that its state holds, with the identifier and the name of the
-- application, in their order. It shows the error, if there is one; otherwise it shows the note that
-- the registry is empty and no row, or no note and at least one row.
pub settled :
    {s : System}
    → Reach s
    → s.pending ≡ 0
    → ((render s.screen).loading_row ≡ false)
      × (map {B = String × String} (λ row. (row.id, row.name)) (render s.screen).rows
          ≡ map {B = String × String} (λ app. (app.id, app.display_name)) s.screen.apps)
      × (((render s.screen).banner ≡ some s.screen.page_error)
          ⊎ (((render s.screen).banner ≡ none)
              × (((render s.screen).empty_row ≡ true) × ((render s.screen).rows ≡ [])
                  ⊎ ((render s.screen).empty_row ≡ false) × (0 ≢ length (render s.screen).rows))))
unfolding render
settled {s} r e = elim (Bool-cases (s.screen.page_error == "")) [
  | inl fine ↦ (
    Reach-IsBacked r e,
    cells_shown s.screen.apps,
    inr (rw fine, rw (fine, Reach-IsBacked r e) (row_or_note s.screen.apps)),
  )
  | inr bad ↦ (Reach-IsBacked r e, cells_shown s.screen.apps, inl (rw bad))
]

-- What the edit form sends never names a capability without a box, whatever is ticked, and its
-- quotas are for exactly the capabilities that it sends.
pub edit_body_lem :
    (f : EditForm)
    → All (λ c. includes boxes c ≡ true) (edit_body f).capabilities
      × (map (λ q. q.0) (edit_body f).quotas ≡ (edit_body f).capabilities)
unfolding edit_body
edit_body_lem f = ground arith

-- Saved as it opened, the form of an application that has the capability `fetch` sends a body
-- without it.
pub edit_body-fetch :
    (app : Entry) → includes (edit_body (edit_defaults app)).capabilities "fetch" ≡ false
unfolding edit_body edit_defaults
edit_body-fetch app = ground arith
