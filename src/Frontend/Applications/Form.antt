-- ===== src/Frontend/Applications/Form.antt =====
-- The dialogs of Applications.tsx: what the forms send, and their errors.
use cesar_core.Base.{
  ℕ, String, Bool, Option, none, some, List, [], ◌∷◌, ◌==◌, or_else, map, keep, includes,
  if◌then◌else◌, Dict, lookup,
}
use cesar_core.Frontend.Api.{Reply, ok, failed}
use cesar_core.Frontend.Applications.{Entry, Screen, done_create, done_edit}

-- The form of `Create`, as `FormData` gives it, and the body that it sends.
pub record CreateForm : Type 0 where
  pub id : String
  pub name : String
  pub client : String

pub record CreateBody : Type 0 where
  pub id : String
  pub display_name : String
  pub client_id : String

unfoldable pub create_body : CreateForm → CreateBody
create_body f = record { id = f.id; display_name = f.name; client_id = f.client }

-- The form of `Edit`: the boxes that are ticked, and the quotas, where an empty field is `none`.
pub record EditForm : Type 0 where
  pub name : String
  pub state : String
  pub ticked : String → Bool
  pub quota : String → Option ℕ

-- The capabilities for which the form has a box.
abbrev pub boxes : List String
boxes = "ai" ∷ "search" ∷ []

-- What the fields hold when the dialog opens; of the state, only two values have an option, and the
-- browser takes the first where none is the application's.
unfoldable pub edit_defaults : Entry → EditForm
edit_defaults app = record {
  name = app.display_name;
  state = if app.state == "active" then "active" else "disabled";
  ticked = includes app.capabilities;
  quota = λ c. some (or_else (lookup c app.quotas) 60);
}

pub record EditBody : Type 0 where
  pub display_name : String
  pub state : String
  pub capabilities : List String
  pub quotas : Dict ℕ

-- `Number(…)` of an empty field is 0.
unfoldable pub edit_body : EditForm → EditBody
edit_body f =
    let caps = keep f.ticked boxes in
    record {
      display_name = f.name;
      state = f.state;
      capabilities = caps;
      quotas = map (λ c. (c, or_else (f.quota c) 0)) caps;
    }

-- A dialog's request has settled: its error, and the screen behind it.
unfoldable pub create_replied : {A : Type 0} → Reply A → String × Screen → String × Screen
create_replied (ok a) (error, s) = (error, done_create s)
create_replied (failed message) (error, s) = (message, s)

unfoldable pub edit_replied : {A : Type 0} → Reply A → String × Screen → String × Screen
edit_replied (ok a) (error, s) = (error, done_edit s)
edit_replied (failed message) (error, s) = (message, s)

-- What the dialog `Edit` renders: nothing without an application, and every control but the name
-- disabled for a protected one.
pub record EditView : Type 0 where
  pub title_name : String
  pub fields : EditForm
  pub controls_disabled : Bool
  pub protected_note : Bool
  pub error : Option String
  pub save_disabled : Bool

unfoldable pub render_edit : String → Option Entry → Option EditView
unfolding edit_defaults
render_edit error none = none
render_edit error (some app) = some (record {
  title_name = app.display_name;
  fields = edit_defaults app;
  controls_disabled = app.is_protected;
  protected_note = app.is_protected;
  error = if error == "" then none else some error;
  save_disabled = app.is_protected;
})
