-- ===== src/Frontend/Components.antt =====
-- frontend/src/components.tsx: the badge of a status, the theme switch, the modal and the field.
use Prim.Native.Char.{Char, code}
use cesar_core.Base.{
  String, Bool, Option, none, some, List, [], ◌∷◌, nat_eq, includes, if◌then◌else◌,
}

-- `value.replaceAll("_", " ")`.
unfoldable pub spaced : String → String
spaced String.[] = String.[]
spaced (String.◌∷◌ c s) =
    let rest = spaced s in
    let space : Char = " " in String.◌∷◌ (if nat_eq (code c) b'_' then space else c) rest

pub data Tone : Type 0 where
  emerald amber rose : Tone

abbrev pub fine_values : List String
fine_values = "active" ∷ "available" ∷ "healthy" ∷ "ok" ∷ "success" ∷ []

abbrev pub warned_values : List String
warned_values = "reserved" ∷ "disabled" ∷ "not_configured" ∷ []

unfoldable pub tone : String → Tone
tone value =
    if includes fine_values value
    then emerald
    else if includes warned_values value
    then amber
    else rose

pub record Badge : Type 0 where
  pub colour : Tone
  pub label : String

-- The badge that `Status` shows.
unfoldable pub status : String → Badge
unfolding tone spaced
status value = record { colour = tone value; label = spaced value }

pub record ThemeButton : Type 0 where
  pub aria_label : String
  pub sun_icon : Bool

unfoldable pub theme_toggle : Bool → ThemeButton
theme_toggle dark = record {
  aria_label = if dark then "Usar tema claro" else "Usar tema escuro";
  sun_icon = dark;
}

-- A dialog, which shows its title and children only while it is open.
unfoldable pub modal {ℓ} : {A : Type ℓ} → Bool → String → A → Option (String × A)
modal opened title children = if opened then some (title, children) else none
