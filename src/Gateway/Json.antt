-- ===== src/Gateway/Json.antt =====
-- The values of JSON as Python reads them: a body, and what the adapters look up in it. A float is
-- its `repr`; a float that equals an integer is left out.
use cesar_core.Base.{
  ℕ, String, Bool, true, false, not, Option, none, some, ◌==◌, nat_eq, if◌then◌else◌,
}
use cesar_core.ControlPlane.Token.{is_blank}

mutual
  pub data Json : Type 0 where
    null : Json
    bool : Bool → Json
    int : ℕ → Json
    negative : ℕ → Json
    float : String → Json
    str : String → Json
    arr : Items → Json
    obj : Fields → Json

  pub data Items : Type 0 where
    nil : Items
    cons : Json → Items → Items

  pub data Fields : Type 0 where
    end : Fields
    field : String → Json → Fields → Fields

-- `body[key]`, and `body.get(key)` where a missing key is `none`.
unfoldable pub member : String → Fields → Option Json
member key end = none
member key (field k v fields) = if k == key then some v else member key fields

-- `value[key]` of any value: `none` where it raises `KeyError` or `TypeError`.
unfoldable pub at_key : String → Json → Option Json
unfolding member
at_key key (obj fields) = member key fields
at_key key _ = none

-- `value[0]` of a list: `none` where it raises. (Of a text it is a text, whose members raise.)
unfoldable pub first_item : Json → Option Json
first_item (arr (cons v vs)) = some v
first_item _ = none

-- `isinstance(value, str)`.
abbrev pub text_of : Option Json → Option String
text_of (some (str s)) = some s
text_of _ = none

-- `value if isinstance(value, str) and value else None`.
unfoldable pub optional_string : Option Json → Option String
optional_string (some (str s)) = if is_blank s then none else some s
optional_string _ = none

-- `value if isinstance(value, int) and value >= 0 else None`: a Boolean is an integer, too.
unfoldable pub optional_int : Option Json → Option ℕ
optional_int (some (int n)) = some n
optional_int (some (bool true)) = some 1
optional_int (some (bool false)) = some 0
optional_int _ = none

-- `bool(value)`, where a missing value is false.
unfoldable pub truthy : Option Json → Bool
truthy none = false
truthy (some null) = false
truthy (some (bool b)) = b
truthy (some (int n)) = not (nat_eq n 0)
truthy (some (negative n)) = true
truthy (some (float s)) = true
truthy (some (str s)) = not (is_blank s)
truthy (some (arr nil)) = false
truthy (some (arr (cons v vs))) = true
truthy (some (obj end)) = false
truthy (some (obj (field k v vs))) = true
