-- ===== src/Frontend/Api/Examples.antt =====
-- Responses: runs at concrete values.
use cesar_core.Base.{ℕ, String, ◌≡◌, refl, Option, none, some}
use cesar_core.Frontend.Api.{Reply, ok, Response, settle, result}

-- The JSON values of the example are numbers, without properties.
abbrev no_detail : ℕ → Reply (Option String)
no_detail j = ok none

abbrev created : Response ℕ
created = record { status = 201; json = ok 5 }

settled_value : settle no_detail (ok created) ≡ ok (some 5)
unfolding settle result
settled_value = refl

settled_empty : settle no_detail (ok (record created { status = 204 })) ≡ ok none
unfolding settle result
settled_empty = refl
