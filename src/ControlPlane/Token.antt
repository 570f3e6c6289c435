-- ===== src/ControlPlane/Token.antt =====
-- admin/crypto.py: the texts of issued keys, and the digests that stand for them in the tables. The
-- SHA-256 functions of Python's library and its random texts are parameters.
pub mod Laws
use mathlib.Core.Option
use Prim.Native.Char.{Char, code}
use Prim.Native.String.{count, ◌++◌}
use cesar_core.Base.{
  ℕ, zero, suc, ◌-◌, String, Bool, true, false, not, ◌&&◌, ◌||◌, Option, none, some, List, [], ◌∷◌,
  ◌==◌, ltb, leb, nat_eq, length, if◌then◌else◌,
}

abbrev pub Bytes : Type 0
Bytes = List ℕ

-- `not text`.
abbrev pub is_blank : String → Bool
is_blank String.[] = true
is_blank (String.◌∷◌ c s) = false

-- `text.startswith(prefix)`.
unfoldable pub starts_with : String → String → Bool
starts_with String.[] text = true
starts_with (String.◌∷◌ c s) String.[] = false
starts_with (String.◌∷◌ c s) (String.◌∷◌ d t) = nat_eq (code c) (code d) && starts_with s t

-- `text[n:]`.
unfoldable pub drop : ℕ → String → String
drop zero text = text
drop (suc n) String.[] = ""
drop (suc n) (String.◌∷◌ c s) = drop n s

-- `"." in text`.
unfoldable pub has_dot : String → Bool
has_dot String.[] = false
has_dot (String.◌∷◌ c s) = nat_eq (code c) b'.' || has_dot s

-- `text.split(".", 1)`, where there is a dot.
unfoldable pub split_dot : String → Option (String × String)
split_dot String.[] = none
split_dot (String.◌∷◌ c s) =
    let rest = split_dot s in
    if nat_eq (code c) b'.'
    then some ("", s)
    else Option.map (λ (p : String × String). (String.◌∷◌ c p.0, p.1)) rest

-- `text.replace(old, new)` for single characters.
unfoldable pub replace : ℕ → Char → String → String
replace old new String.[] = ""
replace old new (String.◌∷◌ c s) =
    let rest = replace old new s in String.◌∷◌ (if nat_eq (code c) old then new else c) rest

-- `str.isspace` of a character.
unfoldable pub is_space : ℕ → Bool
is_space n =
    (leb 9 n && leb n 13)
    || (leb 28 n && leb n 32)
    || nat_eq n 133
    || nat_eq n 160
    || nat_eq n 5760
    || (leb 8192 n && leb n 8202)
    || nat_eq n 8232
    || nat_eq n 8233
    || nat_eq n 8239
    || nat_eq n 8287
    || nat_eq n 12288

unfoldable pub left_strip : String → String
left_strip String.[] = ""
left_strip (String.◌∷◌ c s) =
    let rest = left_strip s in if is_space (code c) then rest else String.◌∷◌ c s

unfoldable pub right_strip : String → String
right_strip String.[] = ""
right_strip (String.◌∷◌ c s) =
    let rest = right_strip s in if is_blank rest && is_space (code c) then "" else String.◌∷◌ c rest

-- `text.strip()`.
unfoldable pub strip : String → String
unfolding left_strip right_strip
strip text = right_strip (left_strip text)

-- The characters that `bytes.strip` removes.
abbrev pub is_byte_space : ℕ → Bool
is_byte_space n = (leb 9 n && leb n 13) || nat_eq n 32

unfoldable pub left_bytes : Bytes → Bytes
left_bytes [] = []
left_bytes (b ∷ bs) = let rest = left_bytes bs in if is_byte_space b then rest else b ∷ bs

unfoldable pub right_bytes : Bytes → Bytes
right_bytes [] = []
right_bytes (b ∷ bs) =
    let rest = right_bytes bs in if nat_eq (length rest) 0 && is_byte_space b then [] else b ∷ rest

-- `hmac.compare_digest`.
unfoldable pub compare_digest : Bytes → Bytes → Bool
compare_digest [] [] = true
compare_digest (x ∷ a) (y ∷ b) = nat_eq x y && compare_digest a b
compare_digest _ _ = false

-- The path of a secret in the configuration: not set, naming no file, naming a file that cannot be
-- read, or naming one with some contents.
pub data File {ℓ} (Contents : Type ℓ) : Type ℓ where
  unset missing unreadable : File Contents
  holds : Contents → File Contents

-- `read_required`: `none` where it raises.
unfoldable pub read_required : File Bytes → Option Bytes
unfolding left_bytes right_bytes
read_required (holds contents) =
    let value = right_bytes (left_bytes contents) in
    if ltb (length value) 32 then none else some value
read_required _ = none

unfoldable pub parse_credential : String → Option (String × String)
unfolding starts_with has_dot split_dot drop
parse_credential token =
    if not (starts_with "cc_" token) || not (has_dot token)
    then none
    else elim (split_dot (drop 3 token)) [
      | none ↦ none
      | some (id, secret) ↦ if is_blank id || ltb (count secret) 32 then none else some (id, secret)
    ]

-- `f"cc_{credential_id}.{secret}"`.
unfoldable pub token_of : String → String → String
token_of id secret = "cc_" ++ (id ++ ("." ++ secret))

pub record Issued : Type 0 where
  pub id : String
  pub token : String
  pub fingerprint : String
  pub secret_hmac : Bytes

-- The UTF-8 of a text, SHA-256 under a key, and the last twelve digits of SHA-256 in base 16.
module _ (utf8 : String → Bytes) (hmac_sha256 : Bytes → Bytes → Bytes)
    (hex_tail : Bytes → String) where
  unfoldable pub credential_hmac : Bytes → String → String → Bytes
  credential_hmac pepper id secret = hmac_sha256 pepper (utf8 (id ++ ("." ++ secret)))

  -- `random_id` and `secret` are the random texts.
  unfoldable pub issue_credential : String → String → Bytes → Issued
  unfolding replace token_of credential_hmac
  issue_credential random_id secret pepper =
      let id = replace b'_' "y" (replace b'-' "x" random_id) in
      record {
        id = id;
        token = token_of id secret;
        fingerprint = hex_tail (utf8 (token_of id secret));
        secret_hmac = credential_hmac pepper id secret;
      }
