-- ===== src/ControlPlane/Token/Laws.antt =====
-- The text of an issued key, read back.
use Prim.Native.Char.{Char, code}
use Prim.Native.String.{count, ◌++◌}
use Prim.Native.String.append
use cesar_core.Base.{
  ℕ, suc, ◌≤◌, String, nat_eq, ◌≡◌, refl, not, ◌&&◌, [], ◌∷◌, false, true, some, arith, Bool-cases,
  inl, inr, Bool,
}
use cesar_core.ControlPlane.Token.{
  Bytes, starts_with, drop, has_dot, split_dot, replace, compare_digest, is_blank, is_space,
  left_strip, right_strip, strip, parse_credential, token_of, issue_credential, credential_hmac,
}

dot_first : (t : String) → "." ++ t ≡ String.◌∷◌ "." t
dot_first t = simp (append.cons "." "" t, append.nil t)

prefixed : (t : String) → "cc_" ++ t ≡ String.◌∷◌ "c" (String.◌∷◌ "c" (String.◌∷◌ "_" t))
prefixed t =
    simp (append.cons "c" "c_" t, append.cons "c" "_" t, append.cons "_" "" t, append.nil t)

split_dot-token :
    (id secret : String)
    → has_dot id ≡ false
    → split_dot (id ++ String.◌∷◌ "." secret) ≡ some (id, secret)
unfolding split_dot has_dot
split_dot-token String.[] secret h = rw (append.nil (String.◌∷◌ "." secret))
split_dot-token (String.◌∷◌ c s) secret h =
    let (not_dot, rest_plain) : (nat_eq (code c) b'.' ≡ false) × (has_dot s ≡ false) =
      (ground arith, ground arith) in
    rw (append.cons c s (String.◌∷◌ "." secret), not_dot, split_dot-token s secret rest_plain)

has_dot-append : (id t : String) → has_dot (id ++ String.◌∷◌ "." t) ≡ true
unfolding has_dot
has_dot-append String.[] t = rw (append.nil (String.◌∷◌ "." t))
has_dot-append (String.◌∷◌ c s) t =
    rw (append.cons c s (String.◌∷◌ "." t)) (ground (arith, has_dot-append s t))

-- A text that is put together from an identifier without a dot and a secret of at least 32
-- characters is taken apart into the two.
pub parse_credential-token_of :
    (id secret : String)
    → has_dot id ≡ false
    → is_blank id ≡ false
    → 32 ≤ count secret
    → parse_credential (token_of id secret) ≡ some (id, secret)
unfolding parse_credential token_of
parse_credential-token_of id secret plain filled long =
    rw (dot_first secret, prefixed (id ++ String.◌∷◌ "." secret))
      (rw (has_dot-append id secret, split_dot-token id secret plain, filled) (ground arith))

replace-has_dot :
    (old : ℕ) (new : Char) (s : String)
    → nat_eq (code new) b'.' ≡ false
    → has_dot s ≡ false
    → has_dot (replace old new s) ≡ false
unfolding has_dot replace
replace-has_dot old new String.[] n h = refl
replace-has_dot old new (String.◌∷◌ c s) n h =
    let rest = replace-has_dot old new s n (ground arith) in
    elim (Bool-cases (nat_eq (code c) old)) [
      | inl e ↦ rw (e, n, rest)
      | inr e ↦ rw (e, rest) (ground arith)
    ]

replace-filled :
    (old : ℕ) (new : Char) (s : String) → is_blank s ≡ false → is_blank (replace old new s) ≡ false
unfolding replace
replace-filled old new String.[] h = absurd (ground arith)
replace-filled old new (String.◌∷◌ c s) h = refl

-- A key that is issued from a random text without a dot and a random secret of at least 32
-- characters is read back as its identifier and its secret, and the digest that goes to the tables is
-- the one of these two under the pepper.
pub parse_credential-issue :
    (utf8 : String → Bytes) (hmac_sha256 : Bytes → Bytes → Bytes) (hex_tail : Bytes → String)
    (random_id secret : String) (pepper : Bytes)
    → has_dot random_id ≡ false
    → is_blank random_id ≡ false
    → 32 ≤ count secret
    → (parse_credential (issue_credential utf8 hmac_sha256 hex_tail random_id secret pepper).token
        ≡ some ((issue_credential utf8 hmac_sha256 hex_tail random_id secret pepper).id, secret))
      × ((issue_credential utf8 hmac_sha256 hex_tail random_id secret pepper).secret_hmac
          ≡ credential_hmac utf8 hmac_sha256 hex_tail pepper
              (issue_credential utf8 hmac_sha256 hex_tail random_id secret pepper).id
              secret)
unfolding issue_credential
parse_credential-issue utf8 hmac hex random_id secret pepper plain filled long = (
  parse_credential-token_of _ secret
      (replace-has_dot b'_' "y" _ refl (replace-has_dot b'-' "x" random_id refl plain))
      (replace-filled b'_' "y" _ (replace-filled b'-' "x" random_id filled)) long,
  refl,
)

-- No character of a text is a space.
abbrev pub spaceless : String → Bool
spaceless String.[] = true
spaceless (String.◌∷◌ c s) = not (is_space (code c)) && spaceless s

right_strip-spaceless : (s : String) → spaceless s ≡ true → right_strip s ≡ s
unfolding right_strip
right_strip-spaceless String.[] h = refl
right_strip-spaceless (String.◌∷◌ c s) h =
    let (solid, rest) : (is_space (code c) ≡ false) × (spaceless s ≡ true) =
      (ground arith, ground arith) in
    rw (right_strip-spaceless s rest, solid) (ground arith)

pub strip-spaceless : (s : String) → spaceless s ≡ true → strip s ≡ s
unfolding strip left_strip
strip-spaceless String.[] h = right_strip-spaceless "" h
strip-spaceless (String.◌∷◌ c s) h =
    let solid : is_space (code c) ≡ false = ground arith in
    rw (solid) (right_strip-spaceless (String.◌∷◌ c s) h)

pub compare_digest_refl : (a : Bytes) → compare_digest a a ≡ true
unfolding compare_digest
compare_digest_refl [] = refl
compare_digest_refl (x ∷ a) = ground (arith, compare_digest_refl a)

pub compare_digest_eq : (a b : Bytes) → compare_digest a b ≡ true → a ≡ b
unfolding compare_digest
compare_digest_eq [] [] h = refl
compare_digest_eq [] (y ∷ b) h = absurd (ground arith)
compare_digest_eq (x ∷ a) [] h = absurd (ground arith)
compare_digest_eq (x ∷ a) (y ∷ b) h = ground (arith, compare_digest_eq a b)

starts_with-append : (p t : String) → starts_with p (p ++ t) ≡ true
unfolding starts_with
starts_with-append String.[] t = refl
starts_with-append (String.◌∷◌ c p) t =
    rw (append.cons c p t) (ground (arith, starts_with-append p t))

-- The length of a text, by clauses.
abbrev characters : String → ℕ
characters String.[] = 0
characters (String.◌∷◌ c s) = suc (characters s)

drop-append : (p t : String) → drop (characters p) (p ++ t) ≡ t
unfolding drop
drop-append String.[] t = append.nil t
drop-append (String.◌∷◌ c p) t = rw (append.cons c p t) (drop-append p t)

pub bearer_header :
    (t : String) → (starts_with "Bearer " ("Bearer " ++ t) ≡ true) × (drop 7 ("Bearer " ++ t) ≡ t)
bearer_header t = (starts_with-append "Bearer " t, drop-append "Bearer " t)

pub parsed-filled :
    (t : String) (p : String × String) → parse_credential t ≡ some p → is_blank t ≡ false
unfolding parse_credential
parsed-filled String.[] p h = absurd (ground arith)
parsed-filled (String.◌∷◌ c t) p h = refl
