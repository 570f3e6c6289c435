-- ===== src/Security/Authentication.antt =====
-- security/authentication.py, with applications/registry.py and security/credentials.py: which
-- application a request comes from. Texts that are not UTF-8 are left out.
pub mod Laws
mod Examples
use Prim.Native.Char.{Char, code}
use Prim.Native.String.{count}
use cesar_core.Base.{
  ℕ, String, Bool, true, false, not, ◌&&◌, ◌||◌, Option, none, some, ◌==◌, leb, nat_eq, is_some,
  if◌then◌else◌,
}
use cesar_core.ControlPlane.Registry.{State, active, Registry, find, granted, Capability}
use cesar_core.ControlPlane.Credentials.{Store, credential_digest}
use cesar_core.ControlPlane.Token.{
  Bytes, File, unset, missing, unreadable, holds, is_blank, starts_with, drop, strip, read_required,
  parse_credential, credential_hmac, compare_digest,
}

-- `SecurityConfig.gg_oferta_api_key_file` and `AdminConfig.credential_pepper_file`.
pub record Config : Type 0 where
  pub api_key_file : File String
  pub pepper_file : File Bytes

-- The errors of security/errors.py, and `crashed` for one that `authenticate` does not expect.
pub data Denial : Type 0 where
  not_configured invalid_credential access_denied crashed : Denial

pub data Access {ℓ} (Who : Type ℓ) : Type ℓ where
  denied : Denial → Access Who
  granted_to : Who → Access Who

-- `is_configured`.
unfoldable pub is_configured : File String → Bool
is_configured (holds text) = not (is_blank (strip text))
is_configured _ = false

-- `Path.is_file`.
abbrev pub is_file {ℓ} : {Contents : Type ℓ} → File Contents → Bool
is_file unset = false
is_file missing = false
is_file unreadable = true
is_file (holds contents) = true

-- `read_secret`: `none` where it raises.
unfoldable pub read_secret : String → Option String
read_secret text = let value = strip text in if is_blank value then none else some value

-- `ApplicationId.PATTERN`.
unfoldable pub id_tail : String → Bool
id_tail String.[] = true
id_tail (String.◌∷◌ c s) =
    (leb b'a' (code c) && leb (code c) b'z'
      || (leb b'0' (code c) && leb (code c) b'9')
      || nat_eq (code c) b'_')
    && id_tail s

unfoldable pub is_id : String → Bool
unfolding id_tail
is_id String.[] = false
is_id (String.◌∷◌ c s) =
    leb b'a' (code c) && leb (code c) b'z' && id_tail s && leb 2 (count s) && leb (count s) 62

-- `is_active`: `none` where the application is missing, which raises `KeyError`.
unfoldable pub is_active : String → Registry → Option Bool
is_active id r = elim (find id r.applications) [
  | none ↦ none
  | some a ↦ some (elim a.state [ active ↦ true | _ ↦ false ])
]

abbrev pub admitted : String → Option Bool → Access String
admitted id none = denied crashed
admitted id (some false) = denied access_denied
admitted id (some true) = granted_to id

-- The credential of `gg_oferta` in a file.
unfoldable pub legacy : Config → String → Store → Access String
legacy config candidate s = elim config.api_key_file [
  | unset ↦ denied invalid_credential
  | missing ↦ denied not_configured
  | unreadable ↦ denied not_configured
  | holds text ↦ elim (read_secret text) [
    | none ↦ denied not_configured
    | some expected ↦
        if candidate == expected
        then admitted "gg_oferta" (is_active "gg_oferta" s.registry)
        else denied invalid_credential
  ]
]

module _ (utf8 : String → Bytes) (hmac_sha256 : Bytes → Bytes → Bytes)
    (hex_tail : Bytes → String) where
  -- A key of the tables.
  unfoldable pub dynamic : Config → String → String → Store → Access String
  dynamic config id secret s = elim (read_required config.pepper_file) [
    | none ↦ denied not_configured
    | some pepper ↦ elim (credential_digest id s.credentials) [
      | none ↦ denied invalid_credential
      | some (application_id, digest) ↦
          if not
            (compare_digest (credential_hmac utf8 hmac_sha256 hex_tail pepper id secret) digest)
          then denied invalid_credential
          else if not (is_id application_id)
          then denied crashed
          else admitted application_id (is_active application_id s.registry)
    ]
  ]

  unfoldable pub authenticate : Config → Option String → Store → Access String
  authenticate config authorization s =
      if not (is_configured config.api_key_file) && not (is_file config.pepper_file)
      then denied not_configured
      else elim authorization [
        | none ↦ denied invalid_credential
        | some header ↦
            let candidate = strip (drop 7 header) in
            if not (starts_with "Bearer " header)
            then denied invalid_credential
            else if is_blank candidate
            then denied invalid_credential
            else elim (parse_credential candidate) [
              | some (id, secret) ↦ dynamic config id secret s
              | none ↦ legacy config candidate s
            ]
      ]
