-- ===== src/Security/Authentication/Examples.antt =====
-- Runs of the authentication, and of the life of a key.
use Prim.Native.Char.{code}
use Prim.Native.String.{◌++◌}
use cesar_core.Base.{
  ℕ, ◌%◌, String, ◌≡◌, ◌≢◌, ◌⊎◌, refl, true, false, none, some, [], ◌∷◌, length, arith,
}
use cesar_core.ControlPlane.Registry.{active, Application, Registry, find}
use cesar_core.ControlPlane.Credentials.{
  Store, credential_digest, revoke_credential, create_credential, issued, insert_credential, taken,
}
use cesar_core.ControlPlane.Credentials.Steps.{now, later, revoked}
use cesar_core.ControlPlane.Credentials.Laws.{IsDead, revoked_for_good}
use cesar_core.ControlPlane.Token.{
  Bytes, unset, holds, has_dot, split_dot, replace, is_space, left_strip, right_strip, left_bytes,
  right_bytes, strip, drop, starts_with, read_required, parse_credential, credential_hmac, token_of,
  Issued, issue_credential,
}
use cesar_core.Security.Authentication.{
  Config, denied, granted_to, invalid_credential, not_configured, is_configured, is_id, id_tail,
  authenticate,
}
use cesar_core.Security.Authentication.Laws.{authenticate-granted, revoked-denied, issued-granted}

abbrev utf8 : String → Bytes
utf8 String.[] = []
utf8 (String.◌∷◌ c s) = code c ∷ utf8 s

abbrev repeated : ℕ → Bytes
repeated ℕ.zero = []
repeated (ℕ.suc n) = 7 ∷ repeated n

-- A digest of 32 bytes.
abbrev hmac : Bytes → Bytes → Bytes
hmac key message = length message % 256 ∷ repeated 31

abbrev hex_tail : Bytes → String
hex_tail bytes = "0123456789ab"

abbrev secret : String
secret = "0123456789abcdef0123456789abcdef"

abbrev gg_oferta : Application
gg_oferta = record {
  id = "gg_oferta";
  display_name = "GG Oferta";
  client_id = "ggoferta-core-client";
  state = active;
  is_protected = false;
  created_at = 0;
  updated_at = 0;
}

abbrev registry : Registry
registry = record { applications = gg_oferta ∷ []; grants = []; policies = [] }

abbrev before : Store
before = record { registry = registry; credentials = [] }

abbrev key : Issued
key = record {
  id = "axb";
  token = "cc_axb.0123456789abcdef0123456789abcdef";
  fingerprint = "0123456789ab";
  secret_hmac = 36 ∷ repeated 31;
}

abbrev with_key : Store
with_key = record {
  registry = registry;
  credentials =
      record {
        id = "axb";
        application_id = "gg_oferta";
        name = "dev";
        fingerprint = "0123456789ab";
        secret_hmac = 36 ∷ repeated 31;
        created_at = 5;
        revoked_at = none;
        last_used_at = none;
      }
      ∷ [];
}

abbrev config : Config
config = record { api_key_file = unset; pepper_file = holds (repeated 40) }

made :
    create_credential utf8 hmac hex_tail config.pepper_file "a-b" secret "gg_oferta" "dev" 5 before
    ≡ (with_key, issued key)
unfolding create_credential insert_credential issue_credential credential_hmac token_of replace
    read_required left_bytes right_bytes find taken
made = refl

issued-granted_example :
    authenticate utf8 hmac hex_tail config (some ("Bearer " ++ key.token)) with_key
    ≡ granted_to "gg_oferta"
unfolding has_dot is_space find is_id id_tail
issued-granted_example =
    issued-granted utf8 hmac hex_tail config "a-b" secret "gg_oferta" "dev" 5 before with_key key
      gg_oferta made refl refl (omega arith) refl refl refl refl

accepted_key :
    authenticate utf8 hmac hex_tail config
      (some "Bearer cc_axb.0123456789abcdef0123456789abcdef")
      with_key
    ≡ granted_to "gg_oferta"
accepted_key = issued-granted_example

authenticate-granted_example :
    (starts_with "Bearer " "Bearer cc_axb.0123456789abcdef0123456789abcdef" ≡ true)
    × ((a : Application) × (find "gg_oferta" registry.applications ≡ some a) × (a.state ≡ active))
    × (((i x : String) × (pepper : Bytes) × (parse_credential
              (strip (drop 7 "Bearer cc_axb.0123456789abcdef0123456789abcdef"))
            ≡ some (i, x))
          × (read_required config.pepper_file ≡ some pepper)
          × (credential_digest i with_key.credentials
              ≡ some ("gg_oferta", credential_hmac utf8 hmac hex_tail pepper i x)))
        ⊎ ((text : String) × ◌≡◌ {A = String} "gg_oferta" "gg_oferta"
            × (config.api_key_file ≡ holds text)
            × (strip (drop 7 "Bearer cc_axb.0123456789abcdef0123456789abcdef") ≡ strip text)))
authenticate-granted_example =
    authenticate-granted utf8 hmac hex_tail config "Bearer cc_axb.0123456789abcdef0123456789abcdef"
      "gg_oferta" with_key accepted_key

live : credential_digest "axb" with_key.credentials ≡ some ("gg_oferta", 36 ∷ repeated 31)
unfolding credential_digest
live = refl

-- The key is revoked at 9, and once more at 12.
abbrev revoked_twice : Store
revoked_twice = (revoke_credential "axb" 12 (revoke_credential "axb" 9 with_key).0).0

revoked_for_good_example : IsDead "axb" revoked_twice
revoked_for_good_example =
    revoked_for_good "axb" 9 ("gg_oferta", 36 ∷ repeated 31) with_key revoked_twice live
      (later now (revoked "axb" 12))

revoked-denied_example :
    authenticate utf8 hmac hex_tail config
      (some "Bearer cc_axb.0123456789abcdef0123456789abcdef")
      revoked_twice
    ≢ granted_to "gg_oferta"
unfolding parse_credential strip drop left_strip right_strip is_space has_dot split_dot starts_with
revoked-denied_example =
    revoked-denied utf8 hmac hex_tail config "axb" secret
      "Bearer cc_axb.0123456789abcdef0123456789abcdef" "gg_oferta" 9 ("gg_oferta", 36 ∷ repeated 31)
      with_key revoked_twice live (later now (revoked "axb" 12)) refl

without_header : authenticate utf8 hmac hex_tail config none with_key ≡ denied invalid_credential
unfolding authenticate is_configured
without_header = refl

without_files :
    authenticate utf8 hmac hex_tail
      (record { api_key_file = unset; pepper_file = unset })
      none
      with_key
    ≡ denied not_configured
unfolding authenticate is_configured
without_files = refl
