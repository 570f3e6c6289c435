-- ===== src/Security/Authentication/Laws.antt =====
-- Who is admitted, and with which key.
use Prim.Native.String.{count, ◌++◌}
use cesar_core.Base.{
  ℕ, ◌≤◌, String, ◌≡◌, ◌≢◌, ◌⊎◌, refl, sym, true, false, none, some, arith, Option-cases, inl, inr,
  eq_iff,
}
use cesar_core.ControlPlane.Registry.{active, Application, Registry, find}
use cesar_core.ControlPlane.Credentials.{
  Store, credential_digest, revoke_credential, create_credential, issued,
}
use cesar_core.ControlPlane.Credentials.Steps.{Later}
use cesar_core.ControlPlane.Credentials.Laws.{revoked_for_good}
use cesar_core.ControlPlane.Token.{
  Bytes, File, unset, missing, unreadable, holds, has_dot, is_blank, strip, drop, starts_with,
  read_required, parse_credential, credential_hmac, Issued,
}
use cesar_core.ControlPlane.Token.Laws.{
  compare_digest_refl, compare_digest_eq, spaceless, strip-spaceless, parse_credential-issue,
  parsed-filled, bearer_header,
}
use cesar_core.ControlPlane.Credentials.Fresh.{create-issued}
use cesar_core.Security.Authentication.{
  Config, granted_to, is_active, is_file, dynamic, legacy, authenticate, read_secret, is_id,
}

active_application :
    (app : String) (r : Registry)
    → is_active app r ≡ some true
    → (a : Application) × (find app r.applications ≡ some a) × (a.state ≡ active)
unfolding is_active
active_application app r h = elim (Option-cases (find app r.applications)) [
  | inl e ↦ absurd (ground arith)
  | inr (a, e) ↦ (a, e, ground arith)
]

file_cases {ℓ} :
    {A : Type ℓ} (f : File A)
    → ((a : A) × (f ≡ holds a)) ⊎ ((f ≡ unset) ⊎ ((f ≡ missing) ⊎ (f ≡ unreadable)))
file_cases unset = inr (inl refl)
file_cases missing = inr (inr (inl refl))
file_cases unreadable = inr (inr (inr refl))
file_cases (holds a) = inl (a, refl)

legacy-granted :
    (config : Config) (candidate app : String) (s : Store)
    → legacy config candidate s ≡ granted_to app
    → (text : String) × (app ≡ "gg_oferta")
      × (config.api_key_file ≡ holds text)
      × (candidate ≡ strip text)
      × (is_active app s.registry ≡ some true)
unfolding legacy read_secret
legacy-granted config candidate app s h = elim (file_cases config.api_key_file) [
  | inl (text, e) ↦
      (text, ground arith, e, ground (arith, eq_iff candidate (strip text)), ground arith)
  | inr (inl e) ↦ absurd (ground arith)
  | inr (inr (inl e)) ↦ absurd (ground arith)
  | inr (inr (inr e)) ↦ absurd (ground arith)
]

active-found :
    (app : String) (r : Registry) (a : Application)
    → find app r.applications ≡ some a
    → a.state ≡ active
    → is_active app r ≡ some true
unfolding is_active
active-found app r a found on = rw (found, is_active) (rw on)

read-is_file : (f : File Bytes) (pepper : Bytes) → read_required f ≡ some pepper → is_file f ≡ true
unfolding read_required
read-is_file unset pepper h = absurd (ground arith)
read-is_file missing pepper h = absurd (ground arith)
read-is_file unreadable pepper h = refl
read-is_file (holds b) pepper h = refl

module _ (utf8 : String → Bytes) (hmac_sha256 : Bytes → Bytes → Bytes)
    (hex_tail : Bytes → String) where
  dynamic-granted :
      (config : Config) (id secret app : String) (s : Store)
      → dynamic utf8 hmac_sha256 hex_tail config id secret s ≡ granted_to app
      → (pepper digest : Bytes) × (read_required config.pepper_file ≡ some pepper)
        × (credential_digest id s.credentials ≡ some (app, digest))
        × (digest ≡ credential_hmac utf8 hmac_sha256 hex_tail pepper id secret)
        × (is_active app s.registry ≡ some true)
  unfolding dynamic
  dynamic-granted config id secret app s h =
      elim (Option-cases (read_required config.pepper_file)) [
        | inl e ↦ absurd (ground arith)
        | inr (pepper, e) ↦ elim (Option-cases (credential_digest id s.credentials)) [
          | inl d ↦ absurd (ground arith)
          | inr ((found, digest), d) ↦ (
            pepper,
            digest,
            e,
            ground arith,
            sym (
                compare_digest_eq (credential_hmac utf8 hmac_sha256 hex_tail pepper id secret)
                  digest (ground arith)),
            ground arith,
          )
        ]
      ]

  accepted :
      (config : Config) (header app : String) (s : Store)
      → authenticate utf8 hmac_sha256 hex_tail config (some header) s ≡ granted_to app
      → (starts_with "Bearer " header ≡ true)
        × (((id secret : String) × (parse_credential (strip (drop 7 header)) ≡ some (id, secret))
              × (dynamic utf8 hmac_sha256 hex_tail config id secret s ≡ granted_to app))
            ⊎ ((parse_credential (strip (drop 7 header)) ≡ none)
                × (legacy config (strip (drop 7 header)) s ≡ granted_to app)))
  unfolding authenticate
  accepted config header app s h = (
    ground arith,
    elim (Option-cases (parse_credential (strip (drop 7 header)))) [
      | inl e ↦ inr (e, ground arith)
      | inr ((id, secret), e) ↦ inl (id, secret, e, ground arith)
    ],
  )

  -- Who is admitted sent a Bearer header, belongs to an active application, and holds either an
  -- unrevoked key of that application, whose digest under the pepper is the one of the tables, or the
  -- text of the key file of `gg_oferta`.
  pub authenticate-granted :
      (config : Config) (header app : String) (s : Store)
      → authenticate utf8 hmac_sha256 hex_tail config (some header) s ≡ granted_to app
      → (starts_with "Bearer " header ≡ true)
        × ((a : Application) × (find app s.registry.applications ≡ some a) × (a.state ≡ active))
        × (((id secret : String) × (pepper : Bytes) × (parse_credential (strip (drop 7 header))
                ≡ some (id, secret))
              × (read_required config.pepper_file ≡ some pepper)
              × (credential_digest id s.credentials
                  ≡ some (app, credential_hmac utf8 hmac_sha256 hex_tail pepper id secret)))
            ⊎ ((text : String) × (app ≡ "gg_oferta")
                × (config.api_key_file ≡ holds text)
                × (strip (drop 7 header) ≡ strip text)))
  authenticate-granted config header app s h =
      let (bearer, way) = accepted config header app s h in
      elim way [
        | inl (id, secret, parsed, in_tables) ↦
            let (pepper, digest, read, found, same, live) =
              dynamic-granted config id secret app s in_tables in
            (
              bearer,
              (active_application app s.registry live),
              inl (id, secret, pepper, parsed, read, ground (arith, found, same)),
            )
        | inr (_, in_file) ↦
            let (text, is_gg_oferta, held, same, live) =
              legacy-granted config (strip (drop 7 header)) app s in_file in
            (bearer, active_application app s.registry live, inr (text, is_gg_oferta, held, same))
      ]

  -- A key that was active when it was revoked admits nobody, whatever operations came since.
  pub revoked-denied :
      (config : Config) (id secret header app : String) (at : ℕ) (key : String × Bytes)
      (s t : Store)
      → credential_digest id s.credentials ≡ some key
      → Later (revoke_credential id at s).0 t
      → parse_credential (strip (drop 7 header)) ≡ some (id, secret)
      → authenticate utf8 hmac_sha256 hex_tail config (some header) t ≢ granted_to app
  revoked-denied config id secret header app at key s t live run parsed h =
      let d = revoked_for_good id at key s t live run in
      elim (accepted config header app t h).1 [
        | inl (i, x, p, in_tables) ↦
            let (pepper, digest, _, found, _, _) = dynamic-granted config i x app t in_tables in
            ground (arith, found, d.inactive, p, parsed)
        | inr (p, _) ↦ ground (arith, p, parsed)
      ]

  in_tables :
      (config : Config) (id secret app : String) (t : Store) (pepper : Bytes)
      → read_required config.pepper_file ≡ some pepper
      → credential_digest id t.credentials
        ≡ some (app, credential_hmac utf8 hmac_sha256 hex_tail pepper id secret)
      → is_id app ≡ true
      → is_active app t.registry ≡ some true
      → (is_file config.pepper_file ≡ true)
        × (dynamic utf8 hmac_sha256 hex_tail config id secret t ≡ granted_to app)
  unfolding dynamic
  in_tables config id secret app t pepper read found named live = (
    read-is_file config.pepper_file pepper read,
    rw (read, dynamic)
        (rw (found) (
          rw (
            compare_digest_refl (credential_hmac utf8 hmac_sha256 hex_tail pepper id secret),
            named,
            live,
          ))),
  )

  bearer_granted :
      (config : Config) (token id secret app : String) (t : Store)
      → spaceless token ≡ true
      → parse_credential token ≡ some (id, secret)
      → (is_file config.pepper_file ≡ true)
        × (dynamic utf8 hmac_sha256 hex_tail config id secret t ≡ granted_to app)
      → authenticate utf8 hmac_sha256 hex_tail config (some ("Bearer " ++ token)) t ≡ granted_to app
  unfolding authenticate
  bearer_granted config token id secret app t solid parsed (file, granted) =
      let (bearer, rest) = bearer_header token in
      let stripped = strip-spaceless token solid in
      let filled = parsed-filled token (id, secret) parsed in
      rw (bearer, rest, stripped, filled, parsed, file) (ground (arith, granted))

  -- A key that `create_credential` issues, from a random text without a dot and a random secret of at
  -- least 32 characters, without spaces in the key, admits its application over the tables that it
  -- leaves, if the application is active and has a valid identifier.
  pub issued-granted :
      (config : Config) (random_id secret app name : String) (at : ℕ) (s t : Store) (key : Issued)
      (a : Application)
      → create_credential utf8 hmac_sha256 hex_tail config.pepper_file random_id secret app name at
          s
        ≡ (t, issued key)
      → has_dot random_id ≡ false
      → is_blank random_id ≡ false
      → 32 ≤ count secret
      → spaceless key.token ≡ true
      → find app s.registry.applications ≡ some a
      → a.state ≡ active
      → is_id app ≡ true
      → authenticate utf8 hmac_sha256 hex_tail config (some ("Bearer " ++ key.token)) t
        ≡ granted_to app
  issued-granted config random_id secret app name at s t key a made plain filled long solid found on
        named =
      let (pepper, read, same, live, kept) =
        create-issued utf8 hmac_sha256 hex_tail config.pepper_file random_id secret app name at s t
          key made in
      let (parsed, digest) =
        parse_credential-issue utf8 hmac_sha256 hex_tail random_id secret pepper plain filled
          long in
      let parsed_key : parse_credential key.token ≡ some (key.id, secret) = rw (sym same) parsed in
      let digest_key : key.secret_hmac
          ≡ credential_hmac utf8 hmac_sha256 hex_tail pepper key.id secret =
        rw (sym same) digest in
      bearer_granted config key.token key.id secret app t solid parsed_key (
        in_tables config key.id secret app t pepper read (rw (sym digest_key) live) named
          (active-found app t.registry a (rw kept found) on))
