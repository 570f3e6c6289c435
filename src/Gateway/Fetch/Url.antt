-- ===== src/Gateway/Fetch/Url.antt =====
-- fetch/contracts.py: the addresses that may be fetched. `urlsplit`, `parse_qsl`, `getaddrinfo`,
-- `ip_address` and `lower` of Python's library are parameters.
use Prim.Native.Char.{code}
use cesar_core.Base.{
  ℕ, String, Bool, false, not, ◌&&◌, ◌||◌, Option, none, some, List, [], ◌∷◌, nat_eq, any, all,
  includes, if◌then◌else◌,
}
use cesar_core.ControlPlane.Token.{is_blank, starts_with, strip}

-- The properties that the library gives an address.
pub record Address : Type 0 where
  pub is_loopback : Bool
  pub is_link_local : Bool
  pub is_private : Bool
  pub is_reserved : Bool
  pub is_multicast : Bool
  pub is_unspecified : Bool

-- `_is_blocked_address`.
unfoldable pub is_blocked_address : Address → Bool
is_blocked_address ip =
    ip.is_loopback
    || (ip.is_link_local
        || (ip.is_private || (ip.is_reserved || (ip.is_multicast || ip.is_unspecified))))

-- `parsed.port`: it raises where the text is no port, and is `None` where there is none.
pub data Port : Type 0 where
  invalid absent : Port
  given : ℕ → Port

-- The parts of `urlsplit` that are read; `has_userinfo` is `username or password`.
pub record Parsed : Type 0 where
  pub is_https : Bool
  pub has_userinfo : Bool
  pub hostname : Option String
  pub port : Port

-- `parsed.port or (443 if … else 80)`, where the port can be read.
unfoldable pub port_of : Parsed → Option ℕ
port_of p = elim p.port [
  | invalid ↦ none
  | absent ↦ some (if p.is_https then 443 else 80)
  | given n ↦ if nat_eq n 0 then some (if p.is_https then 443 else 80) else some n
]

-- `_ALLOWED_PORTS`.
unfoldable pub is_allowed_port : ℕ → Bool
is_allowed_port n = nat_eq n 80 || nat_eq n 443

-- `hostname.rstrip(".")`.
unfoldable pub strip_dots : String → String
strip_dots String.[] = ""
strip_dots (String.◌∷◌ c s) =
    let rest = strip_dots s in
    if is_blank rest && nat_eq (code c) b'.' then "" else String.◌∷◌ c rest

abbrev pub sensitive_keys : List String
sensitive_keys =
    "access_token" ∷ "refresh_token" ∷ "oauth_token" ∷ "api_key" ∷ "apikey" ∷ "api-key"
    ∷ "authorization" ∷ "password" ∷ "passwd" ∷ "session" ∷ "session_id" ∷ "jwt" ∷ []

abbrev pub signature_keys : List String
signature_keys =
    "x-amz-signature" ∷ "x-amz-credential" ∷ "x-amz-security-token" ∷ "x-goog-signature"
    ∷ "x-goog-credential" ∷ []

-- `reject_sensitive_query_target`, from the keys of the query: whether it raises.
unfoldable pub is_sensitive : List String → Bool
is_sensitive keys =
    any (includes sensitive_keys) keys
    || (any (includes signature_keys) keys || (includes keys "sig" && includes keys "sv"))

-- The library's functions. `query_keys` are the keys of `parse_qsl`, `without_fragment` is
-- `urlunsplit` without the fragment, and `addresses` and `address` are `none` where they raise.
pub record Library : Type 0 where
  pub split : String → Parsed
  pub fragment : String → String
  pub without_fragment : String → String
  pub query_keys : String → List String
  pub lower : String → String
  pub addresses : String → Option (List String)
  pub address : String → Option Address

module _ (library : Library) where
  lowered : List String → List String
  lowered [] = []
  lowered (k ∷ ks) = library.lower k ∷ lowered ks

  unfoldable pub strip_url_fragment : String → String
  strip_url_fragment url =
      if is_blank (library.fragment url) then url else library.without_fragment url

  -- The validator of `url`: `none` where it raises.
  unfoldable pub normalize_url : String → Option String
  unfolding lowered
  normalize_url text =
      let value = strip text in
      if is_blank value || not (starts_with "http://" value || starts_with "https://" value)
      then none
      else if is_sensitive (lowered (library.query_keys value))
      then none
      else some (strip_url_fragment value)

  -- The body of the loop over the addresses: whether it goes on.
  unfoldable pub is_public : String → Bool
  is_public text = elim (library.address text) [
    | none ↦ false
    | some ip ↦ not (is_blocked_address ip)
  ]

  -- The port and the host are allowed, and the host resolves to public addresses alone.
  unfoldable pub is_public_host : Parsed → String → Bool
  is_public_host p host = elim (port_of p) [
    | none ↦ false
    | some port ↦
        if is_allowed_port port
        then elim (library.addresses (library.lower (strip_dots host))) [
          | none ↦ false
          | some texts ↦ all is_public texts
        ]
        else false
  ]

  -- `reject_ssrf_target`: whether it returns.
  unfoldable pub accepts_target : String → Bool
  accepts_target url =
      let p = library.split url in
      if p.has_userinfo then false else elim p.hostname [
        | none ↦ false
        | some host ↦ if is_blank host then false else is_public_host p host
      ]
