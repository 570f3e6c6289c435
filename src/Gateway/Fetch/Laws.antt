-- ===== src/Gateway/Fetch/Laws.antt =====
-- What an answered request of fetch has passed.
use Prim.Native.Char.{Char}
use Prim.Native.String.{count}
use Prim.Native.String.count
use cesar_core.Base.{
  ℕ, zero, suc, ◌≤◌, String, ◌≡◌, Bool, true, false, not, ◌&&◌, Option, none, some, List, [], ◌∷◌,
  arith, ltb, all, All, if◌then◌else◌, Bool-cases, Option-cases, inl, inr,
}
use cesar_core.ControlPlane.Token.{is_blank, strip}
use cesar_core.Gateway.Omniroute.{Response}
use cesar_core.Gateway.Terms.{returned}
use cesar_core.Gateway.Fetch.{Request}
use cesar_core.Gateway.Fetch.Url.{
  Address, is_blocked_address, port_of, is_allowed_port, strip_dots, Library, is_public,
  is_public_host, accepts_target,
}
use cesar_core.Gateway.Fetch.Provider.{Answer, envelope, take_chars, cut, answer_of, read_envelope}

-- A text that names an address which is not blocked.
pub IsPublic : Library → String → Type 0
IsPublic library text =
    (ip : Address) × (library.address text ≡ some ip) × (is_blocked_address ip ≡ false)

-- The address of a request names a host by a port that is allowed, and all that the host resolves to
-- is public.
pub record IsSafe (library : Library) (url : String) : Type 0 where
  pub no_userinfo : (library.split url).has_userinfo ≡ false
  pub host : String
  pub names : (library.split url).hostname ≡ some host
  pub port : ℕ
  pub has_port : port_of (library.split url) ≡ some port
  pub is_allowed : is_allowed_port port ≡ true
  pub texts : List String
  pub resolves : library.addresses (library.lower (strip_dots host)) ≡ some texts
  pub are_public : All (IsPublic library) texts

is_public-IsPublic :
    (library : Library) (text : String) → is_public library text ≡ true → IsPublic library text
unfolding is_public IsPublic
is_public-IsPublic library text h = elim (Option-cases (library.address text)) [
  | inl e ↦ absurd (ground arith)
  | inr (ip, e) ↦ (ip, e, ground arith)
]

all-IsPublic :
    (library : Library) (texts : List String)
    → all (is_public library) texts ≡ true
    → All (IsPublic library) texts
all-IsPublic library [] h = tt
all-IsPublic library (text ∷ texts) h =
    (is_public-IsPublic library text (ground arith), all-IsPublic library texts (ground arith))

pub accepts_target-IsSafe :
    (library : Library) (url : String) → accepts_target library url ≡ true → IsSafe library url
unfolding accepts_target is_public_host
accepts_target-IsSafe library url h =
    let p = library.split url in
    elim (Option-cases p.hostname) [
      | inl e ↦ absurd (ground arith)
      | inr (host, e) ↦ elim (Option-cases (port_of p)) [
        | inl f ↦ absurd (ground arith)
        | inr (port, f) ↦
            elim (Option-cases (library.addresses (library.lower (strip_dots host)))) [
              | inl g ↦ absurd (ground arith)
              | inr (texts, g) ↦ record {
                no_userinfo = ground arith;
                host = host;
                names = e;
                port = port;
                has_port = f;
                is_allowed = ground arith;
                texts = texts;
                resolves = g;
                are_public = all-IsPublic library texts (ground arith);
              }
            ]
      ]
    ]

none_left : count "" ≡ 0
none_left = count.nil

one_more : (c : Char) (s : String) → count (String.◌∷◌ c s) ≡ suc (count s)
one_more c s = count.cons c s

take-count : (n : ℕ) (text : String) → count (take_chars n text) ≤ n
unfolding take_chars
take-count zero text = ground (arith, none_left)
take-count (suc n) String.[] = ground (arith, none_left)
take-count (suc n) (String.◌∷◌ c s) = ground (arith, take-count n s, one_more c (take_chars n s))

blank_count : (text : String) → is_blank text ≡ true → count text ≡ 0
blank_count String.[] h = none_left
blank_count (String.◌∷◌ c s) h = absurd (ground arith)

cut-count : (limit : ℕ) (text : String) → count (cut limit text).0 ≤ limit
unfolding cut
cut-count limit text = elim (Bool-cases (not (is_blank text) && ltb limit (count text))) [
  | inl e ↦ rw e (take-count limit text)
  | inr e ↦ rw e (ground (arith, blank_count text))
]

-- The length of a text, if there is one.
abbrev pub length_of : Option String → ℕ
length_of none = 0
length_of (some text) = count text

optional_bound :
    (limit : ℕ) (empty : Bool) (text : String)
    → count text ≤ limit
    → length_of (if empty then none else some text) ≤ limit
optional_bound limit true text h = omega arith
optional_bound limit false text h = h

content_bound :
    (limit : ℕ) (request : Request) (response : Response) (provider url content : String)
    (title : Option String)
    → length_of (answer_of limit request response provider url content title).content ≤ limit
unfolding answer_of
content_bound limit request response provider url content title =
    optional_bound limit (is_blank (strip content)) (cut limit (strip content)).0
      (cut-count limit (strip content))

pub envelope_bound :
    (limit : ℕ) (request : Request) (response : Response) (a : Answer)
    → read_envelope limit request response ≡ returned a
    → length_of a.content ≤ limit
unfolding read_envelope
envelope_bound limit request response a h = elim (Option-cases (envelope response.body)) [
  | inl e ↦ absurd (ground arith)
  | inr ((provider, url, content, title), e) ↦
      let same : answer_of limit request response provider url content title ≡ a = ground arith in
      rw (← same) (content_bound limit request response provider url content title)
]
