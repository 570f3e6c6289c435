-- ===== src/Health/Probe.antt =====
-- `probe_readiness` of health/service.py, with `probe` of security/quota.py, `for_capability` of
-- omniroute/config.py, and the probes of omniroute/client.py.
use cesar_core.Base.{
  String, Bool, true, false, not, ◌&&◌, ◌||◌, Option, none, some, List, [], ◌∷◌, ◌==◌, all, is_some,
  if◌then◌else◌,
}
use cesar_core.ControlPlane.Registry.{Capability, ai, search, fetch}
use cesar_core.ControlPlane.Token.{File, unset, missing, unreadable, holds}
use cesar_core.ControlPlane.Login.{filled}
use cesar_core.Security.Authentication.{read_secret}
use cesar_core.Gateway.Json.{Json, obj, member, text_of}
use cesar_core.Gateway.Terms.{Outcome, raised, returned, ◌>>=◌}
use cesar_core.Gateway.Omniroute.{
  Reply, timed_out, unreachable, broken, answered, Error, connection_error, timeout_error, os_error,
  uncaught, raise_for_status, has_key, authentication_enforced, credential_accepted,
}
use cesar_core.Health.{
  Setup, has_dynamic, has_general_web, is_enabled, any_enabled, Readiness, degraded, get_readiness,
}

-- What Redis answers to `CONFIG GET` and `INFO persistence`.
pub record Report : Type 0 where
  pub settings : String → Option String
  pub aof_last_write_status : Option String

-- `required` of `_durable`.
abbrev pub required : List (String × String)
required =
    ("appendonly", "yes")
    ∷ ("appendfsync", "always")
    ∷ ("maxmemory-policy", "noeviction")
    ∷ ("no-appendfsync-on-rewrite", "no")
    ∷ []

abbrev pub is_equal : Option String → String → Bool
is_equal none text = false
is_equal (some t) text = t == text

-- The code of the error that `probe_quota_storage` raises, if any; a store that does not answer has no
-- report.
unfoldable pub probe_quota_storage : Option Report → Option String
probe_quota_storage none = some "quota_store_unavailable"
probe_quota_storage (some report) =
    if not (all (λ pair. is_equal (report.settings pair.0) pair.1) required)
    then some "quota_store_misconfigured"
    else if not (is_equal report.aof_last_write_status "ok")
    then some "quota_store_unavailable"
    else none

-- `OmniRouteConfig`: a path and what its file holds, for each capability, with `Path.resolve`.
pub record Keys : Type 0 where
  pub resolve : String → String
  pub ai_file : Option (String × File String)
  pub search_file : Option (String × File String)
  pub fetch_file : Option (String × File String)

abbrev pub same_path :
    (String → String) → Option (String × File String) → Option (String × File String) → Bool
same_path resolve (some (p, f)) (some (q, g)) = resolve p == resolve q
same_path resolve _ _ = false

-- `require_distinct_capability_files`.
unfoldable pub are_distinct : Keys → Bool
are_distinct k = not (
    same_path k.resolve k.ai_file k.search_file
    || (same_path k.resolve k.ai_file k.fetch_file
        || same_path k.resolve k.search_file k.fetch_file))

-- `for_capability`: `none` where it raises.
unfoldable pub for_capability : Keys → Capability → Option (File String)
for_capability k ai = elim k.ai_file [ none ↦ none | some (path, file) ↦ some file ]
for_capability k search = elim k.search_file [ none ↦ none | some (path, file) ↦ some file ]
for_capability k fetch = elim k.fetch_file [ none ↦ none | some (path, file) ↦ some file ]

-- `capability_configs`, in their order.
abbrev pub capabilities_in_order : List Capability
capabilities_in_order = ai ∷ search ∷ fetch ∷ []

abbrev pub with_config :
    Capability
    → Option (File String)
    → Option (List (Capability × File String))
    → Option (List (Capability × File String))
with_config c (some file) (some rest) = some ((c, file) ∷ rest)
with_config c _ _ = none

unfoldable pub configs_of :
    Keys → Setup → List Capability → Option (List (Capability × File String))
configs_of k s [] = some []
configs_of k s (c ∷ cs) =
    let rest = configs_of k s cs in
    if is_enabled c s then with_config c (for_capability k c) rest else rest

-- What the upstream answers to the three probes of a capability.
pub record Replies : Type 0 where
  pub health : Reply
  pub invalid_key : Reply
  pub own_key : Reply

-- `OmniRouteHealth.model_validate`.
unfoldable pub is_health : Option Json → Bool
unfolding member
is_health (some (obj fields)) =
    is_some (text_of (member "status" fields)) && is_some (text_of (member "timestamp" fields))
is_health _ = false

-- `health`.
unfoldable pub health : Reply → Outcome Error (Unit {0})
unfolding is_health raise_for_status
health timed_out = raised timeout_error
health unreachable = raised connection_error
health broken = raised uncaught
health (answered status body id provider) = elim (raise_for_status status id) [
  | some error ↦ raised error
  | none ↦ if is_health body then returned tt else raised uncaught
]

-- `chat_credential_accepted`, and its versions for search and fetch, with the reading of the key.
unfoldable pub own_key_accepted : File String → Reply → Outcome Error Bool
own_key_accepted file reply = if has_key file then credential_accepted reply else raised os_error

-- `authentication_enforced and await … and await …`.
unfoldable pub enforced : Bool → File String → Replies → Outcome Error Bool
enforced before file r =
    if before
    then (authentication_enforced r.invalid_key
        >>= (λ refuses. if refuses then own_key_accepted file r.own_key else returned false))
    else returned false

-- The loop over the clients. Its errors are caught; exceptions that no clause expects are left out.
unfoldable pub probe_clients :
    (Capability → Replies) → List (Capability × File String) → Bool → Outcome Error Bool
probe_clients replies [] before = returned before
probe_clients replies ((c, file) ∷ rest) before =
    health (replies c).health
    >>= (λ alive. enforced before file (replies c) >>= (λ after. probe_clients replies rest after))

-- What is answered to the probes; `provider_health` says whether the address of the provider's health
-- answers with a success.
pub record Answers : Type 0 where
  pub redis : Option Report
  pub keys : Keys
  pub provider_health : Bool
  pub replies : Capability → Replies

-- The credential that the first lines ask for.
unfoldable pub has_credential : Setup → Bool
has_credential s = elim s.security.api_key_file [
  | unset ↦ has_dynamic s
  | missing ↦ false
  | unreadable ↦ false
  | holds text ↦ is_some (read_secret text)
]

-- `has_general_web_provider and provider_health_url`.
unfoldable pub asks_provider : Setup → Bool
asks_provider s =
    has_general_web s.search_config && is_some (filled s.search_config.provider_health_url)

abbrev pub caught : Outcome Error Bool → Bool
caught (raised error) = false
caught (returned b) = b

-- The second part of `probe_readiness`.
unfoldable pub probed : Setup → Answers → List (Capability × File String) → Bool
probed s a clients =
    if asks_provider s && not a.provider_health
    then false
    else caught (probe_clients a.replies clients true)

unfoldable pub probe_readiness : Setup → Answers → Readiness
probe_readiness s a =
    if not (any_enabled s)
    then get_readiness false s
    else if not (has_credential s)
    then get_readiness false s
    else elim (probe_quota_storage a.redis) [
      | some code ↦ degraded (some code)
      | none ↦
          if not (are_distinct a.keys)
          then get_readiness false s
          else elim (configs_of a.keys s capabilities_in_order) [
            | none ↦ get_readiness false s
            | some clients ↦ get_readiness (probed s a clients) s
          ]
    ]
