-- ===== src/Health/Detailed.antt =====
-- admin/health.py, with `health` and the readiness of `overview` in admin/routes.py: the components
-- that the administrator sees. Times and latencies are left out.
pub mod Shown
use cesar_core.Base.{
  ℕ, String, Bool, true, false, not, ◌&&◌, ◌||◌, Option, none, some, List, [], ◌∷◌, ◌==◌, is_some,
  if◌then◌else◌,
}
use Prim.Native.String.{◌++◌}
use cesar_core.ControlPlane.Registry.{Capability, ai, search, fetch}
use cesar_core.ControlPlane.Token.{File}
use cesar_core.ControlPlane.Login.{filled}
use cesar_core.ControlPlane.Routes.{capability_name}
use cesar_core.Gateway.Terms.{Outcome, raised, returned, ◌>>=◌}
use cesar_core.Gateway.Omniroute.{Error}
use cesar_core.Health.{Setup, has_general_web, is_enabled}
use cesar_core.Health.Probe.{
  probe_quota_storage, are_distinct, configs_of, Replies, health, own_key_accepted, Answers,
}

pub data Health : Type 0 where
  healthy not_configured : Health
  degraded unavailable : (reason : String) → Health

-- `_component`.
pub record Component : Type 0 where
  pub name : String
  pub status : Health

-- `_sqlite`, where the Boolean says whether the tables can be read.
abbrev pub sqlite : Bool → Component
sqlite true = record { name = "control_plane_sqlite"; status = healthy }
sqlite false = record { name = "control_plane_sqlite"; status = unavailable "database_unavailable" }

-- `_redis`.
unfoldable pub redis : Answers → Component
redis a = record {
  name = "redis";
  status = elim (probe_quota_storage a.redis) [
    | none ↦ healthy
    | some code ↦ if code == "quota_store_misconfigured" then degraded code else unavailable code
  ];
}

-- The loop of `_omniroute`: the first capability whose key is rejected, if any.
unfoldable pub first_rejected :
    (Capability → Replies) → List (Capability × File String) → Outcome Error (Option Capability)
first_rejected replies [] = returned none
first_rejected replies ((c, file) ∷ rest) = health (replies c).health >>= (λ alive.
    own_key_accepted file (replies c).own_key
    >>= (λ accepted. if accepted then first_rejected replies rest else returned (some c)))

abbrev pub clients_status : Outcome Error (Option Capability) → Health
unfolding capability_name
clients_status (raised error) = unavailable "omniroute_unavailable"
clients_status (returned none) = healthy
clients_status (returned (some c)) = degraded (capability_name c ++ "_credential_rejected")

-- The capabilities that `_omniroute` looks at.
abbrev pub looked_at : List Capability
looked_at = ai ∷ search ∷ []

unfoldable pub omniroute : Setup → Answers → Component
unfolding clients_status
omniroute s a = record {
  name = "omniroute";
  status =
      if not (is_enabled ai s || is_enabled search s)
      then not_configured
      else if not (are_distinct a.keys)
      then unavailable "omniroute_unavailable"
      else elim (configs_of a.keys s looked_at) [
        | none ↦ unavailable "omniroute_unavailable"
        | some clients ↦ clients_status (first_rejected a.replies clients)
      ];
}

-- `_searxng`.
unfoldable pub searxng : Setup → Answers → Component
searxng s a = record {
  name = "searxng";
  status =
      if not s.search_config.enabled || not (has_general_web s.search_config)
      then not_configured
      else if not (is_some (filled s.search_config.provider_health_url))
      then degraded "health_url_not_configured"
      else if a.provider_health
      then healthy
      else unavailable "searxng_unavailable";
}

-- `detailed_health`.
unfoldable pub detailed_health : Bool → Setup → Answers → List Component
unfolding redis omniroute searxng
detailed_health reads s a = sqlite reads ∷ redis a ∷ omniroute s a ∷ searxng s a ∷ []

-- `item["status"] in {"degraded", "unavailable"}`.
abbrev pub is_failed : Health → Bool
is_failed healthy = false
is_failed not_configured = false
is_failed (degraded reason) = true
is_failed (unavailable reason) = true

unfoldable pub first_failed : List Component → Option Component
first_failed [] = none
first_failed (c ∷ cs) = let rest = first_failed cs in if is_failed c.status then some c else rest

-- The components of the route `health`, with the first that failed.
unfoldable pub health_shown : Bool → Setup → Answers → List Component × Option Component
unfolding first_failed
health_shown reads s a =
    let components = record { name = "core"; status = healthy } ∷ detailed_health reads s a in
    (components, first_failed components)
