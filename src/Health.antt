-- ===== src/Health.antt =====
-- health/service.py, with the probes of omniroute/client.py, of security/quota.py and the keys of
-- omniroute/config.py: which capabilities are configured, and whether the service is ready. What Redis
-- and the network answer are parameters.
pub mod Probe
pub mod Detailed
pub mod Laws
pub mod Ready
mod Examples
use cesar_core.Base.{
  ℕ, String, Bool, true, false, not, ◌&&◌, ◌||◌, Option, none, some, List, [], ◌∷◌, ◌++◌, ◌==◌, any,
  is_some, if◌then◌else◌,
}
use cesar_core.ControlPlane.Registry.{Capability, ai, search, fetch}
use cesar_core.ControlPlane.Token.{File, is_blank, holds}
use cesar_core.ControlPlane.Credentials.{Credential}
use cesar_core.ControlPlane.Listing.{list_credentials}
use cesar_core.ControlPlane.Login.{filled}
use cesar_core.Security.Authentication.{is_file, read_secret}
use cesar_core.Security.Authentication
use cesar_core.Gateway.Json.{Json, obj, str, member, Fields}
use cesar_core.Gateway.Terms.{Outcome, raised, returned, ◌>>=◌, economy, standard, quality}
use cesar_core.Gateway.Omniroute.{
  Reply, timed_out, unreachable, broken, answered, Error, connection_error, timeout_error, os_error,
  uncaught, raise_for_status, has_key, authentication_enforced, credential_accepted,
}
use cesar_core.Gateway.Ai.Rules
use cesar_core.Gateway.Search
use cesar_core.Gateway.Fetch

-- The configurations and the keys that are read.
pub record Setup : Type 0 where
  pub ai_config : Rules.Config
  pub search_config : Search.Config
  pub fetch_config : Fetch.Config
  pub security : Authentication.Config
  pub credentials : List Credential

pub data Status : Type 0 where
  available not_configured : Status

abbrev pub status_of : Bool → Status
status_of true = available
status_of false = not_configured

abbrev pub is_available : Status → Bool
is_available available = true
is_available not_configured = false

-- `CapabilitiesResponse`, where it depends on the configuration.
pub record Capabilities : Type 0 where
  pub application_authentication : Status
  pub ai : Status
  pub search : Status
  pub search_general_web : Status
  pub search_technical_documentation : Status
  pub fetch : Status
  pub omniroute : Status

-- `any(row["revoked_at"] is None for row in get_store().list_credentials())`, with the file of the
-- pepper.
unfoldable pub has_dynamic : Setup → Bool
has_dynamic s =
    is_file s.security.pepper_file
    && any (λ row. not (is_some row.revoked_at)) (list_credentials none s.credentials)

unfoldable pub has_authentication : Setup → Bool
unfolding has_dynamic
has_authentication s = Authentication.is_configured s.security.api_key_file || has_dynamic s

-- `has_general_web_provider`.
unfoldable pub has_general_web : Search.Config → Bool
has_general_web c =
    is_some (Search.provider_for c economy)
    || (is_some (Search.provider_for c standard) || is_some (Search.provider_for c quality))

unfoldable pub is_enabled : Capability → Setup → Bool
is_enabled ai s = Rules.is_configured s.ai_config
is_enabled search s = Search.is_configured s.search_config
is_enabled fetch s = Fetch.is_configured s.fetch_config

unfoldable pub any_enabled : Setup → Bool
any_enabled s = is_enabled ai s || (is_enabled search s || is_enabled fetch s)

unfoldable pub get_capabilities : Setup → Capabilities
unfolding has_general_web
get_capabilities s = record {
  application_authentication = status_of (has_authentication s);
  ai = status_of (is_enabled ai s);
  search = status_of (is_enabled search s);
  search_general_web = status_of (s.search_config.enabled && has_general_web s.search_config);
  search_technical_documentation =
      status_of
        (s.search_config.enabled && is_some (Search.documentation_provider s.search_config));
  fetch = status_of (is_enabled fetch s);
  omniroute = status_of (any_enabled s);
}

-- `ReadinessStatus`: ready, or degraded with the reason of the quota store, if it is that.
pub data Readiness : Type 0 where
  ready : Readiness
  degraded : (reason : Option String) → Readiness

-- `get_readiness`, where `dependencies_ready` is `true` exactly where the call passes `True`.
unfoldable pub get_readiness : Bool → Setup → Readiness
get_readiness dependencies_ready s =
    let c = get_capabilities s in
    if not (is_available c.ai || (is_available c.search || is_available c.fetch))
      || (is_available c.application_authentication && dependencies_ready)
    then ready
    else degraded none
