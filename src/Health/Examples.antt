-- ===== src/Health/Examples.antt =====
-- Runs of the readiness and of the detailed health.
use cesar_core.Base.{
  String, ◌≡◌, ◌↔◌, ◌⊎◌, refl, Bool, true, false, Option, none, some, [], ◌==◌, if◌then◌else◌,
}
use cesar_core.ControlPlane.Registry.{Capability, ai, search, fetch}
use cesar_core.ControlPlane.Token.{holds, unset, strip, left_strip, right_strip, is_space}
use cesar_core.Security.Authentication.{read_secret}
use cesar_core.Security.Authentication
use cesar_core.Gateway.Json.{Json, obj, str, field, end, member}
use cesar_core.Gateway.Omniroute.{
  answered, raise_for_status, authentication_enforced, credential_accepted,
}
use cesar_core.Gateway.Ai.Rules
use cesar_core.Gateway.Ai.Samples
use cesar_core.Gateway.Search.Examples as Searches
use cesar_core.Gateway.Fetch.Examples as Fetches
use cesar_core.Gateway.Search
use cesar_core.Gateway.Fetch
use cesar_core.Gateway.Ai.Rules.{normalized}
use cesar_core.Health.{
  Setup, has_authentication, has_general_web, is_enabled, any_enabled, get_capabilities, ready,
  degraded, get_readiness,
}
use cesar_core.Health.Probe.{
  Report, probe_quota_storage, are_distinct, for_capability, configs_of, Replies, is_health, health,
  own_key_accepted, enforced, probe_clients, Answers, has_credential, asks_provider, probed,
  probe_readiness,
}
use cesar_core.Health.Ready.{IsReady, probe_readiness_iff}
use cesar_core.Health.Detailed.{
  redis, omniroute, searxng, first_rejected, detailed_health, first_failed, health_shown,
}
use cesar_core.Health.Detailed.Shown.{ready_shown}

-- AI and the general provider of search, with the address of its health.
abbrev setup : Setup
setup = record {
  ai_config = Samples.config;
  search_config = record Searches.config { provider_health_url = some "https://searxng.example" };
  fetch_config = record Fetches.config { enabled = false };
  security = record { api_key_file = holds "file key"; pepper_file = unset };
  credentials = [];
}

abbrev durable_settings : String → Option String
durable_settings key =
    if key == "appendonly"
    then some "yes"
    else if key == "appendfsync"
    then some "always"
    else if key == "maxmemory-policy"
    then some "noeviction"
    else some "no"

abbrev durable_report : Report
durable_report = record { settings = durable_settings; aof_last_write_status = some "ok" }

abbrev alive_body : Json
alive_body = obj (field "status" (str "ok") (field "timestamp" (str "now") end))

abbrev fine : Replies
fine = record {
  health = answered 200 (some alive_body) none none;
  invalid_key = answered 401 none none none;
  own_key = answered 400 none none none;
}

-- The upstream lets an invalid key pass.
abbrev open_replies : Replies
open_replies = record fine { invalid_key = answered 200 none none none }

abbrev fetch_open : Capability → Replies
fetch_open ai = fine
fetch_open search = fine
fetch_open fetch = open_replies

abbrev answers_of : (Capability → Replies) → Bool → Answers
answers_of replies provider = record {
  redis = some durable_report;
  keys = record {
    resolve = λ path. path;
    ai_file = some ("/keys/ai", holds "a");
    search_file = some ("/keys/search", holds "s");
    fetch_file = some ("/keys/fetch", holds "f");
  };
  provider_health = provider;
  replies = replies;
}

abbrev all_fine : Answers
all_fine = answers_of (λ c. fine) true

-- Search is disabled, and its general provider is still set.
abbrev without_search : Setup
without_search = record setup { search_config = record setup.search_config { enabled = false } }

abbrev with_fetch : Setup
with_fetch = record setup { fetch_config = Fetches.config }

readiness_runs :
    (probe_readiness setup all_fine ≡ ready)
    × (probe_readiness without_search (answers_of (λ c. fine) false) ≡ degraded none)
    × (probe_readiness with_fetch (answers_of fetch_open true) ≡ degraded none)
unfolding probe_readiness any_enabled is_enabled Rules.is_configured strip is_space has_credential
    read_secret probe_quota_storage are_distinct configs_of for_capability Search.is_configured
    Search.provider_for Fetch.is_configured get_readiness get_capabilities has_authentication
    left_strip right_strip normalized Fetch.provider_for member authentication_enforced
    credential_accepted raise_for_status Search.documentation_provider asks_provider enforced health
    is_health own_key_accepted probe_clients probed has_general_web Authentication.is_configured
readiness_runs = (refl, refl, refl)

probe_readiness_example :
    (probe_readiness setup all_fine ≡ ready)
    ↔ ((any_enabled setup ≡ false) ⊎ IsReady setup all_fine)
probe_readiness_example = probe_readiness_iff setup all_fine

ready_shown_example : (health_shown true setup all_fine).1 ≡ none
unfolding any_enabled is_enabled Rules.is_configured normalized strip left_strip right_strip
    is_space
ready_shown_example = ready_shown setup all_fine refl readiness_runs.0 refl

-- The provider of a search that is disabled still decides whether the service is ready.
disabled_search : probe_readiness without_search (answers_of (λ c. fine) false) ≡ degraded none
disabled_search = readiness_runs.1

-- Where fetch alone is broken the service is not ready, and no component of the detailed health fails.
fetch_degraded : probe_readiness with_fetch (answers_of fetch_open true) ≡ degraded none
fetch_degraded = readiness_runs.2

fetch_unseen : (health_shown true with_fetch (answers_of fetch_open true)).1 ≡ none
unfolding health_shown detailed_health first_failed redis omniroute searxng first_rejected
    is_enabled Rules.is_configured strip is_space probe_quota_storage are_distinct configs_of
    for_capability Search.is_configured Search.provider_for left_strip right_strip normalized member
    credential_accepted raise_for_status Search.documentation_provider health is_health
    own_key_accepted has_general_web
fetch_unseen = refl
