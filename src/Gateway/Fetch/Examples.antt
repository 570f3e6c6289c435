-- ===== src/Gateway/Fetch/Examples.antt =====
-- Runs of a fetch.
use cesar_core.Base.{String, ◌≡◌, refl, true, false, none, some, List, [], ◌∷◌}
use cesar_core.ControlPlane.Registry
use cesar_core.ControlPlane.Registry.{
  Registry, Listed, Capability, ai, fetch, cap_eq, get_application, listed, granted, find,
  bootstrap, seeds, known_rows, seed, ignore_application, get_quota,
}
use cesar_core.ControlPlane.Registry.Steps.{empty}
use cesar_core.ControlPlane.Token.{
  File, holds, strip, left_strip, right_strip, is_space, starts_with,
}
use cesar_core.ControlPlane.Rollups.{Row, row_of, upsert, record_usage}
use cesar_core.Security.Authentication.{is_active}
use cesar_core.Gateway.Json.{str, obj, end, field, member}
use cesar_core.Gateway.Omniroute.{Reply, answered, received, raise_for_status}
use cesar_core.Gateway.Omniroute
use cesar_core.Gateway.Table.{for_each, get, set}
use cesar_core.Gateway.Terms.{standard, same_class, is_free_only, free_only, Context, answer}
use cesar_core.Gateway.Ai.Rules.{normalized}
use cesar_core.Gateway.Services.{same_service_key, lists, active_with, fill, fill_class, find_rule}
use cesar_core.Gateway.Fetch.{Config, Request, provider_for, is_configured, fetch_rules, resolve}
use cesar_core.Gateway.Fetch.Url.{
  Address, is_blocked_address, Port, absent, given, Library, port_of, is_allowed_port, strip_dots,
  is_sensitive, strip_url_fragment, normalize_url, is_public, is_public_host, accepts_target,
}
use cesar_core.Gateway.Fetch.Provider.{
  Payload, Answer, required_string, title_of, take_chars, envelope, cut, answer_of, read_envelope,
  fetch_page, manage,
}
use cesar_core.Gateway.Fetch.Route.{success_use, respond, fetch_url}

abbrev pub public_address : Address
public_address = record {
  is_loopback = false;
  is_link_local = false;
  is_private = false;
  is_reserved = false;
  is_multicast = false;
  is_unspecified = false;
}

-- A library for which every address has one host, which resolves to one public address.
abbrev pub library : Port → Library
library port = record {
  split = λ url. record {
    is_https = true;
    has_userinfo = false;
    hostname = some "a.example.";
    port = port;
  };
  fragment = λ url. "";
  without_fragment = λ url. url;
  query_keys = λ url. "page" ∷ [];
  lower = λ text. text;
  addresses = λ host. some ("93.184.216.34" ∷ []);
  address = λ text. some public_address;
}

accepted : accepts_target (library absent) "https://a.example" ≡ true
unfolding accepts_target is_public_host is_public port_of is_allowed_port is_blocked_address
    strip_dots
accepted = refl

-- The port 0 is taken for no port at all.
port_zero : accepts_target (library (given 0)) "https://a.example:0" ≡ true
unfolding accepts_target is_public_host is_public port_of is_allowed_port is_blocked_address
    strip_dots
port_zero = refl

port_other : accepts_target (library (given 8080)) "https://a.example:8080" ≡ false
unfolding accepts_target is_public_host port_of is_allowed_port
port_other = refl

trimmed :
    normalize_url (library absent) " https://a.example?page=2 " ≡ some "https://a.example?page=2"
unfolding normalize_url is_sensitive strip_url_fragment starts_with strip left_strip right_strip
    is_space
trimmed = refl

abbrev pub context : Context
context = record {
  application_id = "gg_oferta";
  purpose = "collect";
  request_id = "r1";
  correlation_id = "c1";
}

abbrev pub request : Request
request = record {
  context = context;
  requirements = record { service_class = standard; cost_policy = free_only };
  url = "https://a.example";
}

abbrev pub config : Config
config = record {
  enabled = true;
  default_provider = some "crawler";
  economy_provider = none;
  standard_provider = none;
  quality_provider = none;
  provider_is_paid = false;
  max_content_length = 4;
}

abbrev pub booted : Registry
booted = (bootstrap 1 2 60 30 empty).0

abbrev pub applications : List Listed
applications = elim (get_application "gg_oferta" booted) [ none ↦ [] | some a ↦ a ∷ [] ]

abbrev pub serving : Payload → Reply
serving payload =
    answered 200
      (some (
        obj (
          field "provider" (str "crawler")
            (field "url" (str "https://a.example") (field "content" (str " Price ") end)))))
      (some "u1") none

abbrev pub key_file : File String
key_file = holds "secret"

-- The content is stripped, and cut after four characters.
abbrev pub read : Answer
read = record {
  request_id = "r1";
  correlation_id = "c1";
  provider = "crawler";
  url = "https://a.example";
  fetched = true;
  title = none;
  content = some "Pric";
  truncated = true;
  upstream_request_id = some "u1";
}

abbrev pub once : List Row
once = row_of (success_use 7 context read) ∷ []

pub fetched :
    fetch_url
      (library absent)
      key_file
      serving
      7
      4
      booted
      (fetch_rules config applications)
      request
      []
    ≡ (once, answer read)
unfolding fetch_url respond manage fetch_page resolve find_rule fetch_rules is_configured
    provider_for normalized strip left_strip right_strip is_space for_each fill_class fill set get
    same_service_key same_class is_free_only active_with lists cap_eq bootstrap known_rows seeds
    seed ignore_application find granted get_quota Registry.same_key get_application listed
    is_active Omniroute.request received raise_for_status read_envelope envelope required_string
    title_of member answer_of cut take_chars record_usage upsert accepts_target is_public_host
    is_public port_of is_allowed_port is_blocked_address strip_dots
fetched = refl
