-- ===== src/Admission/Samples.antt =====
-- Data for the runs of a request.
use cesar_core.Base.{ℕ, String, true, some, [], List}
use cesar_core.ControlPlane.Registry.{Registry, bootstrap}
use cesar_core.ControlPlane.Registry.Steps
use cesar_core.ControlPlane.Token.{Bytes, unset, holds}
use cesar_core.ControlPlane.Rollups.{Row}
use cesar_core.Security.Quota.Samples.{Store}
use cesar_core.Admission.{Incoming, Settings, World}

abbrev pub bytes : String → Bytes
bytes text = []

abbrev pub hmac : Bytes → Bytes → Bytes
hmac key message = []

abbrev pub hex_tail : Bytes → String
hex_tail b = ""

-- The key file of `gg_oferta`, and no pepper.
abbrev pub settings : Settings
settings = record {
  security = record { api_key_file = holds "file key"; pepper_file = unset };
  quota_namespace = "q";
  durable = true;
}

-- A request with that key, for a purpose, at a time of Redis.
abbrev pub asking : String → ℕ → Incoming
asking purpose at = record {
  credentials = some ("Bearer", "file key");
  service = some "worker";
  purpose = some purpose;
  correlation = some "c1";
  new_request_id = "r1";
  new_correlation_id = "c2";
  at = at;
}

abbrev pub booted : Registry
booted = (bootstrap 1 2 60 30 Steps.empty).0

-- The tables at the start, some counters, and some rollups.
abbrev pub world : Store → List Row → World Store
world counters rows = record {
  store = record { registry = booted; credentials = [] };
  counters = counters;
  rows = rows;
}
