-- ===== src/Gateway/Ai/Samples.antt =====
-- Data for the runs of a call of AI.
use cesar_core.Base.{ℕ, ◌+◌, String, Bool, true, false, Option, none, some, List, [], ◌∷◌}
use cesar_core.ControlPlane.Registry.{Registry, Listed, get_application, bootstrap}
use cesar_core.ControlPlane.Registry.Steps.{empty}
use cesar_core.ControlPlane.Token.{File, holds}
use cesar_core.Gateway.Json.{Json, int, str, arr, obj, nil, cons, Fields, end, field}
use cesar_core.Gateway.Omniroute.{Reply, answered}
use cesar_core.Gateway.Terms.{standard, user, free_only, Context}
use cesar_core.Gateway.Ai.{Role, Request, Target}
use cesar_core.Gateway.Ai.Rules.{Config}
use cesar_core.Gateway.Ai.{policy_key}
use cesar_core.Gateway.Ai.Usage.{Usage}
use cesar_core.Gateway.Ai.Grounding.{Payload}
use cesar_core.Gateway.Ai.Provider.{Answer}

-- One free model for every class, and a paid one for developers.
abbrev pub config : Config
config = record {
  enabled = true;
  default_model = some " small ";
  economy_model = none;
  standard_model = some "medium";
  quality_model = none;
  provider = none;
  model_is_paid = false;
  model_enforces_max_tokens = true;
  max_tokens_limit = 4096;
  user_model = none;
  admin_dev_model = some "large";
}

abbrev pub context : Context
context = record {
  application_id = "gg_oferta";
  purpose = "chat";
  request_id = "r1";
  correlation_id = "c1";
}

abbrev pub asking : Bool → Request
asking search = record {
  context = context;
  ai_profile = user;
  requirements = record { service_class = standard; cost_policy = free_only };
  messages = record { role = Role.user; content = "Price?" } ∷ [];
  max_tokens = some 10;
  require_search_grounding = search;
}

abbrev pub medium : Target
medium = record {
  model = "medium";
  provider = none;
  paid = false;
  max_tokens_limit = some 4096;
  enforces_max_tokens = true;
}

abbrev pub booted : Registry
booted = (bootstrap 1 2 60 30 empty).0

abbrev pub applications : List Listed
applications = elim (get_application "gg_oferta" booted) [ none ↦ [] | some a ↦ a ∷ [] ]

abbrev pub usage_of : ℕ → Json
usage_of used = obj (
    field "prompt_tokens" (int 3)
      (field "completion_tokens" (int used) (field "total_tokens" (int (used + 3)) end)))

abbrev pub said : String → Json
said text = arr (cons (obj (field "message" (obj (field "content" (str text) end)) end)) nil)

-- The answer to a question without a search.
abbrev pub plain_body : Fields
plain_body = field "choices" (said "Five.") (field "usage" (usage_of 4) end)

abbrev pub plain_network : Payload → Reply
plain_network payload = answered 200 (some (obj plain_body)) (some "u1") none

abbrev pub nothing : String → Option Json
nothing text = none

abbrev pub key_file : File String
key_file = holds "secret"

abbrev pub used_of : ℕ → Usage
used_of used = record {
  prompt_tokens = some 3;
  completion_tokens = some used;
  total_tokens = some (used + 3);
}

-- The answer of a request, from its usage and its sources.
abbrev pub answer_of : Bool → Usage → List String → Answer
answer_of search usage sources = record {
  request_id = "r1";
  correlation_id = "c1";
  content = "Five.";
  provider = none;
  model = "medium";
  usage = some usage;
  fallback_used = false;
  upstream_request_id = some "u1";
  grounding_requested = search;
  grounding_performed = search;
  grounding_sources = sources;
}
