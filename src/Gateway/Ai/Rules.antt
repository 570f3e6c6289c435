-- ===== src/Gateway/Ai/Rules.antt =====
-- ai/config.py and `get_ai_manager` of api/deps.py: the rules that the configuration gives.
use cesar_core.Base.{
  ℕ, String, Bool, true, false, ◌&&◌, ◌||◌, Option, none, some, List, [], ◌∷◌, is_some,
  if◌then◌else◌,
}
use cesar_core.ControlPlane.Registry.{State, active, Capability, ai, Listed}
use cesar_core.ControlPlane.Token.{is_blank, strip}
use cesar_core.Gateway.Table.{for_each, set}
use cesar_core.Gateway.Terms.{ServiceClass, economy, standard, quality, AiProfile, user, admin_dev}
use cesar_core.Gateway.Ai.{PolicyKey, policy_key, Target, wildcard}

-- `AIConfig`.
pub record Config : Type 0 where
  pub enabled : Bool
  pub default_model : Option String
  pub economy_model : Option String
  pub standard_model : Option String
  pub quality_model : Option String
  pub provider : Option String
  pub model_is_paid : Bool
  pub model_enforces_max_tokens : Bool
  pub max_tokens_limit : ℕ
  pub user_model : Option String
  pub admin_dev_model : Option String

-- `text or other`, and `text or None`.
abbrev pub text_or : Option String → Option String → Option String
text_or none other = other
text_or (some t) other = if is_blank t then other else some t

-- `text.strip() if text and text.strip() else None`.
unfoldable pub normalized : Option String → Option String
normalized none = none
normalized (some t) = if is_blank (strip t) then none else some (strip t)

-- `is_configured`.
unfoldable pub is_configured : Config → Bool
unfolding normalized
is_configured c =
    c.enabled
    && (is_some (normalized c.default_model)
        || (is_some (normalized c.user_model) || is_some (normalized c.admin_dev_model)))

class_model : Config → ServiceClass → Option String
class_model c economy = c.economy_model
class_model c standard = c.standard_model
class_model c quality = c.quality_model

unfoldable pub model_for : Config → ServiceClass → Option String
unfolding class_model
model_for c sc = normalized (text_or (class_model c sc) c.default_model)

unfoldable pub model_for_profile : Config → AiProfile → Option String
model_for_profile c user = normalized c.user_model
model_for_profile c admin_dev = normalized c.admin_dev_model

abbrev pub is_on : State → Bool
is_on active = true
is_on _ = false

-- `active_ai_applications`, where an item of `allowed_capabilities` is looked for.
unfoldable pub has_ai : List Capability → Bool
has_ai [] = false
has_ai (ai ∷ cs) = true
has_ai (_ ∷ cs) = has_ai cs

unfoldable pub active_ai : List Listed → List String
unfolding has_ai
active_ai [] = []
active_ai (a ∷ as_) =
    let rest = active_ai as_ in
    if is_on a.application.state && has_ai a.capabilities then a.application.id ∷ rest else rest

abbrev pub classes : List ServiceClass
classes = economy ∷ standard ∷ quality ∷ []

abbrev pub profiles : List AiProfile
profiles = user ∷ admin_dev ∷ []

abbrev pub Rules : Type 0
Rules = List (PolicyKey × Target)

abbrev pub rule_key : String → ServiceClass → AiProfile → PolicyKey
rule_key id sc p = record {
  application_id = id;
  purpose = wildcard;
  service_class = sc;
  ai_profile = p;
}

abbrev pub class_target : Config → String → Target
class_target c model = record {
  model = model;
  provider = text_or c.provider none;
  paid = c.model_is_paid;
  max_tokens_limit = some c.max_tokens_limit;
  enforces_max_tokens = c.model_enforces_max_tokens;
}

abbrev pub is_admin_dev : AiProfile → Bool
is_admin_dev user = false
is_admin_dev admin_dev = true

abbrev pub profile_target : Config → AiProfile → String → Target
profile_target c p model = record {
  model = model;
  provider = none;
  paid = is_admin_dev p;
  max_tokens_limit = some c.max_tokens_limit;
  enforces_max_tokens = c.model_enforces_max_tokens;
}

-- The inner loops of the first and of the second part.
unfoldable pub class_rules : List String → ServiceClass → Target → Rules → Rules
class_rules apps sc target rules =
    for_each (λ id rs. for_each (λ p qs. set (rule_key id sc p) target qs) profiles rs) apps rules

unfoldable pub profile_rules : List String → AiProfile → Target → Rules → Rules
profile_rules apps p target rules =
    for_each (λ id rs. for_each (λ sc qs. set (rule_key id sc p) target qs) classes rs) apps rules

unfoldable pub class_step : Config → List String → ServiceClass → Rules → Rules
class_step c apps sc rules = elim (model_for c sc) [
  | none ↦ rules
  | some model ↦ class_rules apps sc (class_target c model) rules
]

unfoldable pub profile_step : Config → List String → AiProfile → Rules → Rules
profile_step c apps p rules = elim (model_for_profile c p) [
  | none ↦ rules
  | some model ↦ profile_rules apps p (profile_target c p model) rules
]

unfoldable pub rules_of : Config → List String → Rules
rules_of c apps = for_each (profile_step c apps) profiles (for_each (class_step c apps) classes [])

-- The rules of `get_ai_manager`, where it has any.
unfoldable pub ai_rules : Config → List Listed → Rules
unfolding is_configured rules_of
ai_rules c as_ = if is_configured c then rules_of c (active_ai as_) else []
