-- ===== src/Gateway/Ai/Loops.antt =====
-- What the loops over the applications do to one key of the rules.
use cesar_core.Base.{
  String, ◌≡◌, refl, true, false, ◌&&◌, some, List, [], ◌∷◌, arith, includes, if◌then◌else◌, ◌==◌,
  ◌⊎◌, inl, inr,
}
use cesar_core.Gateway.Table.{for_each, get, set, get-set}
use cesar_core.Gateway.Terms.{
  ServiceClass, economy, standard, quality, AiProfile, user, admin_dev, same_class, same_profile,
}
use cesar_core.Gateway.Ai.{PolicyKey, policy_key, same_key, Target, wildcard}
use cesar_core.Gateway.Ai.Rules.{Rules, rule_key, classes, profiles, class_rules, profile_rules}

profile_cases :
    (p : AiProfile)
    → ((same_profile user p ≡ true) × (same_profile admin_dev p ≡ false))
      ⊎ ((same_profile user p ≡ false) × (same_profile admin_dev p ≡ true))
unfolding same_profile
profile_cases user = inl (refl, refl)
profile_cases admin_dev = inr (refl, refl)

class_cases :
    (c : ServiceClass)
    → ((same_class economy c ≡ true)
        × (same_class standard c ≡ false)
        × (same_class quality c ≡ false))
      ⊎ (((same_class economy c ≡ false)
            × (same_class standard c ≡ true)
            × (same_class quality c ≡ false))
          ⊎ ((same_class economy c ≡ false)
              × (same_class standard c ≡ false)
              × (same_class quality c ≡ true)))
unfolding same_class
class_cases economy = inl (refl, refl, refl)
class_cases standard = inr (inl (refl, refl, refl))
class_cases quality = inr (inr (refl, refl, refl))

class_inner :
    (id : String) (sc : ServiceClass) (target : Target) (k : PolicyKey) (rules : Rules)
    → get k (for_each (λ p qs. set (rule_key id sc p) target qs) profiles rules) ≡ (
        if id == k.application_id && (wildcard == k.purpose && same_class sc k.service_class)
        then some target
        else get k rules)
unfolding for_each same_key
class_inner id sc target k rules =
    rw
      (
        get-set (rule_key id sc admin_dev) k target (set (rule_key id sc user) target rules),
        get-set (rule_key id sc user) k target rules,
      )
      (ground (arith, profile_cases k.ai_profile))

profile_inner :
    (id : String) (p : AiProfile) (target : Target) (k : PolicyKey) (rules : Rules)
    → get k (for_each (λ sc qs. set (rule_key id sc p) target qs) classes rules) ≡ (
        if id == k.application_id && (wildcard == k.purpose && same_profile p k.ai_profile)
        then some target
        else get k rules)
unfolding for_each same_key
profile_inner id p target k rules =
    rw
      (
        get-set (rule_key id quality p) k target
            (set (rule_key id standard p) target (set (rule_key id economy p) target rules)),
        get-set (rule_key id standard p) k target (set (rule_key id economy p) target rules),
        get-set (rule_key id economy p) k target rules,
      )
      (ground (arith, class_cases k.service_class))

pub class_rules-get :
    (apps : List String) (sc : ServiceClass) (target : Target) (k : PolicyKey) (rules : Rules)
    → get k (class_rules apps sc target rules) ≡ (
        if includes apps k.application_id
          && (wildcard == k.purpose && same_class sc k.service_class)
        then some target
        else get k rules)
unfolding class_rules for_each
class_rules-get [] sc target k rules = refl
class_rules-get (id ∷ apps) sc target k rules =
    rw
      (class_rules-get apps sc target k
        (for_each (λ p qs. set (rule_key id sc p) target qs) profiles rules))
      (rw (class_inner id sc target k rules) (ground arith))

pub profile_rules-get :
    (apps : List String) (p : AiProfile) (target : Target) (k : PolicyKey) (rules : Rules)
    → get k (profile_rules apps p target rules) ≡ (
        if includes apps k.application_id && (wildcard == k.purpose && same_profile p k.ai_profile)
        then some target
        else get k rules)
unfolding profile_rules for_each
profile_rules-get [] p target k rules = refl
profile_rules-get (id ∷ apps) p target k rules =
    rw
      (profile_rules-get apps p target k
        (for_each (λ sc qs. set (rule_key id sc p) target qs) classes rules))
      (rw (profile_inner id p target k rules) (ground arith))
