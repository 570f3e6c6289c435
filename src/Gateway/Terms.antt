-- ===== src/Gateway/Terms.antt =====
-- policy/*.py and applications/context.py: what a request says about itself, and how a call ends.
use cesar_core.Base.{ℕ, String, Bool, true, false, Option, ◌≡◌, refl, ◌⊎◌, inl, inr}

pub data ServiceClass : Type 0 where
  economy standard quality : ServiceClass

pub data CostPolicy : Type 0 where
  free_only free_preferred paid_allowed : CostPolicy

pub data AiProfile : Type 0 where
  user admin_dev : AiProfile

unfoldable pub same_class : ServiceClass → ServiceClass → Bool
same_class economy economy = true
same_class standard standard = true
same_class quality quality = true
same_class _ _ = false

unfoldable pub same_profile : AiProfile → AiProfile → Bool
same_profile user user = true
same_profile admin_dev admin_dev = true
same_profile _ _ = false

pub record Requirements : Type 0 where
  pub service_class : ServiceClass
  pub cost_policy : CostPolicy

-- `ApplicationContext`; the service is read by nothing.
pub record Context : Type 0 where
  pub application_id : String
  pub purpose : String
  pub request_id : String
  pub correlation_id : String

-- `cost_policy is CostPolicy.FREE_ONLY`.
unfoldable pub is_free_only : CostPolicy → Bool
is_free_only free_only = true
is_free_only _ = false

-- What a call comes to: an exception, or its value.
pub data Outcome {ℓ} (Failure : Type 0) (Value : Type ℓ) : Type ℓ where
  raised : (failure : Failure) → Outcome Failure Value
  returned : (value : Value) → Outcome Failure Value

-- What the API sends: an answer with the status 200, the detail of an error with its status, or the
-- error of the framework for an exception that nothing expects.
pub data Sent (Answer : Type 0) : Type 0 where
  answer : Answer → Sent Answer
  detail :
      (status_code : ℕ) (code request_id correlation_id : String)
      (upstream_request_id : Option String)
      → Sent Answer
  internal_error : Sent Answer

-- What comes after a call is skipped where it raises.
infixl 5 ◌>>=◌
abbrev pub ◌>>=◌ {ℓ κ} :
    {Failure : Type 0} {Value : Type ℓ} {Last : Type κ}
    → Outcome Failure Value
    → (Value → Outcome Failure Last)
    → Outcome Failure Last
raised failure >>= rest = raised failure
returned value >>= rest = rest value

-- A chain of calls that ends with a value has a value at its first call.
pub chained :
    {Failure A B : Type 0} (call : Outcome Failure A) (rest : A → Outcome Failure B) {b : B}
    → (call >>= rest) ≡ returned b
    → (a : A) × (call ≡ returned a) × (rest a ≡ returned b)
chained (returned a) rest h = (a, refl, h)
chained (raised e) rest h = cc

-- A call raises or returns.
pub outcome-cases {ℓ} :
    {E : Type 0} {A : Type ℓ} (x : Outcome E A)
    → ((e : E) × (x ≡ raised e)) ⊎ ((a : A) × (x ≡ returned a))
outcome-cases (raised e) = inl (e, refl)
outcome-cases (returned a) = inr (a, refl)
