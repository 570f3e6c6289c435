-- ===== src/ControlPlane/Registry.antt =====
-- admin/storage.py and admin/migrations: the tables of applications, capabilities and quotas, and
-- the operations of `ControlPlaneStore` on them. SQL statements are functions of the tables; a
-- statement that breaks a constraint raises, and `connect` rolls the whole block back.
pub mod Tables
pub mod Puts
pub mod Laws
pub mod Success
pub mod Steps
pub mod Funded
pub mod Protected
mod Examples
use cesar_core.Base.{
  ℕ, zero, suc, String, Bool, true, false, ◌&&◌, ◌||◌, Option, none, some, List, [], ◌∷◌, ◌++◌,
  ◌==◌, nat_eq, keep, any, is_some, if◌then◌else◌,
}

pub data Capability : Type 0 where
  ai fetch search : Capability

unfoldable pub cap_eq : Capability → Capability → Bool
cap_eq ai ai = true
cap_eq fetch fetch = true
cap_eq search search = true
cap_eq _ _ = false

-- Equality of the pairs that are the primary key of two of the tables.
unfoldable pub same_key : String → Capability → String → Capability → Bool
unfolding cap_eq
same_key i c j d = i == j && cap_eq c d

-- In the order of their names.
abbrev pub all_capabilities : List Capability
all_capabilities = ai ∷ fetch ∷ search ∷ []

pub data State : Type 0 where
  active disabled reserved : State

pub record Application : Type 0 where
  pub id : String
  pub display_name : String
  pub client_id : String
  pub state : State
  pub is_protected : Bool
  pub created_at : ℕ
  pub updated_at : ℕ

-- A row of `application_capabilities`.
pub record Grant : Type 0 where
  pub application_id : String
  pub capability : Capability

-- A row of `quota_policies`.
pub record Policy : Type 0 where
  pub application_id : String
  pub capability : Capability
  pub limit_per_minute : ℕ
  pub updated_at : ℕ

pub record Registry : Type 0 where
  pub applications : List Application
  pub grants : List Grant
  pub policies : List Policy

pub data Error : Type 0 where
  key_error permission_error unique_violated check_violated foreign_key_violated : Error

-- What a statement or a method gives: the exception that it raises, or its value.
pub data Result {ℓ} (Value : Type ℓ) : Type ℓ where
  err : (raised : Error) → Result Value
  ok : (value : Value) → Result Value

-- The statements after one are skipped where it raises.
infixl 5 ◌>>=◌
abbrev pub ◌>>=◌ {ℓ κ} :
    {Value : Type ℓ} {Next : Type κ} → Result Value → (Value → Result Next) → Result Next
err raised >>= next = err raised
ok value >>= next = next value

-- `SELECT … FROM applications WHERE id=?`.
unfoldable pub find : String → List Application → Option Application
find id [] = none
find id (a ∷ apps) = if a.id == id then some a else find id apps

unfoldable pub granted : String → Capability → List Grant → Bool
granted id c [] = false
granted id c (g ∷ gs) = same_key g.application_id g.capability id c || granted id c gs

-- `get_quota`.
unfoldable pub get_quota : String → Capability → List Policy → Option ℕ
get_quota id c [] = none
get_quota id c (p ∷ ps) =
    if same_key p.application_id p.capability id c
    then some p.limit_per_minute
    else get_quota id c ps

-- `INSERT INTO applications`: `id` and `client_id` are unique.
unfoldable pub insert_application : Application → List Application → Result (List Application)
insert_application a apps =
    if is_some (find a.id apps) || any (λ b. b.client_id == a.client_id) apps
    then err unique_violated
    else ok (apps ++ a ∷ [])

-- `INSERT OR IGNORE INTO applications`.
unfoldable pub ignore_application : Application → List Application → List Application
unfolding insert_application
ignore_application a apps = elim (insert_application a apps) [ ok new ↦ new | err e ↦ apps ]

-- `UPDATE applications SET display_name=?,state=?,updated_at=? WHERE id=?`.
unfoldable pub set_application : String → String → State → ℕ → List Application → List Application
set_application id name state now [] = []
set_application id name state now (a ∷ apps) =
    (if a.id == id then record a { display_name = name; state = state; updated_at = now } else a)
    ∷ set_application id name state now apps

-- `DELETE FROM application_capabilities WHERE application_id=?`.
unfoldable pub delete_grants : String → List Grant → List Grant
delete_grants id [] = []
delete_grants id (g ∷ gs) =
    let rest = delete_grants id gs in if g.application_id == id then rest else g ∷ rest

-- `INSERT INTO application_capabilities`: the pair is the primary key.
unfoldable pub insert_grant : String → Capability → List Grant → Result (List Grant)
insert_grant id c gs =
    if granted id c gs
    then err unique_violated
    else ok (gs ++ record { application_id = id; capability = c } ∷ [])

-- `INSERT INTO quota_policies … ON CONFLICT … DO UPDATE`, past the check of the limit.
unfoldable pub upsert_policy : Policy → List Policy → List Policy
upsert_policy p [] = p ∷ []
upsert_policy p (q ∷ ps) =
    if same_key q.application_id q.capability p.application_id p.capability
    then record q { limit_per_minute = p.limit_per_minute; updated_at = p.updated_at } ∷ ps
    else q ∷ upsert_policy p ps

unfoldable pub put_policy : Policy → List Policy → Result (List Policy)
put_policy p ps =
    if nat_eq p.limit_per_minute 0 then err check_violated else ok (upsert_policy p ps)

-- `quotas[capability]`.
unfoldable pub required : Option ℕ → Result ℕ
required none = err key_error
required (some n) = ok n

-- The loop of `update_application` over the sorted capabilities.
unfoldable pub put_capabilities :
    String → ℕ → (Capability → Option ℕ) → List Capability → Registry → Result Registry
unfolding insert_grant put_policy required
put_capabilities id now quotas [] r = ok r
put_capabilities id now quotas (c ∷ cs) r = do
  grants ← insert_grant id c r.grants
  limit ← required (quotas c)
  policies ←
      put_policy
        (record { application_id = id; capability = c; limit_per_minute = limit; updated_at = now })
        r.policies
  put_capabilities id now quotas cs (record r { grants = grants; policies = policies })

-- What a caller of `update_application` passes; a set is its test.
pub record Change : Type 0 where
  pub display_name : String
  pub state : State
  pub capabilities : Capability → Bool
  pub quotas : Capability → Option ℕ

unfoldable pub changed : String → ℕ → Change → Registry → Result Registry
changed id now ch r =
    put_capabilities id now ch.quotas (keep ch.capabilities all_capabilities) (record r {
      applications = set_application id ch.display_name ch.state now r.applications;
      grants = delete_grants id r.grants;
    })

-- `connect`: the block commits, or rolls back and raises.
unfoldable pub transact : Result Registry → Registry → Registry × Result (Unit {0})
transact (ok new) r = (new, ok tt)
transact (err e) r = (r, err e)

unfoldable pub update_application : String → ℕ → Change → Registry → Registry × Result (Unit {0})
update_application id now ch r = elim (find id r.applications) [
  | none ↦ (r, err key_error)
  | some current ↦
      if current.is_protected then (r, err permission_error) else transact (changed id now ch r) r
]

unfoldable pub create_application :
    String → String → String → ℕ → Registry → Registry × Result (Unit {0})
unfolding transact
create_application id name client now r =
    transact
      (do
        apps ←
            insert_application
              (record {
                id = id;
                display_name = name;
                client_id = client;
                state = disabled;
                is_protected = false;
                created_at = now;
                updated_at = now;
              })
              r.applications
        ok (record r { applications = apps }))
      r

-- `INSERT OR IGNORE INTO application_capabilities` and `quota_policies`; a missing application
-- breaks the foreign key, which is not ignored.
unfoldable pub seed : String → ℕ → Capability → ℕ → Registry → Result Registry
seed id now c limit r =
    if is_some (find id r.applications)
    then ok (record r {
      grants =
          if granted id c r.grants
          then r.grants
          else r.grants ++ record { application_id = id; capability = c } ∷ [];
      policies =
          if is_some (get_quota id c r.policies) || nat_eq limit 0
          then r.policies
          else r.policies
            ++ record {
              application_id = id;
              capability = c;
              limit_per_minute = limit;
              updated_at = now;
            }
              ∷ [];
    })
    else err foreign_key_violated

abbrev pub gg_oferta_row : ℕ → Application
gg_oferta_row now = record {
  id = "gg_oferta";
  display_name = "GG Oferta";
  client_id = "ggoferta-core-client";
  state = active;
  is_protected = false;
  created_at = now;
  updated_at = now;
}

abbrev pub claudiao_row : ℕ → Application
claudiao_row now = record {
  id = "claudiao";
  display_name = "Claudião";
  client_id = "claudiao-core-client";
  state = reserved;
  is_protected = true;
  created_at = now;
  updated_at = now;
}

-- The applications that the service itself registers.
unfoldable pub known_rows : ℕ → List Application → List Application
known_rows now apps =
    ignore_application (claudiao_row now) (ignore_application (gg_oferta_row now) apps)

-- The loop of `bootstrap` over the three limits.
unfoldable pub seeds : ℕ → ℕ → ℕ → ℕ → Registry → Result Registry
seeds now ai_limit search_limit fetch_limit r = do
  with_ai ← seed "gg_oferta" now ai ai_limit r
  with_search ← seed "gg_oferta" now search search_limit with_ai
  seed "gg_oferta" now fetch fetch_limit with_search

unfoldable pub bootstrap : ℕ → ℕ → ℕ → ℕ → Registry → Registry × Result (Unit {0})
unfolding transact
bootstrap now ai_limit search_limit fetch_limit r =
    transact
      (seeds now ai_limit search_limit fetch_limit
        (record r { applications = known_rows now r.applications }))
      r

-- The row that `get_application` and `list_applications` return for an application.
pub record Listed : Type 0 where
  pub application : Application
  pub capabilities : List Capability
  pub quotas : Capability → Option ℕ

unfoldable pub listed : Registry → Application → Listed
listed r a = record {
  application = a;
  capabilities = keep (λ c. granted a.id c r.grants) all_capabilities;
  quotas = λ c. get_quota a.id c r.policies;
}

unfoldable pub get_application : String → Registry → Option Listed
unfolding listed
get_application id r = elim (find id r.applications) [ none ↦ none | some a ↦ some (listed r a) ]
