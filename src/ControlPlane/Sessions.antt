-- ===== src/ControlPlane/Sessions.antt =====
-- admin/storage.py and admin/migrations: the sessions of the administrator. Times and durations are
-- numbers of one unit, the microsecond; the digests of the token and of the CSRF token are bytes.
pub mod Laws
mod Examples
use cesar_core.Base.{
  ℕ, ◌+◌, String, Bool, true, false, not, ◌&&◌, ◌||◌, Option, none, some, List, [], ◌∷◌, ◌++◌, ◌==◌,
  leb, nat_eq, length, is_some, if◌then◌else◌,
}
use cesar_core.ControlPlane.Registry.{Result, ok, err, unique_violated, check_violated}
use cesar_core.ControlPlane.Token.{Bytes, compare_digest}

-- A row of `admin_sessions`.
pub record Session : Type 0 where
  pub id : String
  pub token_hash : Bytes
  pub csrf_hash : Bytes
  pub created_at : ℕ
  pub last_seen_at : ℕ
  pub expires_at : ℕ
  pub revoked_at : Option ℕ

-- `token_hash=? AND revoked_at IS NULL`.
abbrev pub is_open : Bytes → Session → Bool
is_open hash s = compare_digest s.token_hash hash && not (is_some s.revoked_at)

unfoldable pub open_session : Bytes → List Session → Option Session
open_session hash [] = none
open_session hash (s ∷ ss) = if is_open hash s then some s else open_session hash ss

-- The primary key, or the unique digest of the token, is in use.
unfoldable pub id_used : String → List Session → Bool
id_used id [] = false
id_used id (s ∷ ss) = s.id == id || id_used id ss

unfoldable pub hash_used : Bytes → List Session → Bool
hash_used hash [] = false
hash_used hash (s ∷ ss) = compare_digest s.token_hash hash || hash_used hash ss

unfoldable pub create_session :
    String → Bytes → Bytes → ℕ → ℕ → List Session → Result (List Session)
create_session id token_hash csrf_hash lifetime now ss =
    if id_used id ss || hash_used token_hash ss
    then err unique_violated
    else if not (nat_eq (length token_hash) 32 && nat_eq (length csrf_hash) 32)
    then err check_violated
    else ok (
        ss
        ++ record {
          id = id;
          token_hash = token_hash;
          csrf_hash = csrf_hash;
          created_at = now;
          last_seen_at = now;
          expires_at = now + lifetime;
          revoked_at = none;
        }
          ∷ [])

-- `UPDATE admin_sessions SET last_seen_at=? WHERE id=?`.
unfoldable pub touch : String → ℕ → List Session → List Session
touch id now [] = []
touch id now (s ∷ ss) =
    (if s.id == id then record s { last_seen_at = now } else s) ∷ touch id now ss

-- The checks of `validate_session` on the row.
unfoldable pub is_current : Option Bytes → ℕ → ℕ → Session → Bool
is_current csrf_hash idle now s =
    not (leb s.expires_at now)
    && not (leb (s.last_seen_at + idle) now)
    && elim csrf_hash [ none ↦ true | some hash ↦ compare_digest s.csrf_hash hash ]

unfoldable pub validate_session :
    Bytes → Option Bytes → ℕ → ℕ → List Session → List Session × Option Session
validate_session token_hash csrf_hash idle now ss = elim (open_session token_hash ss) [
  | none ↦ (ss, none)
  | some s ↦ if is_current csrf_hash idle now s then (touch s.id now ss, some s) else (ss, none)
]

-- `UPDATE admin_sessions SET revoked_at=? WHERE token_hash=?`.
unfoldable pub revoke_session : Bytes → ℕ → List Session → List Session
revoke_session hash now [] = []
revoke_session hash now (s ∷ ss) =
    (if compare_digest s.token_hash hash then record s { revoked_at = some now } else s)
    ∷ revoke_session hash now ss
