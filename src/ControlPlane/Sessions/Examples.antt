-- ===== src/ControlPlane/Sessions/Examples.antt =====
-- Runs of the sessions.
use cesar_core.Base.{ℕ, ◌+◌, ◌<◌, ◌≡◌, refl, true, none, some, List, [], ◌∷◌}
use cesar_core.ControlPlane.Registry.{ok}
use cesar_core.ControlPlane.Token.{Bytes, compare_digest}
use cesar_core.ControlPlane.Sessions.{
  Session, open_session, id_used, hash_used, create_session, touch, is_current, validate_session,
  revoke_session,
}
use cesar_core.ControlPlane.Sessions.Laws.{
  at_once, later, validated, validate_session-IsValid, closed_for_good,
}

abbrev repeated : ℕ → ℕ → Bytes
repeated ℕ.zero b = []
repeated (ℕ.suc n) b = b ∷ repeated n b

abbrev admin : Session
admin = record {
  id = "s";
  token_hash = repeated 32 1;
  csrf_hash = repeated 32 2;
  created_at = 100;
  last_seen_at = 100;
  expires_at = 400;
  revoked_at = none;
}

opened : create_session "s" (repeated 32 1) (repeated 32 2) 300 100 [] ≡ ok (admin ∷ [])
unfolding create_session id_used hash_used
opened = refl

seen : (validate_session (repeated 32 1) (some (repeated 32 2)) 60 150 (admin ∷ [])).1 ≡ some admin
unfolding validate_session open_session is_current compare_digest
seen = refl

idle : (validate_session (repeated 32 1) none 60 160 (admin ∷ [])).1 ≡ none
unfolding validate_session open_session is_current compare_digest
idle = refl

touched :
    (validate_session (repeated 32 1) none 60 150 (admin ∷ [])).0
    ≡ record admin { last_seen_at = 150 } ∷ []
unfolding validate_session open_session is_current compare_digest touch
touched = refl

validate_session-IsValid_example :
    (admin.token_hash ≡ repeated 32 1)
    × (admin.revoked_at ≡ none)
    × (150 < admin.expires_at)
    × (150 < admin.last_seen_at + 60)
    × ((c : Bytes) → some (repeated 32 2) ≡ some c → admin.csrf_hash ≡ c)
validate_session-IsValid_example =
    validate_session-IsValid (repeated 32 1) (some (repeated 32 2)) 60 150 (admin ∷ []) admin seen

used : hash_used (repeated 32 1) (admin ∷ []) ≡ true
unfolding hash_used compare_digest
used = refl

abbrev afterwards : List Session
afterwards =
    (validate_session (repeated 32 1) none 60 130
      (revoke_session (repeated 32 1) 120 (admin ∷ []))).0

closed_for_good_example :
    validate_session (repeated 32 1) none 60 140 afterwards ≡ (afterwards, none)
closed_for_good_example =
    closed_for_good (repeated 32 1) none 60 120 140 (admin ∷ []) afterwards used
      (later at_once (validated (repeated 32 1) none 60 130))
