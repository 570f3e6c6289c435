-- ===== src/ControlPlane/Admin/Examples.antt =====
-- A run of requests of the administrative API.
use cesar_core.Base.{ℕ, ◌+◌, String, ◌≡◌, refl, false, some, List, [], ◌∷◌, map}
use cesar_core.ControlPlane.Registry
use cesar_core.ControlPlane.Registry.{
  bootstrap, ai, active, Capability, cap_eq, find, granted, get_quota, get_application, listed,
  seeds, known_rows, seed, ignore_application, Change, changed, put_capabilities, insert_grant,
  put_policy, required, upsert_policy, set_application, delete_grants, update_application, transact,
  insert_application, create_application,
}
use cesar_core.ControlPlane.Registry.Steps
use cesar_core.ControlPlane.Token.{
  compare_digest, starts_with, strip, left_strip, right_strip, is_space, read_required, left_bytes,
  right_bytes, issue_credential, credential_hmac, token_of, replace,
}
use cesar_core.ControlPlane.Credentials.{
  taken, insert_credential, create_credential, set_revoked, revoke_credential, revoke_route,
}
use cesar_core.ControlPlane.Sessions.{
  open_session, id_used, hash_used, create_session, touch, is_current, validate_session,
}
use cesar_core.ControlPlane.Login.{
  is_configured, strip_slashes, validate_origin, checked_csrf, validated, require_session,
  is_password, rate_limit, login,
}
use cesar_core.ControlPlane.Login.Examples as Logins
use cesar_core.ControlPlane.Admin.{Plane, audit, list_audit, newest_first, first_events}
use cesar_core.ControlPlane.Admin.Handlers.{
  Command, log_in, edit, new_credential, revoke, Caller, Libraries, handle, allowed, key_made,
  key_revoked, credential_route, login_told, past_session,
}
use cesar_core.ControlPlane.Admin.Trail.{Run, start, next}
use cesar_core.ControlPlane.Admin.Accounts.{IsAccounted, Run-IsAccounted}

-- A digest of 32 bytes, whose first is the length of the message.
abbrev libraries : Libraries
libraries = record {
  digest = Logins.digest;
  netloc = Logins.host_of;
  lower = Logins.same_text;
  verify = Logins.any_password;
  utf8 = Logins.digest;
  hmac_sha256 = λ k m. Logins.repeated 32 3;
  hex_tail = λ b. "0123456789ab";
}

abbrev caller : ℕ → Caller
caller now = record { request = Logins.asked; correlation = some "c1"; now = now }

abbrev fresh_plane : Plane
fresh_plane = record {
  store = record { registry = (bootstrap 1 2 60 30 Steps.empty).0; credentials = [] };
  sessions = [];
  events = [];
}

-- A login, a new key of `gg_oferta`, its revocation, and a key for a protected application.
abbrev secret : String
secret = "0123456789abcdef0123456789abcdef"

abbrev commands : List Command
commands =
    log_in (some 1) "s" "token" "csrf" "secret"
    ∷ edit (new_credential "r1" secret "gg_oferta" "worker")
    ∷ edit (revoke "r1")
    ∷ edit (new_credential "r2" secret "claudiao" "worker")
    ∷ []

run_all : List Command → ℕ → Plane → Plane
run_all [] now p = p
run_all (x ∷ xs) now p =
    run_all xs (now + 1) (handle libraries Logins.config false (caller now) x p).0

run_all-Run :
    (xs : List Command) (now : ℕ) (p q : Plane)
    → Run libraries Logins.config false p q
    → Run libraries Logins.config false p (run_all xs now q)
unfolding run_all
run_all-Run [] now p q r = r
run_all-Run (x ∷ xs) now p q r = run_all-Run xs (now + 1) p _ (next (caller now) x r)

abbrev ended : Plane
ended = run_all commands 100 fresh_plane

told_actions :
    map (λ e. e.action) ended.events
    ≡ "admin.login" ∷ "credential.create" ∷ "credential.revoke" ∷ "credential.create" ∷ []
unfolding run_all handle past_session require_session is_configured strip_slashes validate_session
    open_session login starts_with strip is_space create_session id_used hash_used audit
    compare_digest is_current allowed credential_route key_made key_revoked login_told
    create_credential insert_credential revoke_credential revoke_route set_revoked taken
    checked_csrf is_password rate_limit validate_origin validated find get_application bootstrap
    seeds known_rows seed ignore_application granted get_quota Registry.same_key cap_eq listed touch
    credential_hmac issue_credential left_bytes left_strip read_required replace right_bytes
    right_strip token_of
told_actions = refl

-- The newest two events.
newest : map (λ e. e.outcome) (list_audit 2 ended.events) ≡ "denied" ∷ "success" ∷ []
unfolding list_audit newest_first first_events run_all handle past_session require_session
    is_configured strip_slashes validate_session open_session login starts_with strip is_space
    create_session id_used hash_used audit compare_digest is_current allowed credential_route
    key_made key_revoked login_told create_credential insert_credential revoke_credential
    revoke_route set_revoked taken checked_csrf is_password rate_limit validate_origin validated
    find get_application bootstrap seeds known_rows seed ignore_application granted get_quota
    Registry.same_key cap_eq listed touch credential_hmac issue_credential left_bytes left_strip
    read_required replace right_bytes right_strip token_of
newest = refl

Run-IsAccounted_example : IsAccounted ended
Run-IsAccounted_example =
    Run-IsAccounted libraries Logins.config false refl
      (run_all-Run commands 100 fresh_plane fresh_plane start)
