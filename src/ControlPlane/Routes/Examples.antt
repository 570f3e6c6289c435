-- ===== src/ControlPlane/Routes/Examples.antt =====
-- Changes through the API: the theorems at concrete requests.
use cesar_core.Base.{
  lookup, ℕ, ◌<◌, String, ◌≡◌, ◌⊎◌, refl, Bool, true, false, none, some, List, [], ◌∷◌,
}
use mathlib.Core.List.{Memᴰ}
use cesar_core.ControlPlane.Credentials.{Credential, active_credential_count}
use cesar_core.Frontend.Applications.{Entry}
use cesar_core.Frontend.Applications.Form.{edit_body, edit_defaults}
use cesar_core.ControlPlane.Registry.{
  Capability, fetch, same_key, active, Registry, Change, find, granted, get_quota,
  update_application, bootstrap, changed, set_application, delete_grants, put_capabilities,
  upsert_policy, known_rows, seeds, seed, ignore_application,
}
use cesar_core.ControlPlane.Registry.Steps.{empty}
use cesar_core.ControlPlane.Routes.{done, put_application, put_body, parse_update}
use cesar_core.ControlPlane.Routes.Laws.{put_application-active, put_body-edit-fetch}

abbrev booted : Registry
booted = (bootstrap 1 60 60 30 empty).0

abbrev everything : Change
everything = record {
  display_name = "GG";
  state = active;
  capabilities = λ c. true;
  quotas = λ c. some 5;
}

-- A revoked key, and one that is not.
abbrev keys : List Credential
keys =
    record {
      id = "a";
      application_id = "gg_oferta";
      name = "old";
      fingerprint = "";
      secret_hmac = [];
      created_at = 1;
      revoked_at = some 2;
      last_used_at = none;
    }
    ∷ record {
      id = "b";
      application_id = "gg_oferta";
      name = "new";
      fingerprint = "";
      secret_hmac = [];
      created_at = 2;
      revoked_at = none;
      last_used_at = none;
    }
    ∷ []

abbrev after_put : Registry
after_put = (put_application false keys "gg_oferta" 2 everything booted).0

accepted : put_application false keys "gg_oferta" 2 everything booted ≡ (after_put, done)
unfolding bootstrap update_application changed seeds known_rows seed ignore_application find granted
    get_quota set_application delete_grants put_capabilities upsert_policy same_key put_application
    active_credential_count
accepted = refl

put_application-active_example :
    ((c : Capability) × (granted "gg_oferta" c after_put.grants ≡ true))
    × ((c : Capability)
        → granted "gg_oferta" c after_put.grants ≡ true
        → (m : ℕ) × (get_quota "gg_oferta" c after_put.policies ≡ some m) × (0 < m))
    × ((◌≡◌ {A = String} "gg_oferta" "gg_oferta" × ◌≡◌ {A = Bool} false true)
        ⊎ ((key : Credential) × Memᴰ key keys
            × (key.application_id ≡ "gg_oferta")
            × (key.revoked_at ≡ none)))
put_application-active_example =
    put_application-active false keys "gg_oferta" 2 everything booted after_put accepted refl

-- The row of `gg_oferta` as the interface has loaded it, with the capability `fetch`.
abbrev gg_oferta : Entry
gg_oferta = record {
  id = "gg_oferta";
  display_name = "GG Oferta";
  client_id = "ggoferta-core-client";
  state = "active";
  is_protected = false;
  capabilities = "ai" ∷ "fetch" ∷ "search" ∷ [];
  quotas = ("ai", 60) ∷ ("fetch", 30) ∷ ("search", 60) ∷ [];
}

abbrev any_name : String → Bool
any_name name = true

abbrev after_save : Registry
after_save =
    (put_body any_name true [] "gg_oferta" 2 (edit_body (edit_defaults gg_oferta)) booted).0

saved :
    put_body any_name true [] "gg_oferta" 2 (edit_body (edit_defaults gg_oferta)) booted
    ≡ (after_save, done)
unfolding bootstrap update_application changed seeds known_rows seed ignore_application find granted
    get_quota set_application delete_grants put_capabilities upsert_policy same_key put_application
    put_body parse_update edit_body edit_defaults lookup
saved = refl

had_fetch : granted "gg_oferta" fetch booted.grants ≡ true
unfolding bootstrap seeds known_rows seed ignore_application find granted get_quota same_key
had_fetch = refl

put_body-edit-fetch_example : granted "gg_oferta" fetch after_save.grants ≡ false
put_body-edit-fetch_example =
    put_body-edit-fetch any_name true [] 2 gg_oferta booted after_save saved
