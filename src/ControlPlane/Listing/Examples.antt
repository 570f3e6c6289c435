-- ===== src/ControlPlane/Listing/Examples.antt =====
-- Runs of the lists.
use cesar_core.Base.{
  ℕ, ◌+◌, ◌&&◌, ◌==◌, ◌≡◌, refl, true, Option, none, some, List, [], ◌∷◌, map, if◌then◌else◌,
}
use cesar_core.ControlPlane.Credentials.{Credential, active_credential_count}
use cesar_core.ControlPlane.Listing.{credentials_shown, list_credentials, order_by, place}
use cesar_core.ControlPlane.Listing.Laws.{count_of, is_shown_active, credentials_shown_lem}

abbrev made_at : ℕ → Option ℕ → Credential
made_at at revoked = record {
  id = "k";
  application_id = "gg_oferta";
  name = "worker";
  fingerprint = "0123456789ab";
  secret_hmac = [];
  created_at = at;
  revoked_at = revoked;
  last_used_at = none;
}

abbrev keys : List Credential
keys = made_at 3 none ∷ made_at 9 (some 12) ∷ made_at 7 none ∷ []

-- The newest key stands first, and the key file last.
listed_times :
    map (λ row. row.created_at) (credentials_shown true (some "gg_oferta") keys)
    ≡ some 9 ∷ some 7 ∷ some 3 ∷ none ∷ []
unfolding credentials_shown list_credentials order_by place
listed_times = refl

credentials_shown_example :
    count_of is_shown_active (credentials_shown true (some "gg_oferta") keys)
    ≡ active_credential_count "gg_oferta" keys
      + (if ("gg_oferta" == "gg_oferta") && true then 1 else 0)
credentials_shown_example = credentials_shown_lem true (some "gg_oferta") "gg_oferta" keys refl
