-- ===== src/Frontend/Credentials/Laws.antt =====
-- The secret that the screen of the keys shows, and its state when every load has settled.
use cesar_core.Base.{
  String, ◌≡◌, refl, Bool, false, List, [], ◌∷◌, arith, none, some, ◌==◌, if◌then◌else◌, ◌⊎◌, inl,
  inr,
}
use cesar_core.Frontend.Api.{Reply, ok, failed}
use cesar_core.Frontend.Credentials.{
  Credential, Choice, Screen, start_load, both, loaded, set_open, submit, created, revoked, render,
}
use cesar_core.Frontend.Credentials.Steps.{
  System, Step, reply, dialog, send, issue, refuse, revoke, keep_key, Reach, at_mount, after,
}

-- The text of the latest key, if there is one.
abbrev pub latest : List String → String
latest [] = ""
latest (k ∷ ks) = k

pub record IsSound (s : System) : Type 0 where
  pub latest_shown : s.screen.secret ≡ latest s.issued
  pub idle : s.pending ≡ 0 → s.screen.loading ≡ false

loaded-fields :
    (r : Reply (List Credential × List Choice)) (s : Screen)
    → ((loaded r s).secret ≡ s.secret) × ((loaded r s).loading ≡ false)
unfolding loaded
loaded-fields (ok (items, apps)) s = (refl, refl)
loaded-fields (failed m) s = (refl, refl)

Step-IsSound : {s t : System} → Step s t → IsSound s → IsSound t
unfolding set_open submit created revoked
Step-IsSound (reply {s = s} first items apps) h = record {
  latest_shown = ground (arith, loaded-fields (both first items apps) s);
  idle = λ e. (loaded-fields (both first items apps) s).1;
}
Step-IsSound (dialog o) h = record { latest_shown = h.latest_shown; idle = h.idle }
Step-IsSound send h = record { latest_shown = h.latest_shown; idle = h.idle }
Step-IsSound (issue key) h = record { latest_shown = refl; idle = λ e. absurd (omega arith) }
Step-IsSound (refuse m) h = record { latest_shown = h.latest_shown; idle = h.idle }
Step-IsSound revoke h = record { latest_shown = h.latest_shown; idle = λ e. absurd (omega arith) }
Step-IsSound keep_key h = record { latest_shown = h.latest_shown; idle = h.idle }

Reach-IsSound : {s : System} → Reach s → IsSound s
unfolding start_load
Reach-IsSound at_mount = record { latest_shown = refl; idle = λ e. absurd (omega arith) }
Reach-IsSound (after r st) = Step-IsSound st (Reach-IsSound r)

module _ (locale_date locale_time : String → String) where
  -- After any events on the screen, the secret box shows the key that the API returned last, and is
  -- absent where it returned none; and when every load has settled, the screen is out of its loading
  -- state.
  pub secret_shown :
      {s : System}
      → Reach s
      → ((render locale_date locale_time s.screen).secret_box
          ≡ (if latest s.issued == "" then none else some (latest s.issued)))
        × (s.pending ≡ 0 → (render locale_date locale_time s.screen).loading_row ≡ false)
  unfolding render
  secret_shown r = let h = Reach-IsSound r in (ground (arith, h.latest_shown), h.idle)

-- The keys and the applications are replaced together, from one load in which both requests were
-- fulfilled, or both stay as they were and an error is set.
pub loaded-both :
    (first : Bool) (items : Reply (List Credential)) (apps : Reply (List Choice)) (s : Screen)
    → ((a : List Credential) × (b : List Choice) × (items ≡ ok a)
        × (apps ≡ ok b)
        × ((loaded (both first items apps) s).items ≡ a)
        × ((loaded (both first items apps) s).apps ≡ b))
      ⊎ ((m : String) × (both first items apps ≡ failed m)
          × ((loaded (both first items apps) s).items ≡ s.items)
          × ((loaded (both first items apps) s).apps ≡ s.apps)
          × ((loaded (both first items apps) s).page_error ≡ m))
unfolding loaded both
loaded-both first (ok a) (ok b) s = inl (a, b, refl, refl, refl, refl)
loaded-both first (ok a) (failed m) s = inr (m, refl, refl, refl, refl)
loaded-both first (failed m) (ok b) s = inr (m, refl, refl, refl, refl)
loaded-both first (failed m) (failed n) s = inr (_, refl, refl, refl, refl)
