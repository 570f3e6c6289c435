-- ===== src/Frontend/Credentials/Examples.antt =====
-- Runs of the screen of the keys.
use cesar_core.Base.{String, ◌≡◌, ◌⊎◌, true, List, [], ◌∷◌}
use cesar_core.Frontend.Api.{ok, failed}
use cesar_core.Frontend.Credentials.{Credential, Choice, initial, start_load, both, loaded, created}
use cesar_core.Frontend.Credentials.Steps.{System, reply, issue, Reach, at_mount, after}
use cesar_core.Frontend.Credentials.Laws.{loaded-both}

abbrev plain : String → String
plain t = t

-- A key is issued while the first load is under way, and both loads settle.
abbrev issued : System
issued = record {
  pending = 0;
  issued = "cc_k.s" ∷ [];
  screen =
      loaded (both true (ok []) (ok []))
        (loaded (both true (failed "down") (ok [])) (created (ok "cc_k.s") (start_load initial)));
}

issued-Reach : Reach issued
issued-Reach =
    after (after (after at_mount (issue "cc_k.s")) (reply true (failed "down") (ok [])))
      (reply true (ok []) (ok []))

loaded-both_example :
    ((a : List Credential) × (b : List Choice) × (ok [] ≡ ok a)
      × (failed "down" ≡ ok b)
      × ((loaded (both true (ok []) (failed "down")) initial).items ≡ a)
      × ((loaded (both true (ok []) (failed "down")) initial).apps ≡ b))
    ⊎ ((m : String) × (both true (ok []) (failed "down") ≡ failed m)
        × ((loaded (both true (ok []) (failed "down")) initial).items ≡ initial.items)
        × ((loaded (both true (ok []) (failed "down")) initial).apps ≡ initial.apps)
        × ((loaded (both true (ok []) (failed "down")) initial).page_error ≡ m))
loaded-both_example = loaded-both true (ok []) (failed "down") initial
