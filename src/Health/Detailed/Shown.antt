-- ===== src/Health/Detailed/Shown.antt =====
-- What the administrator sees of a service that is ready.
use cesar_core.Base.{
  String, ◌≡◌, refl, true, false, not, ◌||◌, none, some, List, [], ◌∷◌, All, arith, Bool-cases, inl,
  inr, is_some,
}
use cesar_core.ControlPlane.Registry.{Capability, ai, search}
use cesar_core.ControlPlane.Token.{File}
use cesar_core.ControlPlane.Login.{filled}
use cesar_core.Gateway.Terms.{returned}
use cesar_core.Health.{Setup, has_general_web, is_enabled, any_enabled, ready}
use cesar_core.Health.Probe.{
  Keys, configs_of, Replies, own_key_accepted, Answers, asks_provider, probe_readiness,
}
use cesar_core.Health.Laws.{IsAlive}
use cesar_core.Health.Ready.{IsReady, ready-IsReady}
use cesar_core.Health.Detailed.{
  healthy, is_failed, redis, first_rejected, looked_at, omniroute, searxng, detailed_health,
  first_failed, health_shown,
}

IsAlive-unrejected :
    (k : Keys) (s : Setup) (replies : Capability → Replies) (cs : List Capability)
    → All (λ c. is_enabled c s ≡ true → IsAlive k replies c) cs
    → (clients : List (Capability × File String)) × (configs_of k s cs ≡ some clients)
      × (first_rejected replies clients ≡ returned none)
unfolding configs_of first_rejected own_key_accepted
IsAlive-unrejected k s replies [] h = ([], refl, refl)
IsAlive-unrejected k s replies (c ∷ cs) (h, hs) =
    let (rest, found, alive) = IsAlive-unrejected k s replies cs hs in
    elim (Bool-cases (is_enabled c s)) [
      | inr off ↦ (rest, rw off found, alive)
      | inl on ↦
          let a = h on in
          (
            (c, a.file) ∷ rest,
            rw (on, a.configured, found) refl,
            rw (a.healthy, a.readable, a.accepts) alive,
          )
    ]

redis_healthy : (s : Setup) (a : Answers) → IsReady s a → (redis a).status ≡ healthy
unfolding redis
redis_healthy s a h = rw (h.quota, redis) refl

omniroute_fine : (s : Setup) (a : Answers) → IsReady s a → is_failed (omniroute s a).status ≡ false
unfolding omniroute
omniroute_fine s a h =
    let (clients, made, pass) =
      IsAlive-unrejected a.keys s a.replies looked_at (h.alive ai, (h.alive search, tt)) in
    elim (Bool-cases (is_enabled ai s || is_enabled search s)) [
      | inr off ↦ rw off refl
      | inl on ↦ rw (on, h.distinct) (rw made (rw pass refl))
    ]

searxng_fine :
    (s : Setup) (a : Answers)
    → IsReady s a
    → is_some (filled s.search_config.provider_health_url) ≡ true
    → is_failed (searxng s a).status ≡ false
unfolding searxng asks_provider
searxng_fine s a h set =
    elim (Bool-cases (not s.search_config.enabled || not (has_general_web s.search_config))) [
      | inl off ↦ rw off refl
      | inr on ↦
          let answers : a.provider_health ≡ true = h.provider (ground (arith, on, set)) in
          rw (on, set, answers) refl
    ]

-- Where a capability is configured and the service says that it is ready, where the tables can be
-- read, and where the address of the health of search's provider is set, the health that the
-- administrator sees has no failed component.
pub ready_shown :
    (s : Setup) (a : Answers)
    → any_enabled s ≡ true
    → probe_readiness s a ≡ ready
    → is_some (filled s.search_config.provider_health_url) ≡ true
    → (health_shown true s a).1 ≡ none
unfolding health_shown first_failed detailed_health
ready_shown s a on told set =
    let h = ready-IsReady s a on told in
    rw (redis_healthy s a h, omniroute_fine s a h, searxng_fine s a h set) refl
