-- ===== src/Health/Ready.antt =====
-- The readiness of health/service.py.
use cesar_core.Base.{
  String, ◌≡◌, ◌↔◌, ◌⊎◌, refl, sym, ap, ◌∙◌, Bool, true, false, not, ◌&&◌, ◌||◌, none, some, List,
  All, arith, Bool-cases, Option-cases, inl, inr, if◌then◌else◌,
}
use cesar_core.ControlPlane.Registry.{Capability, ai, search, fetch}
use cesar_core.ControlPlane.Token.{File}
use cesar_core.Gateway.Terms.{Outcome, raised, returned}
use cesar_core.Gateway.Omniroute.{Error}
use cesar_core.Health.{
  Setup, status_of, is_available, has_authentication, is_enabled, any_enabled, get_capabilities,
  ready, degraded, get_readiness,
}
use cesar_core.Health.Probe.{
  probe_quota_storage, are_distinct, capabilities_in_order, configs_of, probe_clients, Answers,
  has_credential, asks_provider, caught, probed, probe_readiness,
}
use cesar_core.Health.Laws.{IsAlive, configs-IsAlive, IsAlive-configs}

available_lem : (b : Bool) → is_available (status_of b) ≡ b
available_lem true = refl
available_lem false = refl

readiness_lem :
    (b : Bool) (s : Setup)
    → get_readiness b s
      ≡ (if not (any_enabled s) || (has_authentication s && b) then ready else degraded none)
unfolding get_readiness get_capabilities any_enabled
readiness_lem b s =
    rw
      (
        available_lem (is_enabled ai s),
        available_lem (is_enabled search s),
        available_lem (is_enabled fetch s),
        available_lem (has_authentication s),
      )
      refl

-- The service is ready for what it offers.
pub record IsReady (s : Setup) (a : Answers) : Type 0 where
  pub authenticates : has_authentication s ≡ true
  pub credential : has_credential s ≡ true
  pub quota : probe_quota_storage a.redis ≡ none
  pub distinct : are_distinct a.keys ≡ true
  pub provider : asks_provider s ≡ true → a.provider_health ≡ true
  pub alive : (c : Capability) → is_enabled c s ≡ true → IsAlive a.keys a.replies c

caught-true : (o : Outcome Error Bool) → caught o ≡ true → o ≡ returned true
caught-true (raised e) h = absurd (ground arith)
caught-true (returned b) h = ap (λ x. returned x) h

readiness-on :
    (b : Bool) (s : Setup)
    → any_enabled s ≡ true
    → get_readiness b s ≡ ready
    → (has_authentication s ≡ true) × (b ≡ true)
readiness-on b s on h =
    let told = sym (readiness_lem b s) ∙ h in (ground (arith, told, on), ground (arith, told, on))

each_capability : (P : Capability → Type 0) → All P capabilities_in_order → (c : Capability) → P c
each_capability P (p, (q, (r, _))) ai = p
each_capability P (p, (q, (r, _))) search = q
each_capability P (p, (q, (r, _))) fetch = r

probed-IsAlive :
    (s : Setup) (a : Answers) (clients : List (Capability × File String))
    → configs_of a.keys s capabilities_in_order ≡ some clients
    → probed s a clients ≡ true
    → (asks_provider s ≡ true → a.provider_health ≡ true)
      × ((c : Capability) → is_enabled c s ≡ true → IsAlive a.keys a.replies c)
unfolding probed
probed-IsAlive s a clients made h = (
  λ asks. ground (arith, asks, h),
  each_capability _ (
      configs-IsAlive a.keys s a.replies capabilities_in_order clients made
        (caught-true (probe_clients a.replies clients true) (ground arith))),
)

pub ready-IsReady :
    (s : Setup) (a : Answers) → any_enabled s ≡ true → probe_readiness s a ≡ ready → IsReady s a
unfolding probe_readiness
ready-IsReady s a on h = elim (Bool-cases (has_credential s)) [
  | inr e ↦ absurd (ground (arith, (readiness-on false s on (sym (rw (on, e) refl) ∙ h)).1))
  | inl e ↦ elim (Option-cases (probe_quota_storage a.redis)) [
    | inr (code, q) ↦ absurd (ground arith)
    | inl q ↦ elim (Bool-cases (are_distinct a.keys)) [
      | inr d ↦
          absurd
            (ground (arith, (readiness-on false s on (sym (rw (on, e) (rw q (rw d refl))) ∙ h)).1))
      | inl d ↦ elim (Option-cases (configs_of a.keys s capabilities_in_order)) [
        | inl m ↦ absurd (
            ground
              (arith, (readiness-on false s on (sym (rw (on, e) (rw q (rw d (rw m refl)))) ∙ h)).1))
        | inr (clients, m) ↦
            let (authenticates, all_pass) =
              readiness-on (probed s a clients) s on
                (sym (rw (on, e) (rw q (rw d (rw m refl)))) ∙ h) in
            let (provider, alive) = probed-IsAlive s a clients m all_pass in
            record {
              authenticates = authenticates;
              credential = e;
              quota = q;
              distinct = d;
              provider = provider;
              alive = alive;
            }
      ]
    ]
  ]
]

IsReady-ready :
    (s : Setup) (a : Answers) → any_enabled s ≡ true → IsReady s a → probe_readiness s a ≡ ready
unfolding probe_readiness probed
IsReady-ready s a on h =
    let (clients, made, pass) =
      IsAlive-configs a.keys s a.replies capabilities_in_order
        (h.alive ai, (h.alive search, (h.alive fetch, tt))) in
    let asks : (asks_provider s && not a.provider_health) ≡ false = ground (arith, h.provider) in
    rw (on, h.credential)
      (rw (h.quota) (
        rw (h.distinct)
          (rw (made) (rw (asks, pass) (readiness_lem true s ∙ rw (on, h.authenticates) refl)))))

-- The service says that it is ready exactly where no capability is configured, or where all of this
-- holds: an application can authenticate, the credential that is asked for is there, the quota store
-- is durable, no two capabilities share a key file, the address of the general provider of search
-- answers where one is set, and for every configured capability the upstream is healthy, refuses an
-- invalid key and accepts its own.
pub probe_readiness_iff :
    (s : Setup) (a : Answers)
    → (probe_readiness s a ≡ ready) ↔ ((any_enabled s ≡ false) ⊎ IsReady s a)
unfolding probe_readiness
probe_readiness_iff s a = elim (Bool-cases (any_enabled s)) [
  | inl on ↦ (
    λ h. inr (ready-IsReady s a on h),
    λ w. elim w [ inl off ↦ absurd (ground (arith, on, off)) | inr h ↦ IsReady-ready s a on h ],
  )
  | inr off ↦ (λ h. inl off, λ w. rw off (readiness_lem false s ∙ rw off refl))
]
