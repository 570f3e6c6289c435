-- ===== src/Health/Laws.antt =====
-- What the probes of health/service.py find of each capability.
use cesar_core.Base.{
  String, ◌≡◌, ◌≢◌, refl, sym, ap, ◌∙◌, true, false, some, List, [], ◌∷◌, All, arith, Bool-cases,
  Option-cases, inl, inr,
}
use cesar_core.ControlPlane.Registry.{Capability}
use cesar_core.ControlPlane.Token.{File}
use cesar_core.Gateway.Terms.{returned, chained}
use cesar_core.Gateway.Omniroute.{Reply, has_key, authentication_enforced, credential_accepted}
use cesar_core.Health.{Setup, is_enabled}
use cesar_core.Health.Probe.{
  Keys, for_capability, configs_of, Replies, health, own_key_accepted, enforced, probe_clients,
}

-- What the probes of a capability have shown: the upstream is healthy, refuses an invalid key, and
-- accepts the key of the capability.
pub record IsAlive (k : Keys) (replies : Capability → Replies) (c : Capability) : Type 0 where
  pub file : File String
  pub configured : for_capability k c ≡ some file
  pub healthy : health (replies c).health ≡ returned tt
  pub refuses : authentication_enforced (replies c).invalid_key ≡ returned true
  pub readable : has_key file ≡ true
  pub accepts : credential_accepted (replies c).own_key ≡ returned true

own_key-accepted :
    (file : File String) (reply : Reply)
    → own_key_accepted file reply ≡ returned true
    → (has_key file ≡ true) × (credential_accepted reply ≡ returned true)
unfolding own_key_accepted
own_key-accepted file reply h = (ground arith, ground arith)

enforced-true :
    (file : File String) (r : Replies)
    → enforced true file r ≡ returned true
    → (authentication_enforced r.invalid_key ≡ returned true)
      × (has_key file ≡ true)
      × (credential_accepted r.own_key ≡ returned true)
unfolding enforced
enforced-true file r h =
    let (refuses, first, rest) = chained (authentication_enforced r.invalid_key) _ h in
    elim (Bool-cases refuses) [
      | inl e ↦ (
        first ∙ ap (λ b. returned b) e,
        (own_key-accepted file r.own_key (rw e at rest)).0,
        (own_key-accepted file r.own_key (rw e at rest)).1,
      )
      | inr e ↦ absurd (ground arith)
    ]

never_again :
    (replies : Capability → Replies) (cs : List (Capability × File String))
    → probe_clients replies cs false ≢ returned true
unfolding probe_clients enforced
never_again replies [] h = ground arith
never_again replies ((c, file) ∷ cs) h =
    let (_, _, rest) = chained (health (replies c).health) _ h in never_again replies cs rest

-- One client: its probes have shown what they ask for, and the others follow.
client-true :
    (replies : Capability → Replies) (c : Capability) (file : File String)
    (cs : List (Capability × File String))
    → probe_clients replies ((c, file) ∷ cs) true ≡ returned true
    → (health (replies c).health ≡ returned tt)
      × (enforced true file (replies c) ≡ returned true)
      × (probe_clients replies cs true ≡ returned true)
unfolding probe_clients
client-true replies c file cs h =
    let (tt, alive, h₁) = chained (health (replies c).health) _ h in
    let (after, told, rest) = chained (enforced true file (replies c)) _ h₁ in
    elim (Bool-cases after) [
      | inl e ↦ (alive, told ∙ ap (λ b. returned b) e, rw e at rest)
      | inr e ↦ absurd (never_again replies cs (rw e at rest))
    ]

client-IsAlive :
    (k : Keys) (replies : Capability → Replies) (c : Capability)
    (cs : List (Capability × File String)) (a : IsAlive k replies c)
    → probe_clients replies cs true ≡ returned true
    → probe_clients replies ((c, a.file) ∷ cs) true ≡ returned true
unfolding probe_clients enforced own_key_accepted
client-IsAlive k replies c cs a h = rw (a.healthy, a.refuses, a.readable, a.accepts) h

-- The configurations and the clients of some capabilities.
pub configs-IsAlive :
    (k : Keys) (s : Setup) (replies : Capability → Replies) (cs : List Capability)
    (clients : List (Capability × File String))
    → configs_of k s cs ≡ some clients
    → probe_clients replies clients true ≡ returned true
    → All (λ c. is_enabled c s ≡ true → IsAlive k replies c) cs
unfolding configs_of
configs-IsAlive k s replies [] clients made h = tt
configs-IsAlive k s replies (c ∷ cs) clients made h = elim (Bool-cases (is_enabled c s)) [
  | inr off ↦ (
    λ on. absurd (ground (arith, on, off)),
    configs-IsAlive k s replies cs clients (sym (rw off refl) ∙ made) h,
  )
  | inl on ↦ elim (Option-cases (for_capability k c)) [
    | inl none_set ↦ absurd (ground arith)
    | inr (file, set) ↦ elim (Option-cases (configs_of k s cs)) [
      | inl missing ↦ absurd (ground arith)
      | inr (rest, found) ↦
          let same : (c, file) ∷ rest ≡ clients = ground (arith, on, set, found, made) in
          let (healthy, told, others) = client-true replies c file rest (rw (← same) at h) in
          let (refuses, readable, accepts) = enforced-true file (replies c) told in
          (
            λ _. record {
              file = file;
              configured = set;
              healthy = healthy;
              refuses = refuses;
              readable = readable;
              accepts = accepts;
            },
            configs-IsAlive k s replies cs rest found others,
          )
    ]
  ]
]

no_clients : (replies : Capability → Replies) → probe_clients replies [] true ≡ returned true
unfolding probe_clients
no_clients replies = refl

pub IsAlive-configs :
    (k : Keys) (s : Setup) (replies : Capability → Replies) (cs : List Capability)
    → All (λ c. is_enabled c s ≡ true → IsAlive k replies c) cs
    → (clients : List (Capability × File String)) × (configs_of k s cs ≡ some clients)
      × (probe_clients replies clients true ≡ returned true)
unfolding configs_of
IsAlive-configs k s replies [] h = ([], refl, no_clients replies)
IsAlive-configs k s replies (c ∷ cs) (h, hs) =
    let (rest, found, alive) = IsAlive-configs k s replies cs hs in
    elim (Bool-cases (is_enabled c s)) [
      | inr off ↦ (rest, rw off found, alive)
      | inl on ↦
          let a = h on in
          (
            (c, a.file) ∷ rest,
            rw (on, a.configured, found) refl,
            client-IsAlive k replies c rest a alive,
          )
    ]
