-- ===== src/Admission/Laws.antt =====
-- A request from its headers to the handler of its route.
use cesar_core.Base.{ℕ, String, ◌≡◌, ◌≢◌, refl, Option, List, arith, Option-cases, inl, inr, ◌⊎◌}
use cesar_core.ControlPlane.Registry.{Capability}
use cesar_core.ControlPlane.Token.{Bytes}
use cesar_core.ControlPlane.Rollups.{Row}
use cesar_core.Security.Authentication.{Access, denied, granted_to, Denial}
use cesar_core.Security.Authorization.{passed}
use cesar_core.Security.Quota.{Redis, consume}
use cesar_core.Gateway.Terms.{Context, Sent}
use cesar_core.Admission.{
  Incoming, Settings, World, handled, refused_identity, both_headers, window_seconds, identify,
  authorize, serve,
}
use cesar_core.Admission.Passed.{IsWithin, authorized-passed, IsHandled, proceed-handled}

pub Access-cases :
    (a : Access String) → ((d : Denial) × (a ≡ denied d)) ⊎ ((id : String) × (a ≡ granted_to id))
Access-cases (denied d) = inl (d, refl)
Access-cases (granted_to id) = inr (id, refl)

module _ {Db : Type 0} (redis : Redis Db) (utf8 : String → Bytes)
    (hmac_sha256 : Bytes → Bytes → Bytes) (hex_tail : Bytes → String) {Answer Body : Type 0}
    (handler : Context → Body → List Row → List Row × Sent Answer) where
  -- What a handled request has passed: the identity, the quota, and the models of the request.
  pub record IsServed (settings : Settings) (c : Capability) (i : Incoming) (body : Option Body)
      (w w' : World Db) (sent : Sent Answer) : Type 0 where
    pub id : String
    pub identity : identify redis utf8 hmac_sha256 hex_tail settings i w.store ≡ granted_to id
    pub within :
        IsWithin
          (consume redis settings.durable i.at)
          settings.quota_namespace
          window_seconds
          id
          c
          w.store.registry
          w.counters
          w'.counters
    pub is_handled : IsHandled handler i id body w w' sent

  identity_handled : (d : Denial) (sent : Sent Answer) → refused_identity d ≢ handled sent
  unfolding refused_identity
  identity_handled d sent h = ground arith

  authorize-passed :
      (settings : Settings) (c : Capability) (i : Incoming) (id : String) (w : World Db)
      (after : Db)
      → authorize redis utf8 hmac_sha256 hex_tail settings c i id w ≡ (after, passed)
      → IsWithin
          (consume redis settings.durable i.at)
          settings.quota_namespace
          window_seconds
          id
          c
          w.store.registry
          w.counters
          after
  unfolding authorize
  authorize-passed settings c i id w after h =
      authorized-passed (consume redis settings.durable i.at) settings.quota_namespace
        window_seconds id c w.store.registry w.counters after h

  -- The handler of a route runs only for a request that authenticates as an active application with
  -- the capability, that carries both headers and a valid body, and that the quota of the application
  -- admits; it runs on a context of that application, and the tables stay.
  pub serve-IsServed :
      (settings : Settings) (c : Capability) (invalid : ℕ) (i : Incoming) (body : Option Body)
      (w w' : World Db) (sent : Sent Answer)
      → serve redis utf8 hmac_sha256 hex_tail handler settings c invalid i body w
        ≡ (w', handled sent)
      → IsServed settings c i body w w' sent
  unfolding serve
  serve-IsServed settings c invalid i body w w' sent h =
      elim (Access-cases (identify redis utf8 hmac_sha256 hex_tail settings i w.store)) [
        | inl (d, e) ↦ absurd (ground (arith, identity_handled d sent))
        | inr (id, e) ↦ elim (Option-cases (both_headers i)) [
          | inl t ↦ absurd (ground arith)
          | inr ((service, purpose), t) ↦
              let run = authorize redis utf8 hmac_sha256 hex_tail settings c i id w in
              let (is_handled, pass, counters) =
                proceed-handled handler invalid i id service purpose body w w' run.0 run.1 sent t
                  (ground arith) in
              let whole : run ≡ (w'.counters, passed) = ground (arith, pass, counters) in
              record {
                id = id;
                identity = e;
                within = authorize-passed settings c i id w w'.counters whole;
                is_handled = is_handled;
              }
        ]
      ]
