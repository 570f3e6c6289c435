-- ===== src/Admission/PostAi.antt =====
-- api/routes/ai.py with api/deps.py: `POST /v1/ai/generate`, from the headers of a request to its
-- answer. A body is a request whose context nothing reads.
use cesar_core.Base.{ℕ, ◌≤◌, String, ◌≡◌, Option, some, List}
use cesar_core.ControlPlane.Registry.{Registry, ai}
use cesar_core.ControlPlane.Token.{Bytes, File}
use cesar_core.ControlPlane.Rollups.{Row, record_usage}
use cesar_core.ControlPlane.Listing.{list_applications}
use cesar_core.Security.Quota.{Redis}
use cesar_core.Gateway.Json.{Json}
use cesar_core.Gateway.Omniroute.{Reply}
use cesar_core.Gateway.Terms.{Context, Sent, answer}
use cesar_core.Gateway.Ai.{Request, Target}
use cesar_core.Gateway.Ai.Rules.{Config, ai_rules}
use cesar_core.Gateway.Ai.Resolved.{IsAllowed}
use cesar_core.Gateway.Ai.Usage.{completion_of}
use cesar_core.Gateway.Ai.Grounding.{Payload}
use cesar_core.Gateway.Ai.Provider.{Answer}
use cesar_core.Gateway.Ai.Route.{success_use, generate_ai}
use cesar_core.Gateway.Ai.Answered.{answered-IsAllowed}
use cesar_core.Admission.{Incoming, Settings, World, Response, handled, serve}
use cesar_core.Admission.Passed.{context-made}
use cesar_core.Admission.Laws.{IsServed, serve-IsServed}

-- `payload.to_domain(context)`.
abbrev pub ai_request : Context → Request → Request
ai_request context body = record body { context = context }

module _ {Db : Type 0} (redis : Redis Db) (utf8 : String → Bytes)
    (hmac_sha256 : Bytes → Bytes → Bytes) (hex_tail : Bytes → String) (key_file : File String)
    (loads : String → Option Json) (network_first network_second : Payload → Reply) where
  unfoldable pub ai_handler :
      ℕ → Config → Registry → Context → Request → List Row → List Row × Sent Answer
  ai_handler now c r context body rows =
      generate_ai loads key_file network_first network_second now r
        (ai_rules c (list_applications r)) (ai_request context body) rows

  unfoldable pub post_ai :
      Settings → ℕ → Config → Incoming → Option Request → World Db → World Db × Response Answer
  post_ai settings now c i body w =
      serve redis utf8 hmac_sha256 hex_tail (ai_handler now c w.store.registry) settings ai 400 i
        body w

  -- The API answers a request of AI that sets a limit on its tokens only where the request
  -- authenticates as an active application with the capability and with quota left, and where the
  -- configuration and the policy allow that application some target. The answer reports a use of at
  -- most the limit, and the call is recorded as one success of the application.
  pub post_ai-answered :
      (settings : Settings) (now : ℕ) (c : Config) (i : Incoming) (body : Request) (w w' : World Db)
      (a : Answer) (limit : ℕ)
      → post_ai settings now c i (some body) w ≡ (w', handled (answer a))
      → body.max_tokens ≡ some limit
      → (served : IsServed redis utf8 hmac_sha256 hex_tail
          (ai_handler now c w.store.registry)
          settings
          ai
          i
          (some body)
          w
          w'
          (answer a))
        × (context : Context) × (context.application_id ≡ served.id)
        × ((t : Target) × IsAllowed c
              (list_applications w.store.registry)
              w.store.registry
              (ai_request context body)
              t)
        × ((n : ℕ) × (completion_of a.usage ≡ some n) × (n ≤ limit))
        × (w'.rows ≡ record_usage (success_use now context a) w.rows)
  unfolding post_ai ai_handler
  post_ai-answered settings now c i body w w' a limit h within =
      let handler = ai_handler now c w.store.registry in
      let served =
        serve-IsServed redis utf8 hmac_sha256 hex_tail handler settings ai 400 i (some body) w w'
          (answer a) h in
      let (context, named, ran) =
        context-made handler i served.id body w w' (answer a) served.is_handled in
      let (allowed, capped, kept) =
        answered-IsAllowed loads key_file network_first network_second c
          (list_applications w.store.registry) w.store.registry now (ai_request context body) w.rows
          w'.rows a limit ran within in
      (served, context, named, allowed, capped, kept)
