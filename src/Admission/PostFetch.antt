-- ===== src/Admission/PostFetch.antt =====
-- api/routes/fetch.py with api/deps.py: `POST /v1/fetch`, from the headers of a request to its
-- answer. A body is a request whose context nothing reads.
use cesar_core.Base.{ℕ, ◌≤◌, String, ◌≡◌, Option, some, List}
use cesar_core.ControlPlane.Registry.{Registry, fetch}
use cesar_core.ControlPlane.Token.{Bytes, File}
use cesar_core.ControlPlane.Rollups.{Row, record_usage}
use cesar_core.ControlPlane.Listing.{list_applications}
use cesar_core.Security.Quota.{Redis}
use cesar_core.Gateway.Omniroute.{Reply}
use cesar_core.Gateway.Terms.{Context, Sent, answer}
use cesar_core.Gateway.Fetch.{Request, Config, fetch_rules}
use cesar_core.Gateway.Fetch.Url.{Library}
use cesar_core.Gateway.Fetch.Laws.{IsSafe}
use cesar_core.Gateway.Fetch.Provider.{Payload, Answer}
use cesar_core.Gateway.Fetch.Laws.{length_of}
use cesar_core.Gateway.Fetch.Route.{success_use, fetch_url}
use cesar_core.Gateway.Fetch.Answered.{IsAllowed, fetched-IsSafe}
use cesar_core.Admission.{Incoming, Settings, World, Response, handled, serve}
use cesar_core.Admission.Passed.{context-made}
use cesar_core.Admission.Laws.{IsServed, serve-IsServed}

-- `payload.to_domain(context)`.
abbrev pub fetch_request : Context → Request → Request
fetch_request context body = record body { context = context }

module _ {Db : Type 0} (redis : Redis Db) (utf8 : String → Bytes)
    (hmac_sha256 : Bytes → Bytes → Bytes) (hex_tail : Bytes → String) (key_file : File String)
    (library : Library) (network : Payload → Reply) where
  unfoldable pub fetch_handler :
      ℕ → Config → Registry → Context → Request → List Row → List Row × Sent Answer
  fetch_handler now c r context body rows =
      fetch_url library key_file network now c.max_content_length r
        (fetch_rules c (list_applications r)) (fetch_request context body) rows

  unfoldable pub post_fetch :
      Settings → ℕ → Config → Incoming → Option Request → World Db → World Db × Response Answer
  post_fetch settings now c i body w =
      serve redis utf8 hmac_sha256 hex_tail (fetch_handler now c w.store.registry) settings fetch
        422 i body w

  -- The API answers a fetch only where the request authenticates as an active application with the
  -- capability and with quota left, where the address is safe, and where the configuration and the
  -- policy allow it to that application. The content is at most as long as the configured limit, and
  -- the call is recorded as one success of the application.
  pub post_fetch-answered :
      (settings : Settings) (now : ℕ) (c : Config) (i : Incoming) (body : Request) (w w' : World Db)
      (a : Answer)
      → post_fetch settings now c i (some body) w ≡ (w', handled (answer a))
      → (served : IsServed redis utf8 hmac_sha256 hex_tail
          (fetch_handler now c w.store.registry)
          settings
          fetch
          i
          (some body)
          w
          w'
          (answer a))
        × (context : Context) × (context.application_id ≡ served.id)
        × IsSafe library body.url
        × IsAllowed c
            (list_applications w.store.registry)
            w.store.registry
            (fetch_request context body)
        × (length_of a.content ≤ c.max_content_length)
        × (w'.rows ≡ record_usage (success_use now context a) w.rows)
  unfolding post_fetch fetch_handler
  post_fetch-answered settings now c i body w w' a h =
      let handler = fetch_handler now c w.store.registry in
      let served =
        serve-IsServed redis utf8 hmac_sha256 hex_tail handler settings fetch 422 i (some body) w w'
          (answer a) h in
      let (context, named, ran) =
        context-made handler i served.id body w w' (answer a) served.is_handled in
      let (safe, allowed, short, kept) =
        fetched-IsSafe library key_file network c (list_applications w.store.registry)
          w.store.registry now (fetch_request context body) w.rows w'.rows a ran in
      (served, context, named, safe, allowed, short, kept)
