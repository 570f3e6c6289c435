-- ===== src/Admission/PostSearch.antt =====
-- api/routes/search.py with api/deps.py: `POST /v1/search`, from the headers of a request to its
-- answer. A body is a request whose context nothing reads.
use cesar_core.Base.{ℕ, ◌≤◌, String, ◌≡◌, Option, some, List, length}
use cesar_core.ControlPlane.Registry.{Registry, search}
use cesar_core.ControlPlane.Token.{Bytes, File}
use cesar_core.ControlPlane.Rollups.{Row, record_usage}
use cesar_core.ControlPlane.Listing.{list_applications}
use cesar_core.Security.Quota.{Redis}
use cesar_core.Gateway.Omniroute.{Reply}
use cesar_core.Gateway.Terms.{Context, Sent, answer}
use cesar_core.Gateway.Search.{Request, Config, search_rules}
use cesar_core.Gateway.Search.Provider.{Payload, Answer}
use cesar_core.Gateway.Search.Route.{success_use, search_route}
use cesar_core.Gateway.Search.Answered.{IsAllowed, searched-IsAllowed}
use cesar_core.Admission.{Incoming, Settings, World, Response, handled, serve}
use cesar_core.Admission.Passed.{context-made}
use cesar_core.Admission.Laws.{IsServed, serve-IsServed}

-- `payload.to_domain(context)`.
abbrev pub search_request : Context → Request → Request
search_request context body = record body { context = context }

module _ {Db : Type 0} (redis : Redis Db) (utf8 : String → Bytes)
    (hmac_sha256 : Bytes → Bytes → Bytes) (hex_tail : Bytes → String) (key_file : File String)
    (network : Payload → Reply) where
  unfoldable pub search_handler :
      ℕ → Config → Registry → Context → Request → List Row → List Row × Sent Answer
  search_handler now c r context body rows =
      search_route key_file network now r (search_rules c (list_applications r))
        (search_request context body) rows

  unfoldable pub post_search :
      Settings → ℕ → Config → Incoming → Option Request → World Db → World Db × Response Answer
  post_search settings now c i body w =
      serve redis utf8 hmac_sha256 hex_tail (search_handler now c w.store.registry) settings search
        422 i body w

  -- The API answers a search only where the request authenticates as an active application with the
  -- capability and with quota left, and where the configuration and the policy allow it to that
  -- application. It gives at most as many results as were asked for, and the call is recorded as one
  -- success of the application.
  pub post_search-answered :
      (settings : Settings) (now : ℕ) (c : Config) (i : Incoming) (body : Request) (w w' : World Db)
      (a : Answer)
      → post_search settings now c i (some body) w ≡ (w', handled (answer a))
      → (served : IsServed redis utf8 hmac_sha256 hex_tail
          (search_handler now c w.store.registry)
          settings
          search
          i
          (some body)
          w
          w'
          (answer a))
        × (context : Context) × (context.application_id ≡ served.id)
        × IsAllowed c
            (list_applications w.store.registry)
            w.store.registry
            (search_request context body)
        × (length a.results ≤ body.max_results)
        × (w'.rows ≡ record_usage (success_use now context a) w.rows)
  unfolding post_search search_handler
  post_search-answered settings now c i body w w' a h =
      let handler = search_handler now c w.store.registry in
      let served =
        serve-IsServed redis utf8 hmac_sha256 hex_tail handler settings search 422 i (some body) w
          w' (answer a) h in
      let (context, named, ran) =
        context-made handler i served.id body w w' (answer a) served.is_handled in
      let (allowed, short, kept) =
        searched-IsAllowed key_file network c (list_applications w.store.registry) w.store.registry
          now (search_request context body) w.rows w'.rows a ran in
      (served, context, named, allowed, short, kept)
