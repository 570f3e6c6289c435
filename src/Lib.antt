-- ===== src/Lib.antt =====
-- César Core: a private gateway for AI, search and fetch requests, with its administrative interface.
--
-- The program is a Python service (src/cesar_core) and a React interface (frontend/src) that it
-- serves under /admin. The interface calls the administrative API through one function, `api`; the
-- API changes the tables of a SQLite store; the gateway reads those tables to authenticate and to
-- authorise each request, and counts requests against quotas in Redis.
--
-- Base: names of the libraries, Boolean tests, lists and dictionaries over texts.
-- Frontend: frontend/src. A component of React is a record of its hooks, a function for each
--   handler and effect, and a function `render` into a record of what is shown; the static text,
--   the classes and the icons of the markup are left out. Replies and clicks come in any order, and
--   in App so do changes of the location's hash by the browser: `Steps` of a screen is the relation
--   of one event, with the requests that are under way in its state. Api is api.ts, App is App.tsx
--   and main.tsx, Components is components.tsx, and Usage, Applications, Credentials, Overview,
--   Health and Routes are the screens of these names under frontend/src/screens. `Date` in a locale,
--   and reading a property of a JSON value, are parameters.
-- ControlPlane: src/cesar_core/admin. Registry is the part of storage.py on applications,
--   capabilities and quotas, with the constraints of admin/migrations; a SQL statement is a
--   function of the tables, which are lists of rows, and a time is a number. Token is crypto.py:
--   the text of a key and the digest that the tables keep of it; SHA-256, UTF-8 and the random
--   texts are parameters. Credentials is the table of the keys and the handlers that issue and
--   revoke one. Sessions is the table of the administrator's sessions, and Login is auth.py over
--   it. Routes is the handler `update_application` of routes.py with the body of models.py. Rollups
--   is the table of usage, with the list of all calls as its abstract state, and the totals that
--   the interface makes of it. Listing is the lists of applications and of keys that the
--   administrator sees. Admin is the audit trail, and Admin.Handlers every handler of routes.py
--   that changes something, composed with `require_session`: a request takes the tables, the
--   sessions and the events to new ones.
-- Security: src/cesar_core/security. Authentication is `ApplicationAuthenticator.authenticate`,
--   which reads the tables of ControlPlane and the two files of the configuration. Authorization is
--   `_authorized_context` of api/deps.py with authorization.py and the limiter of quota.py, over
--   any store of the quotas. Quota is that store: the script that Redis runs, over an interface of
--   the commands of Redis whose laws are the documented ones;
--   Quota.Snapshot reads a key without counting, by two
--   commands between which others may run the script.
-- Gateway: a request on its way through the service. Ai is ai/contracts.py and ai/policy.py,
--   Ai.Rules is ai/config.py with `get_ai_manager` of api/deps.py, Ai.Provider, Ai.Grounding and
--   Ai.Usage are ai/providers/omniroute.py with ai/manager.py, and Ai.Route is api/routes/ai.py.
--   Omniroute is the client of the upstream in omniroute/client.py. A call ends in an `Outcome`: a
--   raised failure or a value. What the network does with a payload, the reading of a JSON text,
--   and the file of the upstream's key are parameters. Fetch is src/cesar_core/fetch with its rules
--   in api/deps.py and its route in api/routes/fetch.py: Fetch.Url is the guard on addresses, over
--   a parameter for the library that splits and resolves them. Search is src/cesar_core/search with
--   its rules and its route in api/routes/search.py. Services is what the rules of fetch and of
--   search share. Terms, Table and Json are the words of a request, the dictionaries of rules and
--   the values of JSON.
--
-- Admission: a request of the three routes of the gateway from its headers to its answer, over the
--   parts above: api/deps.py and the handlers of errors in api/app.py, with the script of Redis and
--   the rollups in one state. PostAi, PostSearch and PostFetch are the routes; Limit is about
--   sequences of requests.
--
-- Health: src/cesar_core/health/service.py. Probe is `probe_readiness` with the check of Redis in
--   security/quota.py, the keys of omniroute/config.py and the call of health in
--   omniroute/client.py, and Detailed is admin/health.py with the route of health. What Redis and the
--   network answer to the probes are parameters.
--
-- No definition takes fuel: every loop is a recursion on a list, a text, a number or a value of JSON.
-- Numbers are natural numbers, since the fields that are modelled hold no negative ones past
-- validation; a negative number of JSON is a value of its own.
--
-- Not modelled: the transport of HTTP, SQLite's files, the routes of the usage, of the overview and of
-- the API's schema, the metrics and traces, the command line, the deployment and the tests, with
-- `reset` of security/quota.py, which they alone call. Latencies and the texts of errors are left
-- out.
pub mod Base
pub mod Frontend
pub mod ControlPlane
pub mod Security
pub mod Gateway
pub mod Admission
pub mod Health
