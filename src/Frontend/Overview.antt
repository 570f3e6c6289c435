-- ===== src/Frontend/Overview.antt =====
-- frontend/src/screens/Overview.tsx: the first screen.
pub mod Laws
mod Examples
use cesar_core.Base.{ℕ, ◌/◌, String, Option, none, some, List, ◌==◌, map, if◌then◌else◌}
use cesar_core.Frontend.Api.{Reply, ok, failed}
use cesar_core.Frontend.Components.{Badge, status, spaced}

pub record Dependency : Type 0 where
  pub name : String
  pub status : String
  pub reason : Option String

-- The answer of `GET /overview`, as far as the screen reads it.
pub record Summary : Type 0 where
  pub version : String
  pub uptime_seconds : ℕ
  pub applications : ℕ
  pub active_applications : ℕ
  pub credentials : ℕ
  pub ai_requests : ℕ
  pub search_requests : ℕ
  pub errors : ℕ
  pub readiness : String
  pub dependencies : List Dependency

pub record Screen : Type 0 where
  pub content : Option Summary
  pub error : String

-- The one request of the screen has settled.
unfoldable pub replied : Reply Summary → Screen → Screen
replied (ok d) s = record s { content = some d }
replied (failed message) s = record s { error = message }

pub record DependencyRow : Type 0 where
  pub name : String
  pub reason : Option String
  pub badge : Badge

unfoldable pub dependency_row : Dependency → DependencyRow
unfolding status spaced
dependency_row d = record {
  name = spaced d.name;
  reason = elim d.reason [ none ↦ none | some r ↦ if r == "" then none else some r ];
  badge = status d.status;
}

pub record Page : Type 0 where
  pub applications : ℕ
  pub ai : ℕ
  pub search_card : ℕ
  pub errors : ℕ
  pub dependencies : List DependencyRow
  pub version : String
  pub uptime_minutes : ℕ
  pub active : ℕ
  pub credentials : ℕ
  pub readiness : Badge

unfoldable pub page_of : Summary → Page
unfolding dependency_row status
page_of d = record {
  applications = d.applications;
  ai = d.ai_requests;
  search_card = d.search_requests;
  errors = d.errors;
  dependencies = map dependency_row d.dependencies;
  version = d.version;
  uptime_minutes = d.uptime_seconds / 60;
  active = d.active_applications;
  credentials = d.credentials;
  readiness = status d.readiness;
}

pub data View : Type 0 where
  failure : String → View
  waiting : View
  page : Page → View

unfoldable pub render : Screen → View
unfolding page_of
render s =
    if s.error == ""
    then elim s.content [ none ↦ waiting | some d ↦ page (page_of d) ]
    else failure s.error
