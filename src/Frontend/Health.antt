-- ===== src/Frontend/Health.antt =====
-- frontend/src/screens/Health.tsx: the screen of the probes.
mod Examples
use cesar_core.Base.{String, Bool, Option, none, some, List, ◌==◌, or_else, map, if◌then◌else◌}
use cesar_core.Frontend.Api.{Reply, ok, failed}
use cesar_core.Frontend.Components.{Badge, status, spaced}

pub record Probe : Type 0 where
  pub name : String
  pub status : String
  pub checked_at : String
  pub version : Option String

-- The answer of `GET /health`; the latency is the text of its number.
pub record Report : Type 0 where
  pub status : String
  pub reason : Option String
  pub latency_ms : String
  pub components : List Probe

pub record Screen : Type 0 where
  pub content : Option Report
  pub error : String

unfoldable pub replied : Reply Report → Screen → Screen
replied (ok d) s = record s { content = some d }
replied (failed message) s = record s { error = message }

pub record Article : Type 0 where
  pub name : String
  pub version : Option String
  pub badge : Badge
  pub checked : String

pub record Page : Type 0 where
  pub green : Bool
  pub summary : String
  pub latency : String
  pub badge : Badge
  pub articles : List Article

pub data View : Type 0 where
  failure : String → View
  waiting : View
  page : Page → View

-- `new Date(…).toLocaleTimeString()` is a parameter.
module _ (locale_clock : String → String) where
  unfoldable pub article : Probe → Article
  unfolding status spaced
  article c = record {
    name = spaced c.name;
    version = elim c.version [ none ↦ none | some v ↦ if v == "" then none else some v ];
    badge = status c.status;
    checked = locale_clock c.checked_at;
  }

  unfoldable pub page_of : Report → Page
  unfolding article status
  page_of d = record {
    green = d.status == "ok";
    summary = or_else d.reason "Todos os requisitos habilitados responderam";
    latency = d.latency_ms;
    badge = status d.status;
    articles = map article d.components;
  }

  unfoldable pub render : Screen → View
  unfolding page_of
  render s =
      if s.error == ""
      then elim s.content [ none ↦ waiting | some d ↦ page (page_of d) ]
      else failure s.error
