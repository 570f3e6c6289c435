-- ===== src/Frontend/Overview/Laws.antt =====
-- What the first screen shows for each outcome of its request.
use cesar_core.Base.{◌/◌, ◌≡◌, refl, List, [], ◌∷◌, map}
use cesar_core.Frontend.Api.{ok}
use cesar_core.Frontend.Components.{status, spaced}
use cesar_core.Frontend.Overview.{
  Dependency, DependencyRow, Summary, Screen, Page, page, replied, dependency_row, page_of, render,
}

rows_lem :
    (ds : List Dependency)
    → (map DependencyRow.badge (map dependency_row ds) ≡ map (λ d. status d.status) ds)
      × (map DependencyRow.name (map dependency_row ds) ≡ map (λ d. spaced d.name) ds)
unfolding dependency_row
rows_lem [] = (refl, refl)
rows_lem (d ∷ ds) = let (b, n) = rows_lem ds in (rw b, rw n)

fulfilled : (d : Summary) (s : Screen) → s.error ≡ "" → render (replied (ok d) s) ≡ page (page_of d)
unfolding replied render
fulfilled d s e = rw e

-- The data of a fulfilled request is shown as long as no error is set: the badges and the names of
-- the dependencies are those of the answer, in its order.
pub shown :
    (d : Summary) (s : Screen)
    → s.error ≡ ""
    → (p : Page) × (render (replied (ok d) s) ≡ page p)
      × (map DependencyRow.badge p.dependencies ≡ map (λ x. status x.status) d.dependencies)
      × (map DependencyRow.name p.dependencies ≡ map (λ x. spaced x.name) d.dependencies)
      × (p.uptime_minutes ≡ d.uptime_seconds / 60)
unfolding page_of
shown d s e =
    (page_of d, fulfilled d s e, (rows_lem d.dependencies).0, (rows_lem d.dependencies).1, refl)
