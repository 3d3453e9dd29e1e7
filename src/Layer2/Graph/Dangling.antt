-- ===== src/Layer2/Graph/Dangling.antt =====
-- What the search for circular dependencies (layer2/relationship_mapper.go) says of an id that is not
-- registered: it is left on the stack, so the second mention of it passes for a circle.
use aizo.Prelude.{ℕ, suc, ◌≡◌, ◌≢◌, String, none, some, List, [], ◌∷◌, get, put, string_eq, arith}
use aizo.Layer2.Entity.{Go}
use aizo.Layer2.Catalog.{Catalog}
use aizo.Layer2.Graph.{circular, check_targets, dependencies, detect_cycle}
use aizo.Layer2.Graph.Dependency.{Leads, first_step}

-- A search from an entity that names an unregistered id twice, first of all, reports that id as
-- circular, though it has no dependencies at all and so is on no circle.
pub detect_cycle_dangling :
    (go : Go) (c : Catalog go) (fuel : ℕ) (a x : String) (ts : List String)
    → dependencies go c a ≡ some (x ∷ x ∷ ts)
    → dependencies go c x ≡ none
    → a ≢ x
    → (detect_cycle go c (suc (suc fuel)) a [] [] ≡ circular a x) × (¬ Leads go c x x)
unfolding detect_cycle check_targets get put
detect_cycle_dangling go c fuel a x ts d n ne = (
  rw (d, detect_cycle, n) (ground arith),
  λ p. let (y, (us, e, m), _) = first_step go c p in absurd (ground arith),
)
