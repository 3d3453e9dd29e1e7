-- ===== src/Layer2/Impact.antt =====
-- layer2/relationship_mapper.go: `GetImpactedEntities` and `collectImpactedEntities`. The recursion
-- goes through the catalog, so it takes fuel; `Impact.Explored` has how much is enough. `none` is no
-- outcome: the fuel has run out.
pub mod Reach
pub mod Held
pub mod Explored
pub mod Affected
use aizo.Prelude.{
  ℕ, zero, suc, ◌+◌, String, Bool, true, false, ◌&&◌, Option, none, some, List, [], ◌∷◌, ◌++◌, Map,
  get, put, values, length, is_some, if◌then◌else◌, ◌==◌, string_eq,
}
use aizo.Layer2.Entity.{Go, Entity, Relationship, depends_on}
use aizo.Layer2.Catalog.{Catalog, get_entity, list_entities}

-- One candidate for each relationship that says that an entity depends on the id.
abbrev pub candidates : String → ℕ → List Relationship → List ℕ
candidates id p [] = []
candidates id p (r ∷ rs) =
    let rest = candidates id p rs in
    if (r.relation_type == depends_on) && (r.target_id == id) then p ∷ rest else rest

-- What `GetImpactedEntities` answers; `out_of_fuel` is no outcome.
pub data Impacted : Type 0 where
  out_of_fuel : Impacted
  not_found : String → Impacted
  entities : List ℕ → Impacted

module _ (go : Go) (c : Catalog go) where
  -- The candidates of the two nested loops, in their order.
  unfoldable pub dependents_in : String → List ℕ → List ℕ
  dependents_in id [] = []
  dependents_in id (p ∷ ps) = candidates id p (c.heap p).relationships ++ dependents_in id ps

  abbrev pub dependents : String → List ℕ
  dependents id = dependents_in id (list_entities go c)

  -- What the loops do with the candidates, with the recursive call.
  unfoldable pub visit :
      (String → Map String ℕ → Option (Map String ℕ))
      → List ℕ
      → Map String ℕ
      → Option (Map String ℕ)
  visit call [] impacted = some impacted
  visit call (p ∷ ps) impacted =
      let id = (c.heap p).id in
      let rest = visit call ps impacted in
      if is_some (get id impacted) then rest else elim (call id (put id p impacted)) [
        | none ↦ none
        | some impacted' ↦ visit call ps impacted'
      ]

  unfoldable pub collect_impacted_entities : ℕ → String → Map String ℕ → Option (Map String ℕ)
  unfolding visit
  collect_impacted_entities zero id impacted = none
  collect_impacted_entities (suc fuel) id impacted =
      visit (collect_impacted_entities fuel) (dependents id) impacted

  -- `GetImpactedEntities`, with fuel of the number of entities and one.
  unfoldable pub get_impacted_entities : String → Impacted
  unfolding collect_impacted_entities get_entity list_entities
  get_impacted_entities id = elim (get_entity go c id) [
    | none ↦ not_found id
    | some p ↦ elim (collect_impacted_entities (length c.entities + 1) (c.heap p).id []) [
      | none ↦ out_of_fuel
      | some impacted ↦ entities (values impacted)
    ]
  ]
