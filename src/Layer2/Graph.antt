-- ===== src/Layer2/Graph.antt =====
-- layer2/relationship_mapper.go: the search for circular dependencies and the entities that a failure
-- affects. The recursion goes through the catalog, so it takes fuel; `Graph.Termination` has how much
-- is enough. A map from ids to Booleans reads false for a missing key, as in Go.
pub mod Termination
pub mod Dependency
pub mod Soundness
pub mod Completeness
pub mod Dangling
use aizo.Prelude.{
  ◌≡◌, ◌⊎◌, inl, inr, refl, ℕ, zero, suc, ◌+◌, String, Bool, true, false, not, ◌&&◌, Option, none,
  some, List, [], ◌∷◌, map, if◌then◌else◌, Map, get, put, values, length, ◌==◌, string_eq,
}
use aizo.Layer2.Entity.{Go, Entity, get_relationships, depends_on}
use aizo.Layer2.Catalog.{Catalog, get_entity, list_entities}

abbrev pub Flags : Type 0
Flags = Map String Bool

abbrev pub flag : String → Flags → Bool
flag k m = elim (get k m) [ none ↦ false | some b ↦ b ]

pub data Verdict : Type 0 where
  out_of_fuel : Verdict
  clear : Flags → Flags → Verdict
  circular : String → String → Verdict

pub Verdict-cases :
    (w : Verdict)
    → (w ≡ out_of_fuel)
      ⊎ ((v : Flags) × (r : Flags) × (w ≡ clear v r))
      ⊎ ((a : String) × (b : String) × (w ≡ circular a b))
Verdict-cases out_of_fuel = inl refl
Verdict-cases (clear v r) = inr (inl (v, r, refl))
Verdict-cases (circular a b) = inr (inr (a, b, refl))

-- The loop over the targets of `id`, with the recursive call.
unfoldable pub check_targets :
    (String → Flags → Flags → Verdict) → String → List String → Flags → Flags → Verdict
check_targets call id [] visited rec_stack = clear visited (put id false rec_stack)
check_targets call id (t ∷ ts) visited rec_stack =
    let rest = check_targets call id ts visited rec_stack in
    if not (flag t visited)
    then elim (call t visited rec_stack) [
      | clear visited' rec_stack' ↦ check_targets call id ts visited' rec_stack'
      | circular a b ↦ circular a b
      | out_of_fuel ↦ out_of_fuel
    ]
    else if flag t rec_stack
    then circular id t
    else rest

module _ (go : Go) (c : Catalog go) where
  -- The ids that the entity with an id depends on, if it is registered.
  unfoldable pub dependencies : String → Option (List String)
  unfolding get_entity get_relationships
  dependencies id = elim (get_entity go c id) [
    | none ↦ none
    | some p ↦ some (map (λ r. r.target_id) (get_relationships go (c.heap p) depends_on))
  ]

  unfoldable pub detect_cycle : ℕ → String → Flags → Flags → Verdict
  unfolding check_targets
  detect_cycle zero id visited rec_stack = out_of_fuel
  detect_cycle (suc fuel) id visited rec_stack =
      let visited' = put id true visited in
      let rec_stack' = put id true rec_stack in
      elim (dependencies id) [
        | none ↦ clear visited' rec_stack'
        | some targets ↦ check_targets (detect_cycle fuel) id targets visited' rec_stack'
      ]

  -- The loop of `ValidateDependencies`: each entity starts with empty maps.
  unfoldable pub validate_loop : ℕ → List ℕ → Verdict
  unfolding detect_cycle
  validate_loop fuel [] = clear [] []
  validate_loop fuel (p ∷ ps) =
      let rest = validate_loop fuel ps in
      elim (detect_cycle fuel (c.heap p).id [] []) [
        | clear _ _ ↦ rest
        | circular a b ↦ circular a b
        | out_of_fuel ↦ out_of_fuel
      ]

  unfoldable pub validate_dependencies : Verdict
  unfolding validate_loop list_entities
  validate_dependencies = validate_loop (suc (suc (length c.entities))) (list_entities go c)
