-- ===== src/Tests/Layer2.antt =====
-- Runs of the catalog and of the search for circular dependencies (layer2). Floats are natural
-- numbers here.
use mathlib.Core.List.{Memᴰ}
use mathlib.Core.List.Memᴰ
use mathlib.Core.Path.{subst, ap, ◌∙◌}
use aizo.Prelude.{
  UniqueIds, length, ℕ, zero, suc, ◌≡◌, ◌≢◌, ◌↔◌, ◌⊎◌, inl, inr, refl, String, none, some, List, [],
  ◌∷◌, get, put, ltb, ne_of_test, nat_eq, string_eq, String_discrete, if◌then◌else◌, ◌==◌, arith,
  Bool-cases,
}
use aizo.Layer2.Entity.{Go, Entity, Relationship}
use aizo.Layer2.Catalog.{
  Catalog, list_entities, new_entity_catalog, register, get_entity, list_by_state, api_update_state,
}
use aizo.Layer2.Catalog.Indexing.{IsValid, Reached, fresh, registered_at, Reached-IsValid}
use aizo.Layer2.Catalog.Stale.{api_update_state_stale}
use aizo.Layer2.Impact.{get_impacted_entities, entities}
use aizo.Layer2.Impact.Reach.{Depends, Reaches}
use aizo.Layer2.Impact.Affected.{Among, get_impacted_entities_iff}
use aizo.Layer2.Registration.{
  validate_request, force_deregister, invalid_type, deregister, still_needed,
}
use aizo.Layer2.Registration.Detached.{force_deregister-frees}
use aizo.Layer2.Registration.Removal.{deregister_cases}
use aizo.Layer2.Graph.{dependencies, validate_dependencies, out_of_fuel, clear, circular}
use aizo.Layer2.Graph.Dependency.{Edge, Leads}
use aizo.Layer2.Graph.Termination.{validate_dependencies_terminates}
use aizo.Layer2.Graph.Completeness.{validate_dependencies_complete}
use aizo.Layer2.Graph.Soundness.{Closed, validate_dependencies_sound}

abbrev go : Go
go = record { Value = String; sprint = λ v. v; Float = ℕ; lt = ltb; positive = λ x. ltb 0 x }

abbrev entity : String → List Relationship → Entity go
entity id rels = record {
  id = id;
  entity_type = "service";
  name = id;
  capabilities = [];
  metadata = [];
  adapters = [];
  relationships = rels;
  state = "online";
  last_seen_at = 0;
  health_score = 100;
  last_health_check = 0;
}

abbrev needs : String → Relationship
needs id = record { relation_type = "depends_on"; target_id = id }

web-ne-db : ◌≢◌ {A = String} "web" "db"
unfolding String_discrete
web-ne-db = ne_of_test "web" "db" refl

web-ne-blank : ◌≢◌ {A = String} "web" ""
unfolding String_discrete
web-ne-blank = ne_of_test "web" "" refl

-- "web" needs "db", and "db" needs nothing; or each needs the other.
abbrev chain : ℕ → Entity go
chain zero = entity "web" (needs "db" ∷ [])
chain (suc p) = entity "db" []

abbrev ring : ℕ → Entity go
ring zero = entity "web" (needs "db" ∷ [])
ring (suc p) = entity "db" (needs "web" ∷ [])

abbrev both : (ℕ → Entity go) → Catalog go
both heap = (register go (register go (new_entity_catalog go heap) 0).0 1).0

both-Reached : (heap : ℕ → Entity go) → Reached go heap (both heap)
both-Reached heap = registered_at 1 (registered_at 0 fresh)

chain-IsValid : IsValid go (both chain)
chain-IsValid = Reached-IsValid go chain (both-Reached chain)

ring-IsValid : IsValid go (both ring)
ring-IsValid = Reached-IsValid go ring (both-Reached ring)

Reached-IsValid_example : IsValid go (both ring)
Reached-IsValid_example = Reached-IsValid go ring {c = both ring} (both-Reached ring)

web_registered : get_entity go (both chain) "web" ≡ some 0
unfolding get_entity register get put String_discrete
web_registered = refl

web_online : ((both chain).heap 0).state ≢ "offline"
unfolding register get put String_discrete
web_online = ne_of_test "online" "offline" refl

api_update_state_stale_example :
    let c' = (api_update_state go (both chain) "web" "offline" 0 9).0 in
    ((c'.heap 0).state ≡ "offline")
    × Memᴰ 0 (list_by_state go c' ((both chain).heap 0).state)
    × Memᴰ 0 (list_by_state go c' "offline")
api_update_state_stale_example =
    api_update_state_stale go (both chain) "web" 0 "offline" 0 9 chain-IsValid web_registered
      web-ne-blank web_online

validate_dependencies_terminates_example : validate_dependencies go (both ring) ≢ out_of_fuel
validate_dependencies_terminates_example = validate_dependencies_terminates go (both ring)

chain-clear : validate_dependencies go (both chain) ≡ clear [] []
unfolding validate_dependencies dependencies register get put String_discrete
chain-clear = refl

validate_dependencies_complete_example : ¬ Leads go (both chain) "web" "web"
validate_dependencies_complete_example =
    validate_dependencies_complete go (both chain) [] [] "web" chain-IsValid chain-clear

ring_circular : validate_dependencies go (both ring) ≡ circular "db" "web"
unfolding validate_dependencies dependencies register get put String_discrete
ring_circular = refl

-- The dependencies of the ring, by id.
abbrev web_id : String
web_id = "web"

abbrev db_id : String
db_id = "db"

abbrev ring_catalog : Catalog go
ring_catalog = record {
  heap = ring;
  entities = ("web", 0) ∷ ("db", 1) ∷ [];
  by_type = ("service", "web" ∷ "db" ∷ []) ∷ [];
  by_adapter = [];
  by_state = ("online", "web" ∷ "db" ∷ []) ∷ [];
}

both-ring : both ring ≡ ring_catalog
unfolding register get put String_discrete aizo.Layer2.Index.index_add
both-ring = refl

ring_catalog-dependencies :
    (a : String)
    → dependencies go ring_catalog a
      ≡ (if a == db_id then some (web_id ∷ []) else if a == web_id then some (db_id ∷ []) else none)
unfolding dependencies get
ring_catalog-dependencies a = ground (arith, web-ne-db)

ring-dependencies :
    (a : String)
    → dependencies go (both ring) a
      ≡ (if a == db_id then some (web_id ∷ []) else if a == web_id then some (db_id ∷ []) else none)
ring-dependencies a = ap (λ c. dependencies go c a) both-ring ∙ ring_catalog-dependencies a

web_dependencies-ring : dependencies go (both ring) web_id ≡ some (db_id ∷ [])
unfolding dependencies register get put String_discrete
web_dependencies-ring = refl

db_dependencies-ring : dependencies go (both ring) db_id ≡ some (web_id ∷ [])
unfolding dependencies register get put String_discrete
db_dependencies-ring = refl

Mem-single : (b x : String) (ts : List String) → ts ≡ x ∷ [] → Memᴰ b ts → b ≡ x
Mem-single b x ts e m = Memᴰ.eq_of_singleton (subst (λ l. Memᴰ b l) e m)

ring-Closed : Closed go (both ring)
ring-Closed a b (ts, e, m) = elim (Bool-cases (a == db_id)) [
  | inl h ↦
      let same : b ≡ web_id = Mem-single b web_id ts (ground (arith, ring-dependencies a)) m in
      (db_id ∷ [], rw same web_dependencies-ring)
  | inr h ↦ elim (Bool-cases (a == web_id)) [
    | inl k ↦
        let same : b ≡ db_id = Mem-single b db_id ts (ground (arith, ring-dependencies a)) m in
        (web_id ∷ [], rw same db_dependencies-ring)
    | inr k ↦ absurd (ground (arith, ring-dependencies a))
  ]
]

validate_dependencies_sound_example :
    Edge go (both ring) "db" "web" × Leads go (both ring) "db" "db"
validate_dependencies_sound_example =
    validate_dependencies_sound go (both ring) "db" "web" ring-IsValid ring-Closed ring_circular

abbrev broken : ℕ → Entity go
broken p = entity "web" (needs "db" ∷ needs "db" ∷ [])

abbrev web_only : Catalog go
web_only = (register go (new_entity_catalog go broken) 0).0

web_dependencies : dependencies go web_only "web" ≡ some ("db" ∷ "db" ∷ [])
unfolding dependencies register get put String_discrete
web_dependencies = refl

db_dependencies : dependencies go web_only "db" ≡ none
unfolding dependencies register get put String_discrete
db_dependencies = refl

-- What fails with "web" when each needs the other: "db", and so "web" itself.
ring-impacted : get_impacted_entities go (both ring) "web" ≡ entities (1 ∷ 0 ∷ [])
unfolding get_impacted_entities register get put String_discrete aizo.Layer2.Impact.dependents_in
ring-impacted = refl

web_of_ring : get_entity go (both ring) "web" ≡ some 0
unfolding get_entity register get put String_discrete
web_of_ring = refl

get_impacted_entities_iff_example :
    (ps : List ℕ) × (get_impacted_entities go (both ring) "web" ≡ entities ps)
    × ((a : String) → Among go (both ring) a ps ↔ Reaches go (both ring) a ((both ring).heap 0).id)
    × ((q : ℕ) → Memᴰ q ps → Memᴰ q (list_entities go (both ring)))
    × UniqueIds (λ q. ((both ring).heap q).id) ps
get_impacted_entities_iff_example = get_impacted_entities_iff go (both ring) "web" 0 web_of_ring

deregister_cases_example :
    (((a : String) × Depends go (both ring) a "web")
      × ((ps : List ℕ) × UniqueIds (λ q. ((both ring).heap q).id) ps
          × ((a : String) → Among go (both ring) a ps ↔ Reaches go (both ring) a "web")
          × (deregister go (both ring) "web" ≡ (both ring, some (still_needed (length ps))))))
    ⊎ (((deregister go (both ring) "web").1 ≡ none)
        × (get_entity go (deregister go (both ring) "web").0 "web" ≡ none)
        × ((a : String) → ¬ Depends go (deregister go (both ring) "web").0 a "web"))
deregister_cases_example = deregister_cases go (both ring) "web" 0 ring-IsValid web_of_ring

-- Nothing needs "web" in the chain, and "web" needs "db".
chain-deregister_web : (deregister go (both chain) "web").1 ≡ none
unfolding deregister get_impacted_entities register get put String_discrete
    aizo.Layer2.Impact.dependents_in aizo.Layer2.Catalog.unregister
chain-deregister_web = refl

chain-deregister_db : deregister go (both chain) "db" ≡ (both chain, some (still_needed 1))
unfolding deregister get_impacted_entities register get put String_discrete
    aizo.Layer2.Impact.dependents_in
chain-deregister_db = refl

refused_type :
    validate_request (record { id = "a"; entity_type = "service"; name = "b" })
    ≡ some (invalid_type "service")
unfolding validate_request String_discrete
refused_type = refl

force_deregister-frees_example :
    ((force_deregister go (both ring) "web").1 ≡ none)
    × (get_entity go (force_deregister go (both ring) "web").0 "web" ≡ none)
    × ((a : String) → ¬ Depends go (force_deregister go (both ring) "web").0 a "web")
force_deregister-frees_example =
    force_deregister-frees go (both ring) "web" 0 ring-IsValid web_of_ring
