-- ===== src/Layer2/Catalog.antt =====
-- layer2/catalog.go. Entities are shared: the catalog holds pointers, and callers change the entities
-- behind them. So the model has a heap: `heap p` is the entity behind the pointer `p`. Each method
-- holds the lock for its whole body. `RegistrationAPI.UpdateState` is from layer2/registration.go.
pub mod Indexing
pub mod Stale
use aizo.Prelude.{
  ℕ, zero, suc, ◌+◌, String, Bool, true, false, not, ◌&&◌, ◌||◌, Option, none, some, List, [], ◌∷◌,
  ◌++◌, map, if◌then◌else◌, Map, get, put, delete, keys, values, length, ltb, ◌==◌, string_eq,
  nat_eq, select, is_some,
}
use aizo.Prelude.Int.{ℤ, pos_part, neg_part}
use aizo.Layer2.Entity.{Go, Entity, has_capability, update_state}
use aizo.Layer2.Index.{Index, index_at, index_add, index_remove}

pub data Error : Type 0 where
  empty_id : Error
  not_found : String → Error

module _ (go : Go) where
  open go use {Value, sprint, Float, lt, positive}

  abbrev pub Heap : Type 0
  Heap = ℕ → Entity go

  -- A write through a pointer.
  abbrev pub write : Heap → ℕ → Entity go → Heap
  write heap p e q = if q == p then e else heap q

  pub record Catalog : Type 0 where
    pub heap : Heap
    pub entities : Map String ℕ
    pub by_type : Index
    pub by_adapter : Index
    pub by_state : Index

  abbrev pub new_entity_catalog : Heap → Catalog
  new_entity_catalog heap = record {
    heap = heap;
    entities = [];
    by_type = [];
    by_adapter = [];
    by_state = [];
  }

  unfoldable pub add_adapters : List String → String → Index → Index
  add_adapters [] id ix = ix
  add_adapters (a ∷ as_) id ix = add_adapters as_ id (index_add a id ix)

  unfoldable pub remove_adapters : List String → String → Index → Index
  remove_adapters [] id ix = ix
  remove_adapters (a ∷ as_) id ix = remove_adapters as_ id (index_remove a id ix)

  unfoldable pub add_to_indexes : Catalog → Entity go → Catalog
  unfolding add_adapters
  add_to_indexes c e = record c {
    by_type = index_add e.entity_type e.id c.by_type;
    by_adapter = add_adapters e.adapters e.id c.by_adapter;
    by_state = index_add e.state e.id c.by_state;
  }

  unfoldable pub remove_from_indexes : Catalog → Entity go → Catalog
  unfolding remove_adapters
  remove_from_indexes c e = record c {
    by_type = index_remove e.entity_type e.id c.by_type;
    by_adapter = remove_adapters e.adapters e.id c.by_adapter;
    by_state = index_remove e.state e.id c.by_state;
  }

  -- `Register` of the pointer `p`.
  unfoldable pub register : Catalog → ℕ → Catalog × Option Error
  unfolding add_to_indexes remove_from_indexes
  register c p =
      let e = c.heap p in
      if e.id == ""
      then (c, some empty_id)
      else let c' : Catalog = elim (get e.id c.entities) [
        | none ↦ c
        | some q ↦ remove_from_indexes c (c.heap q)
      ] in
        (add_to_indexes (record c' { entities = put e.id p c'.entities }) e, none)

  unfoldable pub unregister : Catalog → String → Catalog × Option Error
  unfolding remove_from_indexes
  unregister c id = elim (get id c.entities) [
    | none ↦ (c, some (not_found id))
    | some p ↦
        let c' = remove_from_indexes c (c.heap p) in
        (record c' { entities = delete id c'.entities }, none)
  ]

  -- `Get` answers a pointer.
  unfoldable pub get_entity : Catalog → String → Option ℕ
  get_entity c id = get id c.entities

  unfoldable pub list_entities : Catalog → List ℕ
  list_entities c = values c.entities

  -- The loop of the three `ListBy` methods: the ids that are registered.
  unfoldable pub registered : Map String ℕ → List String → List ℕ
  registered entities [] = []
  registered entities (id ∷ ids) =
      let rest = registered entities ids in
      elim (get id entities) [ none ↦ rest | some p ↦ p ∷ rest ]

  unfoldable pub list_by_type : Catalog → String → List ℕ
  unfolding registered
  list_by_type c t = registered c.entities (index_at t c.by_type)

  unfoldable pub list_by_adapter : Catalog → String → List ℕ
  unfolding registered
  list_by_adapter c a = registered c.entities (index_at a c.by_adapter)

  unfoldable pub list_by_state : Catalog → String → List ℕ
  unfolding registered
  list_by_state c s = registered c.entities (index_at s c.by_state)

  pub record SearchCriteria : Type 0 where
    pub entity_type : Option String
    pub state : Option String
    pub capability : Option String
    pub tag : String
    pub tag_value : String
    pub min_health_score : Float

  abbrev pub wanted : Option String → String → Bool
  wanted none s = true
  wanted (some t) s = s == t

  unfoldable pub matches_criteria : Entity go → SearchCriteria → Bool
  matches_criteria e q =
      wanted q.entity_type e.entity_type
      && (wanted q.state e.state
          && (elim q.capability [ none ↦ true | some cap ↦ has_capability go e cap ]
              && ((q.tag == "" || elim (get q.tag e.metadata) [
                | none ↦ false
                | some val ↦ q.tag_value == "" || sprint val == q.tag_value
              ])
                  && not (positive q.min_health_score && lt e.health_score q.min_health_score))))

  unfoldable pub search_entities : Catalog → SearchCriteria → List ℕ
  unfolding matches_criteria
  search_entities c q = select (λ p. matches_criteria (c.heap p) q) (values c.entities)

  abbrev pub counts : Index → Map String ℕ
  counts ix = map (λ e. (e.0, length e.1)) ix

  pub record CatalogStats : Type 0 where
    pub total_entities : ℕ
    pub by_type : Map String ℕ
    pub by_state : Map String ℕ

  unfoldable pub get_stats : Catalog → CatalogStats
  get_stats c = record {
    total_entities = length c.entities;
    by_type = counts c.by_type;
    by_state = counts c.by_state;
  }

  -- `entity.LastSeenAt.Before(time.Now().Add(-maxAge))`, with the age added on the other side.
  abbrev pub is_stale : ℤ → ℕ → Entity go → Bool
  is_stale max_age now e = ltb (e.last_seen_at + pos_part max_age) (now + neg_part max_age)

  -- The loop of `CleanupStale` over the entries that are left; `removed` counts.
  unfoldable pub cleanup_loop : ℤ → ℕ → List (String × ℕ) → Catalog → ℕ → Catalog × ℕ
  unfolding remove_from_indexes
  cleanup_loop max_age now [] c removed = (c, removed)
  cleanup_loop max_age now ((id, p) ∷ es) c removed =
      let e = c.heap p in
      let stale = is_stale max_age now e in
      let c' = remove_from_indexes c e in
      cleanup_loop max_age now es
        (if stale then record c' { entities = delete id c'.entities } else c)
        (if stale then removed + 1 else removed)

  unfoldable pub cleanup_stale : Catalog → ℤ → ℕ → Catalog × ℕ
  unfolding cleanup_loop
  cleanup_stale c max_age now = cleanup_loop max_age now c.entities c 0

  -- `RegistrationAPI.UpdateState`: it writes through the pointer that `Get` answers, and registers the
  -- entity again, and no other call comes between.
  unfoldable pub api_update_state : Catalog → String → String → Float → ℕ → Catalog × Option Error
  unfolding get_entity register
  api_update_state c id state score now = elim (get_entity c id) [
    | none ↦ (c, some (not_found id))
    | some p ↦
        register (record c { heap = write c.heap p (update_state go (c.heap p) state score now) }) p
  ]
