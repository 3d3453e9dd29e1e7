-- ===== src/Layer1/Mesh/Coordinator/Agreement.antt =====
-- The election (layer1/mesh_coordinator.go): who is coordinator, and that nodes agree on it.
use mathlib.Core.List.{Memᴰ, Permᴰ}
use mathlib.Core.List.Memᴰ
use mathlib.Core.List.Permᴰ
use aizo.Prelude.{
  ◌≡◌, ◌≢◌, ◌⊎◌, ◌↔◌, inl, inr, refl, String, true, false, List, [], ◌∷◌, ◌++◌, ◌==◌, nat_eq,
  string_eq, arith, Mem-Perm, Mem-cons, Bool-cases, some_of,
}
use aizo.Prelude.Texts.{leb_string, leb_string_antisym, leb_string_refl}
use aizo.Layer1.Mesh.Coordinator.{
  MeshCoordinator, hierarchical, new_mesh_coordinator, first, without, elect, update_peers,
  add_peer, remove_peer, should_connect_to,
}

-- What the documentation of `sort.Strings` says: the same strings, and none before a smaller one.
abbrev pub Ascending : List String → Type 0
Ascending [] = Unit
Ascending (s ∷ ss) = ((t : String) → Memᴰ t ss → leb_string s t ≡ true) × Ascending ss

pub record Sorts (sort : List String → List String) : Type 0 where
  pub permutes : (ss : List String) → Permᴰ (sort ss) ss
  pub ascends : (ss : List String) → Ascending (sort ss)

-- The nodes that a coordinator knows, itself among them.
abbrev pub Member : MeshCoordinator → String → Type 0
Member c id = Memᴰ id (c.local_id ∷ c.peers)

-- The coordinator is the least member, and a node knows whether it is that.
pub record IsElected (c : MeshCoordinator) : Type 0 where
  pub member : Member c c.coordinator_id
  pub least : (id : String) → Member c id → leb_string c.coordinator_id id ≡ true
  pub own : (c.is_coordinator ≡ true) ↔ (c.coordinator_id ≡ c.local_id)

pub data Change : Type 0 where
  update : List String → Change
  add remove : String → Change

module _ (sort : List String → List String) where
  unfoldable pub change : MeshCoordinator → Change → MeshCoordinator
  change c (update ids) = update_peers sort c ids
  change c (add id) = add_peer sort c id
  change c (remove id) = remove_peer sort c id

  unfoldable pub run : MeshCoordinator → List Change → MeshCoordinator
  run c [] = c
  run c (e ∷ es) = run (change c e) es

module _ (sort : List String → List String) (sorts : Sorts sort) where
  first_least :
      (local_id : String) (ss : List String) (id : String)
      → Ascending ss
      → Memᴰ id ss
      → (Memᴰ (first local_id ss) ss) × (leb_string (first local_id ss) id ≡ true)
  first_least local_id [] id a m = absurd (Memᴰ.not-nil m)
  first_least local_id (s ∷ ss) id a m = elim ((Mem-cons id s ss).0 m) [
    | inl e ↦ (Memᴰ.head refl, rw e (leb_string_refl s))
    | inr t ↦ (Memᴰ.head refl, a.0 id t)
  ]

  elect-IsElected : (c : MeshCoordinator) → IsElected (elect sort c)
  unfolding elect
  elect-IsElected c = record {
    member = Mem-Perm _ (sorts.permutes all) (found c.local_id (Memᴰ.head refl)).0;
    least = λ id m. (found id m).1;
    own = ground arith;
  }
    where
      all : List String
      all = c.local_id ∷ c.peers

      found :
          (id : String)
          → Memᴰ id all
          → (Memᴰ (first c.local_id (sort all)) (sort all))
            × (leb_string (first c.local_id (sort all)) id ≡ true)
      found id m =
          first_least c.local_id (sort all) id (sorts.ascends all)
            (Mem-Perm id (Permᴰ.symm (sorts.permutes all)) m)

  change-IsElected : (c : MeshCoordinator) (e : Change) → IsElected c → IsElected (change sort c e)
  unfolding change update_peers add_peer remove_peer
  change-IsElected c (update ids) h = elect-IsElected (record c { peers = ids })
  change-IsElected c (add id) h = elim (Bool-cases (some_of (λ p. p == id) c.peers)) [
    | inl e ↦ rw e h
    | inr e ↦ rw e (elect-IsElected (record c { peers = c.peers ++ (id ∷ []) }))
  ]
  change-IsElected c (remove id) h = elect-IsElected (record c { peers = without id c.peers })

  change-new_IsElected :
      (local_id : String) (e : Change) → IsElected (change sort (new_mesh_coordinator local_id) e)
  unfolding change update_peers add_peer remove_peer new_mesh_coordinator
  change-new_IsElected local_id (update ids) =
      elect-IsElected (record (new_mesh_coordinator local_id) { peers = ids })
  change-new_IsElected local_id (add id) =
      elect-IsElected (record (new_mesh_coordinator local_id) { peers = id ∷ [] })
  change-new_IsElected local_id (remove id) =
      elect-IsElected (record (new_mesh_coordinator local_id) { peers = [] })

  run-IsElected : (c : MeshCoordinator) (es : List Change) → IsElected c → IsElected (run sort c es)
  unfolding run
  run-IsElected c [] h = h
  run-IsElected c (e ∷ es) h = run-IsElected (change sort c e) es (change-IsElected c e h)

  -- After the first change to its peers, and after any others, a node takes the least of the ids it
  -- knows, its own among them, for the coordinator, and knows whether that is itself.
  pub run-new_IsElected :
      (local_id : String) (e : Change) (es : List Change)
      → IsElected (run sort (new_mesh_coordinator local_id) (e ∷ es))
  unfolding run
  run-new_IsElected local_id e es = run-IsElected _ es (change-new_IsElected local_id e)

-- Two nodes that know the same members, whatever the order they heard of them, have the same
-- coordinator, and a node of them is the coordinator exactly if its id is the other's coordinator.
pub coordinator_agreed :
    (a b : MeshCoordinator)
    → IsElected a
    → IsElected b
    → ((id : String) → Member a id ↔ Member b id)
    → (a.coordinator_id ≡ b.coordinator_id)
      × ((a.is_coordinator ≡ true) ↔ (b.coordinator_id ≡ a.local_id))
coordinator_agreed a b ha hb same = (agreed, ground (arith, agreed, ha.own))
  where
    agreed : a.coordinator_id ≡ b.coordinator_id
    agreed =
        leb_string_antisym a.coordinator_id b.coordinator_id
          (ha.least b.coordinator_id ((same b.coordinator_id).1 hb.member))
          (hb.least a.coordinator_id ((same a.coordinator_id).0 ha.member))

-- In the hierarchical topology an elected node with a coordinator of nonempty id connects to all of
-- its peers if it is the coordinator, and else to the coordinator alone, which is one of its peers.
pub should_connect_to-hierarchical :
    (c : MeshCoordinator)
    → IsElected c
    → c.coordinator_id ≢ ""
    → ((c.is_coordinator ≡ true) × (should_connect_to c hierarchical ≡ c.peers))
      ⊎ ((c.is_coordinator ≡ false)
          × (should_connect_to c hierarchical ≡ c.coordinator_id ∷ [])
          × Memᴰ c.coordinator_id c.peers)
unfolding should_connect_to
should_connect_to-hierarchical c h ne =
    ground (arith, h.own, Mem-cons c.coordinator_id c.local_id c.peers, h.member)
