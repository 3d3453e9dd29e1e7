-- ===== src/Layer1/Mesh/Coordinator.antt =====
-- layer1/mesh_coordinator.go. Each method takes its lock for its whole body. `sort` is the
-- `sort.Strings` of the identifiers.
pub mod Agreement
use aizo.Prelude.{
  ℕ, String, Bool, true, false, not, ◌&&◌, List, [], ◌∷◌, leb, if◌then◌else◌, ◌==◌, string_eq,
  some_of, ◌++◌,
}

pub data MeshTopology : Type 0 where
  full_mesh hierarchical : MeshTopology

pub record MeshCoordinator : Type 0 where
  pub local_id : String
  pub peers : List String
  pub coordinator_id : String
  pub is_coordinator : Bool

unfoldable pub new_mesh_coordinator : String → MeshCoordinator
new_mesh_coordinator local_id = record {
  local_id = local_id;
  peers = [];
  coordinator_id = "";
  is_coordinator = false;
}

-- `all[0]`, or the local node where there is none.
abbrev pub first : String → List String → String
first local_id [] = local_id
first local_id (id ∷ rest) = id

-- `c.peers` without the first peer that has the id.
abbrev pub without : String → List String → List String
without id [] = []
without id (p ∷ ps) = let rest = without id ps in if p == id then ps else p ∷ rest

abbrev pub recommend_topology : ℕ → MeshTopology
recommend_topology node_count = if leb node_count 10 then full_mesh else hierarchical

should_connect : MeshTopology → MeshCoordinator → List String
should_connect full_mesh c = c.peers
should_connect hierarchical c =
    if c.is_coordinator
    then c.peers
    else (if not (c.coordinator_id == "") && not (c.coordinator_id == c.local_id)
        then c.coordinator_id ∷ []
        else [])

unfoldable pub should_connect_to : MeshCoordinator → MeshTopology → List String
unfolding should_connect
should_connect_to c topology = should_connect topology c

module _ (sort : List String → List String) where
  unfoldable pub elect : MeshCoordinator → MeshCoordinator
  elect c =
      let id = first c.local_id (sort (c.local_id ∷ c.peers)) in
      record c { coordinator_id = id; is_coordinator = id == c.local_id }

  unfoldable pub update_peers : MeshCoordinator → List String → MeshCoordinator
  unfolding elect
  update_peers c ids = elect (record c { peers = ids })

  unfoldable pub add_peer : MeshCoordinator → String → MeshCoordinator
  unfolding elect
  add_peer c id =
      if some_of (λ p. p == id) c.peers
      then c
      else elect (record c { peers = c.peers ++ (id ∷ []) })

  unfoldable pub remove_peer : MeshCoordinator → String → MeshCoordinator
  unfolding elect
  remove_peer c id = elect (record c { peers = without id c.peers })
