-- ===== src/Security/Rbac/Config.antt =====
-- Loading and saving the nodes (security/rbac.go).
use aizo.Prelude.{
  ◌≡◌, refl, ap, String, Option, none, some, List, [], ◌∷◌, if◌then◌else◌, Map, get, put, values,
  ◌==◌, string_eq, Distinct, get-put, put-Distinct, arith,
}
use aizo.Security.Rbac.{
  NodeEntry, Rbac, new_rbac, register_node, load_nodes, config_nodes, get_node, can_execute,
}

-- Every entry stands under its own id.
abbrev pub Keyed : Map String NodeEntry → Type 0
Keyed [] = Unit
Keyed ((k, n) ∷ m) = (n.id ≡ k) × Keyed m

pub record IsValid (r : Rbac) : Type 0 where
  pub distinct : Distinct r.nodes
  pub keyed : Keyed r.nodes

put-Keyed :
    (k : String) (n : NodeEntry) (m : Map String NodeEntry) → n.id ≡ k → Keyed m → Keyed (put k n m)
unfolding put
put-Keyed k n [] e h = ground arith
put-Keyed k n ((j, o) ∷ m) e h = ground (arith, put-Keyed k n m)

pub register_node-IsValid : (r : Rbac) (n : NodeEntry) → IsValid r → IsValid (register_node r n)
unfolding register_node
register_node-IsValid r n v = record {
  distinct = put-Distinct n.id n r.nodes v.distinct;
  keyed = put-Keyed n.id n r.nodes refl v.keyed;
}

-- The last of the loaded nodes with an id.
unfoldable pub find_last : String → List NodeEntry → Option NodeEntry
find_last id [] = none
find_last id (n ∷ ns) = elim (find_last id ns) [
  | some m ↦ some m
  | none ↦ if id == n.id then some n else none
]

-- Loading adds to the nodes that are there: an id reads the last loaded node that has it, and without
-- one what it read before.
pub get_node-load_nodes :
    (r : Rbac) (ns : List NodeEntry) (id : String)
    → get_node (load_nodes r ns) id
      ≡ elim (find_last id ns) [ some n ↦ some n | none ↦ get_node r id ]
unfolding get_node load_nodes find_last
get_node-load_nodes r [] id = refl
get_node-load_nodes r (n ∷ ns) id = ground (
  arith,
  get_node-load_nodes (record { nodes = put n.id n r.nodes }) ns id,
  get-put n.id id n r.nodes,
)

find_last-values :
    (m : Map String NodeEntry) (id : String)
    → Distinct m
    → Keyed m
    → find_last id (values m) ≡ get id m
unfolding find_last get
find_last-values [] id d k = refl
find_last-values ((j, n) ∷ m) id d k = ground (arith, find_last-values m id, ap (λ x. get x m) k.0)

-- Loading what was saved gives a new RBAC that answers every question about every node as the saved
-- one did.
pub load_nodes-config_nodes :
    (r : Rbac) (id action : String)
    → IsValid r
    → (get_node (load_nodes new_rbac (config_nodes r)) id ≡ get_node r id)
      × (can_execute (load_nodes new_rbac (config_nodes r)) id action ≡ can_execute r id action)
unfolding can_execute config_nodes get_node get
load_nodes-config_nodes r id action v =
    let same : get id (load_nodes new_rbac (values r.nodes)).nodes ≡ get id r.nodes = ground (
      arith,
      get_node-load_nodes new_rbac (values r.nodes) id,
      find_last-values r.nodes id v.distinct v.keyed,
    ) in
    (same, ground arith)
