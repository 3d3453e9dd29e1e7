-- ===== src/Security/Rbac.antt =====
-- security/rbac.go. The nodes map is a Go map; a role is a string, as in the source, since a file
-- may hold any. Reading and writing the YAML file is outside the model: `load_nodes` and
-- `config_nodes` start and end at the parsed configuration.
pub mod Permissions
pub mod Config
use aizo.Prelude.{
  String, Bool, true, false, Option, none, some, List, [], ◌∷◌, if◌then◌else◌, Map, get, put,
  values, ◌==◌, string_eq, some_of,
}

abbrev pub role_admin : String
role_admin = "admin"

abbrev pub role_operator : String
role_operator = "operator"

abbrev pub role_reader : String
role_reader = "reader"

pub record NodeEntry : Type 0 where
  pub id : String
  pub role : String
  pub secret : String

pub record Rbac : Type 0 where
  pub nodes : Map String NodeEntry

abbrev pub new_rbac : Rbac
new_rbac = record { nodes = [] }

unfoldable pub register_node : Rbac → NodeEntry → Rbac
register_node r entry = record { nodes = put entry.id entry r.nodes }

-- The loop of `LoadFromFile` over the parsed nodes.
unfoldable pub load_nodes : Rbac → List NodeEntry → Rbac
load_nodes r [] = r
load_nodes r (n ∷ ns) = load_nodes (record { nodes = put n.id n r.nodes }) ns

-- The configuration that `SaveToFile` writes.
unfoldable pub config_nodes : Rbac → List NodeEntry
config_nodes r = values r.nodes

unfoldable pub get_node : Rbac → String → Option NodeEntry
get_node r node_id = get node_id r.nodes

pub data Secret : Type 0 where
  secret_of : String → Secret
  unknown_node : String → Secret

unfoldable pub get_secret : Rbac → String → Secret
get_secret r node_id = elim (get node_id r.nodes) [
  | none ↦ unknown_node node_id
  | some n ↦ secret_of n.secret
]

-- The cases of the two inner switches.
abbrev pub operator_actions : List String
operator_actions = "read_state" ∷ "send_command" ∷ "health_check" ∷ "file_transfer" ∷ []

abbrev pub reader_actions : List String
reader_actions = "read_state" ∷ "health_check" ∷ []

abbrev pub listed : String → List String → Bool
listed action = some_of (λ a. action == a)

unfoldable pub role_allows : String → String → Bool
role_allows role action =
    if role == role_admin
    then true
    else if role == role_operator
    then listed action operator_actions
    else if role == role_reader
    then listed action reader_actions
    else false

unfoldable pub can_execute : Rbac → String → String → Bool
unfolding role_allows
can_execute r node_id action = elim (get node_id r.nodes) [
  | none ↦ false
  | some node ↦ role_allows node.role action
]

unfoldable pub can_read : Rbac → String → Bool
can_read r node_id = can_execute r node_id "read_state"

unfoldable pub can_command : Rbac → String → Bool
can_command r node_id = can_execute r node_id "send_command"
