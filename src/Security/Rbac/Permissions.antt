-- ===== src/Security/Rbac/Permissions.antt =====
-- What the roles of security/rbac.go permit, and how registering a node changes it.
use aizo.Prelude.{
  ◌≡◌, ◌≢◌, ◌↔◌, ◌⊎◌, inl, inr, refl, String, true, some, if◌then◌else◌, get, ◌==◌, string_eq,
  get-put, arith, Option-cases, String_discrete, ne_of_test,
}
use aizo.Security.Rbac.{
  role_admin, role_operator, role_reader, NodeEntry, Rbac, register_node, get_node,
  operator_actions, reader_actions, listed, role_allows, can_execute, can_read, can_command,
}

operator-ne-admin : role_operator ≢ role_admin
unfolding String_discrete
operator-ne-admin = ne_of_test role_operator role_admin refl

reader-ne-admin : role_reader ≢ role_admin
unfolding String_discrete
reader-ne-admin = ne_of_test role_reader role_admin refl

reader-ne-operator : role_reader ≢ role_operator
unfolding String_discrete
reader-ne-operator = ne_of_test role_reader role_operator refl

command-ne-health : ◌≢◌ {A = String} "send_command" "health_check"
unfolding String_discrete
command-ne-health = ne_of_test {A = String} "send_command" "health_check" refl

command-ne-read : ◌≢◌ {A = String} "send_command" "read_state"
unfolding String_discrete
command-ne-read = ne_of_test {A = String} "send_command" "read_state" refl

-- A node may perform an action exactly when it is registered and its role is the administrator's, or
-- the operator's and the action is one of the operators' four, or the reader's and the action is one
-- of the readers' two. Every other role, and an unknown node, may do nothing.
pub can_execute_iff :
    (r : Rbac) (id action : String)
    → (can_execute r id action ≡ true) ↔ (
        (n : NodeEntry) × (get_node r id ≡ some n)
        × ((n.role ≡ role_admin)
            ⊎ (n.role ≡ role_operator) × (listed action operator_actions ≡ true)
            ⊎ (n.role ≡ role_reader) × (listed action reader_actions ≡ true)))
unfolding can_execute get_node
can_execute_iff r id action = elim (Option-cases (get id r.nodes)) [
  | inl e ↦ (λ h. absurd (ground arith), λ (n, g, c). absurd (ground arith))
  | inr (n, e) ↦ (
    λ h. (n, e, ground arith),
    λ (m, g, c). ground (arith, operator-ne-admin, reader-ne-admin, reader-ne-operator),
  )
]

-- The roles are ordered: what a reader may do an operator may do too, and an administrator may do
-- every action.
pub role_allows_mono :
    (action : String)
    → role_allows role_reader action ≡ true
    → (role_allows role_operator action ≡ true) × (role_allows role_admin action ≡ true)
unfolding role_allows
role_allows_mono action h = ground (arith, operator-ne-admin, reader-ne-admin, reader-ne-operator)

-- A node that may send commands may read the state.
pub can_command-can_read : (r : Rbac) (id : String) → can_command r id ≡ true → can_read r id ≡ true
unfolding can_command can_read can_execute
can_command-can_read r id h = ground (arith, command-ne-health, command-ne-read)

-- Registering a node sets the permissions of its id to those of its role, and no others.
pub can_execute-register_node :
    (r : Rbac) (n : NodeEntry) (id action : String)
    → can_execute (register_node r n) id action
      ≡ (if id == n.id then role_allows n.role action else can_execute r id action)
unfolding can_execute register_node
can_execute-register_node r n id action = ground (arith, get-put n.id id n r.nodes)
