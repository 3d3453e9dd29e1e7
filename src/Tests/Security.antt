-- ===== src/Tests/Security.antt =====
-- Runs of the access control and of the tokens (security/rbac.go, security/auth.go).
use Prim.Native.String.{◌++◌}
use aizo.Prelude.{ℕ, ◌+◌, ◌*◌, ◌/◌, ◌≤◌, ◌≡◌, ◌↔◌, refl, String, none, some, string_eq}
use aizo.Prelude.Int.{ℤ, pos}
use aizo.Security.Auth.{AuthToken, ok, millisecond, window, generate_token, verify_token}
use aizo.Security.Auth.Window.{verify_token-generate_token}
use aizo.Security.Rbac.{NodeEntry, Rbac, new_rbac, register_node}
use aizo.Security.Rbac.Config.{IsValid, register_node-IsValid}

abbrev pump : NodeEntry
pump = record { id = "pump"; role = "operator"; secret = "s1" }

abbrev gauge : NodeEntry
gauge = record { id = "gauge"; role = "reader"; secret = "s2" }

abbrev site : Rbac
site = register_node (register_node new_rbac pump) gauge

site-IsValid : IsValid site
site-IsValid =
    register_node-IsValid _ gauge
      (register_node-IsValid new_rbac pump (record { distinct = tt; keyed = tt }))

-- A signature that is the payload after the secret, and a payload that is the nonce.
abbrev signed : String → String → String
signed secret text = secret ++ text

abbrev nonce_only : String → ℤ → String → String
nonce_only node timestamp nonce = nonce

abbrev token : AuthToken
token = record { node_id = "pump"; timestamp = pos 5; nonce = "n"; signature = signed "s1" "n" }

token_generated :
    generate_token signed nonce_only "pump" "s1" (5 * millisecond) (some "n") ≡ ok token
unfolding generate_token
token_generated = refl

verify_token-generate_token_example :
    let sent : ℕ = 5 * millisecond / millisecond * millisecond in
    (verify_token signed nonce_only (some token) "s1" (6 * millisecond) ≡ none)
    ↔ ((6 * millisecond ≤ sent + window) × (sent ≤ 6 * millisecond + window))
verify_token-generate_token_example =
    verify_token-generate_token signed nonce_only "pump" "s1" (5 * millisecond) (6 * millisecond)
      "n" token token_generated
