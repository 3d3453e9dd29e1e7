-- ===== src/Security/Auth/Window.antt =====
-- Which tokens are accepted, and when (security/auth.go).
use aizo.Prelude.{ℕ, ◌+◌, ◌*◌, ◌/◌, ◌≤◌, ◌≡◌, ◌↔◌, String, false, none, some, string_eq, arith}
use aizo.Prelude.Int.{ℤ}
use aizo.Security.Auth.{
  AuthToken, ok, millisecond, window, age, expired, generate_token, verify_token,
}

module _ {K : Type 0} (sign : K → String → String) (payload : String → ℤ → String → String) where
  -- A token that was generated is accepted under its secret from 30 seconds before its time, in whole
  -- milliseconds, to 30 seconds after it, and at no other time.
  pub verify_token-generate_token :
      (node : String) (secret : K) (now now' : ℕ) (nonce : String) (token : AuthToken)
      → generate_token sign payload node secret now (some nonce) ≡ ok token
      → let sent : ℕ = now / millisecond * millisecond in
        (verify_token sign payload (some token) secret now' ≡ none)
        ↔ ((now' ≤ sent + window) × (sent ≤ now' + window))
  unfolding generate_token verify_token
  verify_token-generate_token node secret now now' nonce token e = ground arith

  -- An accepted token carries the signature of its own fields under the secret; nothing else of it is
  -- asked than that its time is in the window.
  pub verify_token-eq-none_iff :
      (token : AuthToken) (secret : K) (now : ℕ)
      → (verify_token sign payload (some token) secret now ≡ none) ↔ (
          (sign secret (payload token.node_id token.timestamp token.nonce) ≡ token.signature)
          × (expired (age token.timestamp now) ≡ false))
  unfolding verify_token
  verify_token-eq-none_iff token secret now = ground arith
