-- ===== src/Security/Auth.antt =====
-- security/auth.go: the tokens. `sign` is `SignMessage`, the HMAC in hexadecimal digits of a payload
-- under a secret of the type `K`, and `payload` is `fmt.Sprintf("%s:%d:%s", ...)`. The nonce that
-- `rand.Read` gives, if it does, is an argument, and so is the time, in nanoseconds.
pub mod Window
use aizo.Prelude.{
  ℕ, ◌+◌, ◌-◌, ◌*◌, ◌/◌, String, Bool, true, false, not, ◌||◌, Option, none, some, ◌==◌, string_eq,
  if◌then◌else◌,
}
use aizo.Prelude.Int.{ℤ, pos, negsuc, sub_ℕ, ltb_ℤ}

pub record AuthToken : Type 0 where
  pub node_id : String
  pub timestamp : ℤ
  pub nonce : String
  pub signature : String

pub data Error : Type 0 where
  nil_token token_expired invalid_signature generate_nonce : Error

pub data Result (A : Type 0) : Type 0 where
  ok : A → Result A
  err : Error → Result A

abbrev pub millisecond : ℕ
millisecond = 1_000_000

abbrev pub window : ℕ
window = 30_000_000_000

-- `time.Since(time.UnixMilli(t))`
abbrev pub age : ℤ → ℕ → ℤ
age (pos t) now = sub_ℕ now (t * millisecond)
age (negsuc n) now = pos (now + (n + 1) * millisecond)

abbrev pub expired : ℤ → Bool
expired a = ltb_ℤ (pos window) a || ltb_ℤ a (negsuc (window - 1))

module _ {K : Type 0} (sign : K → String → String) (payload : String → ℤ → String → String) where
  abbrev pub verify_message : K → String → String → Bool
  verify_message secret text signature = sign secret text == signature

  unfoldable pub generate_token : String → K → ℕ → Option String → Result AuthToken
  generate_token node secret now none = err generate_nonce
  generate_token node secret now (some nonce) =
      let timestamp : ℤ = pos (now / millisecond) in
      ok (record {
        node_id = node;
        timestamp = timestamp;
        nonce = nonce;
        signature = sign secret (payload node timestamp nonce);
      })

  unfoldable pub verify_token : Option AuthToken → K → ℕ → Option Error
  verify_token none secret now = some nil_token
  verify_token (some token) secret now =
      if expired (age token.timestamp now)
      then some token_expired
      else (if not (
            verify_message secret (payload token.node_id token.timestamp token.nonce)
              token.signature)
          then some invalid_signature
          else none)
