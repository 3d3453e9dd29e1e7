-- ===== src/Layer1/Adapter.antt =====
-- layer1/adapter.go: the part of `AdapterConfig` that the code below reads, the counters of
-- `BaseAdapter`, and `RetryWithBackoff`. What an adapter does behind its interface is a parameter.
pub mod Retry
use aizo.Prelude.{
  ℕ, zero, suc, ◌+◌, ◌*◌, String, Bool, true, false, Option, none, some, List, [], ◌∷◌,
  if◌then◌else◌,
}
use aizo.Prelude.Int.{ℤ, pos, negsuc}

pub record AdapterConfig : Type 0 where
  pub id : String
  pub adapter_type : String
  pub target : String

-- What the registry asks of an adapter: `GetConfig`, `GetType` and `GetCapabilities`.
pub record Adapter (A : Type 0) : Type 0 where
  pub get_config : A → AdapterConfig
  pub get_type : A → String
  pub get_capabilities : A → List String

-- The answer of a fallible call: `none` is nil.
abbrev pub Answer : Type 0
Answer = Option String

pub record BaseAdapter : Type 0 where
  pub last_error : Answer
  pub error_count : ℕ
  pub success_count : ℕ

unfoldable pub record_success : BaseAdapter → BaseAdapter
record_success b = record b { success_count = b.success_count + 1; last_error = none }

unfoldable pub record_error : BaseAdapter → String → BaseAdapter
record_error b err = record b { error_count = b.error_count + 1; last_error = some err }

-- How the wait before an attempt ends: the backoff is over, or the context is done first.
pub data Wait : Type 0 where
  waited : Wait
  done : String → Wait

-- What the loop of `RetryWithBackoff` meets: how each wait ends, and what each attempt answers.
pub record World : Type 0 where
  pub wait : ℕ → Wait
  pub answer : ℕ → Answer

attempt_fn : Answer → ℕ → (ℕ → Answer → ℕ × Answer) → ℕ × Answer
attempt_fn none calls next = (calls + 1, none)
attempt_fn (some err) calls next = next (calls + 1) (some err)

-- The body of the loop at `attempt`. The wait comes before every attempt but the first.
round : World → ℕ → ℕ → (ℕ → Answer → ℕ × Answer) → ℕ × Answer
unfolding attempt_fn
round w zero calls next = attempt_fn (w.answer 0) calls next
round w (suc n) calls next = elim (w.wait (suc n)) [
  | waited ↦ attempt_fn (w.answer (suc n)) calls next
  | done err ↦ (calls, some err)
]

-- The rounds from `attempt` on, `left` of them. The result counts the calls of `fn`.
unfoldable pub retry_loop : World → ℕ → ℕ → ℕ → Answer → ℕ × Answer
unfolding round
retry_loop w zero attempt calls last_err = (calls, last_err)
retry_loop w (suc left) attempt calls last_err =
    round w attempt calls (λ calls' err. retry_loop w left (suc attempt) calls' err)

-- `attempt` runs from 0 to `RetryAttempts`: one round more than the retries, and none if that number
-- is negative.
rounds : ℤ → ℕ
rounds (pos n) = n + 1
rounds (negsuc n) = 0

unfoldable pub retry_with_backoff : ℤ → World → ℕ × Answer
unfolding retry_loop rounds
retry_with_backoff attempts w = retry_loop w (rounds attempts) 0 0 none
