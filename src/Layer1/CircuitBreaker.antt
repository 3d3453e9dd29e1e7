-- ===== src/Layer1/CircuitBreaker.antt =====
-- layer1/circuit_breaker.go. Each method takes its lock for its whole body, so it is one step: a
-- function from the breaker to the new breaker. `time.Now()` is the argument `now`, in nanoseconds.
-- The counters start at 0 and go up by one, and are natural numbers.
pub mod Invariant
pub mod Counting
pub mod Recovery
use aizo.Prelude.{ℕ, ◌+◌, ◌*◌, String, Bool, true, false, Option, none, some, if◌then◌else◌}
use aizo.Prelude.Int.{ℤ, pos, leb_ℤ, ltb_ℤ, sub_ℕ}

pub data CircuitState : Type 0 where
  closed open_state half_open : CircuitState

pub record CircuitBreaker : Type 0 where
  pub name : String
  pub state : CircuitState
  pub fail_count : ℕ
  pub success_count : ℕ
  pub threshold : ℤ
  pub reset_timeout : ℤ
  pub last_fail_time : ℕ

abbrev pub second : ℕ
second = 1_000_000_000

unfoldable pub new_circuit_breaker : String → ℤ → ℤ → CircuitBreaker
new_circuit_breaker name threshold reset_timeout = record {
  name = name;
  state = closed;
  fail_count = 0;
  success_count = 0;
  threshold = if leb_ℤ threshold (pos 0) then pos 5 else threshold;
  reset_timeout = if leb_ℤ reset_timeout (pos 0) then pos (30 * second) else reset_timeout;
  last_fail_time = 0;
}

-- `time.Since(cb.lastFailTime) > cb.resetTimeout`
abbrev pub timeout_elapsed : CircuitBreaker → ℕ → Bool
timeout_elapsed cb now = ltb_ℤ cb.reset_timeout (sub_ℕ now cb.last_fail_time)

allow_in : CircuitState → Bool → Bool
allow_in closed elapsed = true
allow_in open_state elapsed = if elapsed then true else false
allow_in half_open elapsed = true

unfoldable pub allow_request : CircuitBreaker → ℕ → Bool
unfolding allow_in
allow_request cb now = allow_in cb.state (timeout_elapsed cb now)

success_in : CircuitState → CircuitBreaker → CircuitBreaker
success_in closed cb = cb
success_in open_state cb = record cb { state = closed; fail_count = 0 }
success_in half_open cb = record cb { state = closed; fail_count = 0 }

unfoldable pub record_success : CircuitBreaker → CircuitBreaker
unfolding success_in
record_success cb = success_in cb.state (record cb { success_count = cb.success_count + 1 })

abbrev trip : CircuitBreaker → CircuitBreaker
trip cb = if leb_ℤ cb.threshold (pos cb.fail_count) then record cb { state = open_state } else cb

failure_in : CircuitState → CircuitBreaker → CircuitBreaker
failure_in half_open cb = record cb { state = open_state }
failure_in _ cb = trip cb

unfoldable pub record_failure : CircuitBreaker → ℕ → CircuitBreaker
unfolding failure_in
record_failure cb now =
    failure_in cb.state (record cb { fail_count = cb.fail_count + 1; last_fail_time = now })

unfoldable pub reset : CircuitBreaker → CircuitBreaker
reset cb = record cb { state = closed; fail_count = 0; success_count = 0 }

pub data Error : Type 0 where
  circuit_open : String → Error
  failed : String → Error

-- `err := fn()` and the recording of its outcome, at the time `now`.
unfoldable pub record_outcome : CircuitBreaker → ℕ → Option Error → CircuitBreaker
unfolding record_success record_failure
record_outcome cb now none = record_success cb
record_outcome cb now (some e) = record_failure cb now

-- `Execute`: `fn` is the answer of the guarded call, and `now'` the time at which it ends.
unfoldable pub execute : CircuitBreaker → ℕ → ℕ → Option Error → CircuitBreaker × Option Error
unfolding allow_request record_outcome
execute cb now now' fn =
    if allow_request cb now
    then (record_outcome cb now' fn, fn)
    else (cb, some (circuit_open cb.name))

-- `Stats`
state_name : CircuitState → String
state_name closed = "closed"
state_name open_state = "open"
state_name half_open = "half-open"

unfoldable pub stats : CircuitBreaker → String × ℕ × ℕ
unfolding state_name
stats cb = (state_name cb.state, cb.fail_count, cb.success_count)
