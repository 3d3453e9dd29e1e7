-- ===== src/Layer1/CircuitBreaker/Invariant.antt =====
-- What holds of a circuit breaker (layer1/circuit_breaker.go) after any sequence of its methods.
use aizo.Prelude.{
  ℕ, ◌≡◌, ◌≢◌, ◌↔◌, ◌⊎◌, Option, none, some, List, [], ◌∷◌, String, true, false, arith,
}
use aizo.Prelude.Int.{ℤ, pos, ◌≤ℤ◌, ◌<ℤ◌}
use aizo.Layer1.CircuitBreaker.{
  open_state, half_open, CircuitBreaker, new_circuit_breaker, timeout_elapsed, record_success,
  record_failure, reset, Error, circuit_open, execute,
}

-- A call of a method by some goroutine. `RecordSuccess` and `RecordFailure` are public, and may
-- come at any time.
pub data Call : Type 0 where
  success : Call
  failure : ℕ → Call
  run_fn : ℕ → ℕ → Option Error → Call
  reset_call : Call

unfoldable pub step : CircuitBreaker → Call → CircuitBreaker
unfolding record_success record_failure execute reset
step cb success = record_success cb
step cb (failure now) = record_failure cb now
step cb (run_fn now now' fn) = (execute cb now now' fn).0
step cb reset_call = reset cb

unfoldable pub run : CircuitBreaker → List Call → CircuitBreaker
run cb [] = cb
run cb (c ∷ cs) = run (step cb c) cs

pub record IsValid (cb : CircuitBreaker) : Type 0 where
  pub threshold_pos : pos 0 <ℤ cb.threshold
  pub timeout_pos : pos 0 <ℤ cb.reset_timeout
  pub not_half_open : cb.state ≢ half_open
  pub open_iff : (cb.state ≡ open_state) ↔ (cb.threshold ≤ℤ pos cb.fail_count)

pub new-IsValid :
    (name : String) (threshold timeout : ℤ) → IsValid (new_circuit_breaker name threshold timeout)
unfolding new_circuit_breaker
new-IsValid name threshold timeout = ground arith

pub step-IsValid : (cb : CircuitBreaker) (c : Call) → IsValid cb → IsValid (step cb c)
unfolding step
step-IsValid cb success v = ground arith
step-IsValid cb (failure now) v = ground arith
step-IsValid cb (run_fn now now' none) v = ground arith
step-IsValid cb (run_fn now now' (some e)) v = ground arith
step-IsValid cb reset_call v = ground arith

run-IsValid : (cb : CircuitBreaker) (cs : List Call) → IsValid cb → IsValid (run cb cs)
unfolding run
run-IsValid cb [] v = v
run-IsValid cb (c ∷ cs) v = run-IsValid (step cb c) cs (step-IsValid cb c v)

-- After any calls on a new breaker, whatever its threshold and timeout, the breaker is valid: its
-- threshold and timeout are positive, it is not half-open, and it is open exactly when the failures
-- counted have reached the threshold.
pub run-new_IsValid :
    (name : String) (threshold timeout : ℤ) (cs : List Call)
    → IsValid (run (new_circuit_breaker name threshold timeout) cs)
run-new_IsValid name threshold timeout cs = run-IsValid _ cs (new-IsValid name threshold timeout)

-- `Execute` turns a call away exactly when the breaker is open and its timeout has not elapsed; then
-- the breaker is unchanged and the error names it. Otherwise the guarded call's answer is returned.
pub execute_guard :
    (cb : CircuitBreaker) (now now' : ℕ) (fn : Option Error)
    → ((cb.state ≡ open_state)
        × (timeout_elapsed cb now ≡ false)
        × (execute cb now now' fn ≡ (cb, some (circuit_open cb.name))))
      ⊎ (((cb.state ≢ open_state) ⊎ (timeout_elapsed cb now ≡ true))
          × ((execute cb now now' fn).1 ≡ fn))
unfolding execute
execute_guard cb now now' fn = ground arith
