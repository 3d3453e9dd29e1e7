-- ===== src/Layer1/CircuitBreaker/Recovery.antt =====
-- How an open circuit breaker (layer1/circuit_breaker.go) turns calls away, and how it recovers.
use aizo.Prelude.{ℕ, ◌+◌, ◌≤◌, ◌<◌, ◌≡◌, Option, none, some, true, arith}
use aizo.Prelude.Int.{pos}
use aizo.Layer1.CircuitBreaker.{
  closed, open_state, CircuitBreaker, allow_request, Error, circuit_open, execute,
}
use aizo.Layer1.CircuitBreaker.Invariant.{IsValid}

module _ (cb : CircuitBreaker) (w : ℕ) (timeout : cb.reset_timeout ≡ pos w)
    (opened : cb.state ≡ open_state) where
  -- An open breaker turns calls away up to the end of its timeout, and no call that it turns away
  -- changes it, so it turns them all away.
  pub execute-open_early :
      (now now' : ℕ) (fn : Option Error)
      → now ≤ cb.last_fail_time + w
      → execute cb now now' fn ≡ (cb, some (circuit_open cb.name))
  unfolding execute
  execute-open_early now now' fn h = ground arith

  -- After the timeout an open breaker lets every call through, until an outcome is recorded: not
  -- one test request, but all that arrive.
  pub allow_request-open_late :
      (now : ℕ) → cb.last_fail_time + w < now → allow_request cb now ≡ true
  unfolding allow_request
  allow_request-open_late now h = ground arith

  -- A call after the timeout that succeeds closes a valid open breaker and clears its failures; one
  -- that fails leaves it open, and its timeout starts anew at the end of the call.
  pub execute-open_late :
      (now now' : ℕ) (e : Error)
      → IsValid cb
      → cb.last_fail_time + w < now
      → ((execute cb now now' none).0.state ≡ closed)
        × ((execute cb now now' none).0.fail_count ≡ 0)
        × ((execute cb now now' (some e)).0.state ≡ open_state)
        × ((execute cb now now' (some e)).0.last_fail_time ≡ now')
  unfolding execute
  execute-open_late now now' e v h = (ground arith, ground arith, ground arith, ground arith)
