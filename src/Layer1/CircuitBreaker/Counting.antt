-- ===== src/Layer1/CircuitBreaker/Counting.antt =====
-- How a circuit breaker (layer1/circuit_breaker.go) counts: a success does not clear the failures.
use aizo.Prelude.{ℕ, ◌+◌, ◌≡◌, Option, none, some, List, [], ◌∷◌, arith}
use aizo.Prelude.Int.{pos, ◌<ℤ◌}
use aizo.Layer1.CircuitBreaker.{closed, open_state, CircuitBreaker, Error, record_outcome}

-- The answers of guarded calls with the times at which they end, in the order of recording.
abbrev pub Outcome : Type 0
Outcome = ℕ × Option Error

abbrev pub failures : List Outcome → ℕ
failures [] = 0
failures ((now, none) ∷ os) = failures os
failures ((now, some e) ∷ os) = failures os + 1

abbrev pub successes : List Outcome → ℕ
successes [] = 0
successes ((now, none) ∷ os) = successes os + 1
successes ((now, some e) ∷ os) = successes os

unfoldable pub record_all : CircuitBreaker → List Outcome → CircuitBreaker
record_all cb [] = cb
record_all cb ((now, answer) ∷ os) = record_all (record_outcome cb now answer) os

pub record IsCounting (cb cb' : CircuitBreaker) (os : List Outcome) : Type 0 where
  pub still_closed : cb'.state ≡ closed
  pub failures_counted : cb'.fail_count ≡ cb.fail_count + failures os
  pub successes_counted : cb'.success_count ≡ cb.success_count + successes os
  pub same_threshold : cb'.threshold ≡ cb.threshold

-- While fewer failures than the threshold are recorded, a closed breaker stays closed and counts
-- every one of them, whatever successes come between them.
pub record_all-IsCounting :
    (cb : CircuitBreaker) (os : List Outcome)
    → cb.state ≡ closed
    → pos (cb.fail_count + failures os) <ℤ cb.threshold
    → IsCounting cb (record_all cb os) os
unfolding record_all record_outcome
record_all-IsCounting cb [] c h = ground arith
record_all-IsCounting cb ((now, none) ∷ os) c h =
    ground (arith, record_all-IsCounting (record_outcome cb now none) os)
record_all-IsCounting cb ((now, some e) ∷ os) c h =
    ground (arith, record_all-IsCounting (record_outcome cb now (some e)) os)

-- The failure that brings the count to the threshold opens a closed breaker, whatever successes came
-- between the failures; the time of that failure is kept.
pub failure_at_threshold :
    (cb : CircuitBreaker) (os : List Outcome) (now : ℕ) (e : Error)
    → cb.state ≡ closed
    → cb.threshold ≡ pos (cb.fail_count + failures os + 1)
    → let cb' = record_outcome (record_all cb os) now (some e) in
      (cb'.state ≡ open_state) × (cb'.last_fail_time ≡ now)
unfolding record_outcome
failure_at_threshold cb os now e c h = ground (arith, record_all-IsCounting cb os c)
