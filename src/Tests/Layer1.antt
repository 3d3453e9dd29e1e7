-- ===== src/Tests/Layer1.antt =====
-- Runs of a circuit breaker, of the store of request ids, of a retry and of the adapter registry
-- (layer1).
use aizo.Prelude.{
  ℕ, zero, suc, ◌≤◌, ◌<◌, ◌≡◌, ◌≢◌, ◌⊎◌, refl, String, true, false, none, some, List, [], ◌∷◌, get,
  Distinct, string_eq, arith, String_discrete,
}
use aizo.Prelude.Int.{pos}
use aizo.Layer1.CircuitBreaker.{
  closed, open_state, CircuitBreaker, new_circuit_breaker, record_outcome, allow_request, execute,
  timeout_elapsed, circuit_open, second,
}
use aizo.Layer1.CircuitBreaker as Breaker
use aizo.Layer1.CircuitBreaker.Counting.{Outcome, record_all}
use aizo.Layer1.CircuitBreaker.Invariant.{IsValid, success, failure, run, run-new_IsValid}
use aizo.Layer1.Idempotency.{IdempotencyStore, check_and_mark}
use aizo.Layer1.Idempotency.Refinement.{mark, check, tick, mark_run, run-mark_run}
use aizo.Layer1.Idempotency.Refinement as Marks
use aizo.Layer1.Idempotency.Once.{check_and_mark_once}
use aizo.Layer1.Adapter.{Adapter, AdapterConfig, World, waited, retry_with_backoff}
use aizo.Layer1.Adapter.Retry.{FirstSuccess, retry_with_backoff-success}
use aizo.Layer1.Registry.{
  AdapterRegistry, AdapterMetadata, not_found, metadata_not_found, ok, err, new_adapter_registry,
  register, get_adapter, get_metadata,
}
use aizo.Layer1.Registry.Lookup.{Reached, fresh, registered, get_adapter-get_metadata}

-- A breaker that opens at two failures, for ten seconds.
abbrev breaker : CircuitBreaker
breaker = record {
  name = "http";
  state = closed;
  fail_count = 0;
  success_count = 0;
  threshold = pos 2;
  reset_timeout = pos 10;
  last_fail_time = 0;
}

abbrev outcomes : List Outcome
outcomes = (1, some (Breaker.failed "refused")) ∷ (2, none) ∷ []

abbrev opened : CircuitBreaker
opened = record {
  name = "http";
  state = open_state;
  fail_count = 2;
  success_count = 1;
  threshold = pos 2;
  reset_timeout = pos 10;
  last_fail_time = 3;
}

opened_reached :
    record_outcome (record_all breaker outcomes) 3 (some (Breaker.failed "refused")) ≡ opened
unfolding record_outcome record_all
opened_reached = refl

run-new_IsValid_example :
    IsValid
      (run (new_circuit_breaker "http" (pos 2) (pos 10)) (failure 1 ∷ success ∷ failure 3 ∷ []))
run-new_IsValid_example =
    run-new_IsValid "http" (pos 2) (pos 10) (failure 1 ∷ success ∷ failure 3 ∷ [])

opened-IsValid : IsValid opened
opened-IsValid = ground arith

abbrev requests : IdempotencyStore
requests = record { seen = ("a", 100) ∷ []; ttl = pos 50 }

requests-Distinct : Distinct requests.seen
unfolding get
requests-Distinct = (refl, tt)

run-mark_run_example :
    get "b" (Marks.run requests (check 120 "b" ∷ tick 160 ∷ mark 161 "a" ∷ [])).seen
    ≡ mark_run (pos 50) "b" (get "b" requests.seen) (check 120 "b" ∷ tick 160 ∷ mark 161 "a" ∷ [])
run-mark_run_example =
    run-mark_run requests (check 120 "b" ∷ tick 160 ∷ mark 161 "a" ∷ []) "b" requests-Distinct

b_is_new : (check_and_mark requests 120 "b").1 ≡ false
unfolding check_and_mark get String_discrete
b_is_new = refl

check_and_mark_once_example :
    (check_and_mark
      (Marks.run (check_and_mark requests 120 "b").0 (check 130 "a" ∷ tick 170 ∷ []))
      171
      "b").1
    ≡ true
check_and_mark_once_example =
    check_and_mark_once requests 50 120 171 "b" (check 130 "a" ∷ tick 170 ∷ []) requests-Distinct
      refl b_is_new (omega arith, (omega arith, tt))

-- The third attempt succeeds.
abbrev flaky : World
flaky = record {
  wait = λ n. waited;
  answer = λ n. elim n [ zero ↦ some "refused" | suc zero ↦ some "refused" | suc (suc n) ↦ none ];
}

flaky-FirstSuccess : FirstSuccess flaky 0 2
flaky-FirstSuccess = record {
  from_le = omega arith;
  succeeds = refl;
  before = early;
  waits = λ k a b c. refl;
}
  where
    early : (k : ℕ) → 0 ≤ k → k < 2 → flaky.answer k ≢ none
    early zero a b = λ e. cc
    early (suc zero) a b = λ e. cc
    early (suc (suc k)) a b = absurd (omega arith)

retry_with_backoff-success_example : retry_with_backoff (pos 3) flaky ≡ (3, none)
retry_with_backoff-success_example =
    retry_with_backoff-success flaky 3 2 flaky-FirstSuccess (omega arith)

-- Adapters that are nothing but a configuration.
abbrev plain : Adapter AdapterConfig
plain = record {
  get_config = λ c. c;
  get_type = λ c. c.adapter_type;
  get_capabilities = λ c. "read" ∷ [];
}

abbrev web : AdapterConfig
web = record { id = "web"; adapter_type = "http"; target = "localhost" }

abbrev ssh : String
ssh = "ssh"

abbrev with_web : AdapterRegistry AdapterConfig
with_web = (register plain new_adapter_registry 7 web).0

with_web-Reached : Reached plain with_web
with_web-Reached = registered 7 web fresh

get_adapter-get_metadata_example :
    ((get_adapter with_web "web" ≡ err (not_found "web"))
      × (get_metadata with_web "web" ≡ err (metadata_not_found "web")))
    ⊎ ((a : AdapterConfig) × (m : AdapterMetadata) × (get_adapter with_web "web" ≡ ok a)
        × (get_metadata with_web "web" ≡ ok m)
        × (a.id ≡ "web")
        × (m.id ≡ "web"))
get_adapter-get_metadata_example = get_adapter-get_metadata plain with_web "web" with_web-Reached
