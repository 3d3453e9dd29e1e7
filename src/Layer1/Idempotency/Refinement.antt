-- ===== src/Layer1/Idempotency/Refinement.antt =====
-- The store of request ids (layer1/idempotency.go) against one mark per id.
use aizo.Prelude.{
  ℕ, ◌≡◌, refl, String, Option, none, some, List, [], ◌∷◌, if◌then◌else◌, Map, get, delete,
  Distinct, put-Distinct, delete-Distinct, get-put, get-delete, arith, ◌==◌, string_eq,
}
use aizo.Prelude.Int.{ℤ}
use aizo.Layer1.Idempotency.{IdempotencyStore, mark_seen, check_and_mark, expired, sweep, cleanup}

pub data Call : Type 0 where
  mark : ℕ → String → Call
  check : ℕ → String → Call
  tick : ℕ → Call

unfoldable pub step : IdempotencyStore → Call → IdempotencyStore
unfolding mark_seen check_and_mark cleanup
step s (mark now id) = mark_seen s now id
step s (check now id) = (check_and_mark s now id).0
step s (tick now) = cleanup s now

unfoldable pub run : IdempotencyStore → List Call → IdempotencyStore
run s [] = s
run s (c ∷ cs) = run (step s c) cs

-- The specification looks at one id alone: when it was marked, if it is.
unfoldable pub mark_step : ℤ → String → Option ℕ → Call → Option ℕ
mark_step ttl id m (mark now j) = if id == j then some now else m
mark_step ttl id none (check now j) = if id == j then some now else none
mark_step ttl id (some ts) (check now j) = some ts
mark_step ttl id none (tick now) = none
mark_step ttl id (some ts) (tick now) = if expired ttl now ts then none else some ts

unfoldable pub mark_run : ℤ → String → Option ℕ → List Call → Option ℕ
mark_run ttl id m [] = m
mark_run ttl id m (c ∷ cs) = mark_run ttl id (mark_step ttl id m c) cs

sweep-Distinct :
    (ttl : ℤ) (now : ℕ) (es : List (String × ℕ)) (m : Map String ℕ)
    → Distinct m
    → Distinct (sweep ttl now es m)
unfolding sweep
sweep-Distinct ttl now [] m d = d
sweep-Distinct ttl now ((id, ts) ∷ es) m d = ground (
  arith,
  sweep-Distinct ttl now es,
  delete-Distinct id m,
  sweep-Distinct ttl now es m,
  sweep-Distinct ttl now es (delete id m),
)

-- Each entry is looked at once, so a key is deleted exactly when its own entry has expired.
get-sweep :
    (ttl : ℤ) (now : ℕ) (id : String) (es : List (String × ℕ)) (m : Map String ℕ)
    → Distinct es
    → get id (sweep ttl now es m) ≡ elim (get id es) [
      | none ↦ get id m
      | some ts ↦ if expired ttl now ts then none else get id m
    ]
unfolding sweep get
get-sweep ttl now id [] m d = refl
get-sweep ttl now id ((j, ts) ∷ es) m d =
    ground
      (arith, get-sweep ttl now id es m, get-sweep ttl now id es (delete j m), get-delete j id m)

step-Distinct : (s : IdempotencyStore) (c : Call) → Distinct s.seen → Distinct (step s c).seen
unfolding step
step-Distinct s (mark now id) d = put-Distinct id now s.seen d
step-Distinct s (check now id) d = ground (arith, put-Distinct id now s.seen)
step-Distinct s (tick now) d = sweep-Distinct s.ttl now s.seen s.seen d

step-mark_step :
    (s : IdempotencyStore) (c : Call) (id : String)
    → Distinct s.seen
    → (get id (step s c).seen ≡ mark_step s.ttl id (get id s.seen) c) × ((step s c).ttl ≡ s.ttl)
unfolding step mark_step
step-mark_step s (mark now j) id d = ground (arith, get-put j id now s.seen)
step-mark_step s (check now j) id d = ground (arith, get-put j id now s.seen)
step-mark_step s (tick now) id d = ground (arith, get-sweep s.ttl now id s.seen s.seen)

-- After any calls and ticks the store holds for each id what the specification of that id alone
-- gives: calls for other ids never matter to it.
pub run-mark_run :
    (s : IdempotencyStore) (cs : List Call) (id : String)
    → Distinct s.seen
    → get id (run s cs).seen ≡ mark_run s.ttl id (get id s.seen) cs
unfolding run mark_run
run-mark_run s [] id d = refl
run-mark_run s (c ∷ cs) id d =
    ground (arith, step-mark_step s c id d, run-mark_run (step s c) cs id, step-Distinct s c d)
