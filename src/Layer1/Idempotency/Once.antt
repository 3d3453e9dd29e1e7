-- ===== src/Layer1/Idempotency/Once.antt =====
-- A request id is accepted once within the time to live (layer1/idempotency.go).
use aizo.Prelude.{
  ℕ, ◌+◌, ◌≤◌, ◌≡◌, refl, String, true, false, some, List, [], ◌∷◌, if◌then◌else◌, put, Distinct,
  put-Distinct, get-put, arith, ◌==◌, string_eq,
}
use aizo.Prelude.Int.{pos}
use aizo.Layer1.Idempotency.{IdempotencyStore, check_and_mark}
use aizo.Layer1.Idempotency.Refinement.{
  Call, mark, check, tick, run, mark_step, mark_run, run-mark_run,
}

-- The clock does not run back behind `now`, and no tick comes later than `w` after it.
abbrev pub IsWithin : ℕ → ℕ → Call → Type 0
IsWithin now w (mark t id) = now ≤ t
IsWithin now w (check t id) = now ≤ t
IsWithin now w (tick t) = t ≤ now + w

abbrev pub AllWithin : ℕ → ℕ → List Call → Type 0
AllWithin now w [] = Unit
AllWithin now w (c ∷ cs) = IsWithin now w c × AllWithin now w cs

mark_step-kept :
    (now w ts : ℕ) (id : String) (c : Call)
    → now ≤ ts
    → IsWithin now w c
    → (ts' : ℕ) × (mark_step (pos w) id (some ts) c ≡ some ts') × (now ≤ ts')
unfolding mark_step
mark_step-kept now w ts id (mark t j) h k = (if id == j then t else ts, ground arith, ground arith)
mark_step-kept now w ts id (check t j) h k = (ts, refl, h)
mark_step-kept now w ts id (tick t) h k = (ts, ground arith, h)

mark_run-kept :
    (now w ts : ℕ) (id : String) (cs : List Call)
    → now ≤ ts
    → AllWithin now w cs
    → (ts' : ℕ) × (mark_run (pos w) id (some ts) cs ≡ some ts')
unfolding mark_run
mark_run-kept now w ts id [] h k = (ts, refl)
mark_run-kept now w ts id (c ∷ cs) h k =
    let (ts', e, h') = mark_step-kept now w ts id c h k.0 in
    let (ts'', r) = mark_run-kept now w ts' id cs h' k.1 in (ts'', ground arith)

-- Once a check of an id answers that the request is new, every later check of that id answers that
-- it is a duplicate, whatever calls come between, as long as no clean-up tick comes later than the
-- time to live after the first check.
pub check_and_mark_once :
    (s : IdempotencyStore) (w now now' : ℕ) (id : String) (cs : List Call)
    → Distinct s.seen
    → s.ttl ≡ pos w
    → (check_and_mark s now id).1 ≡ false
    → AllWithin now w cs
    → (check_and_mark (run (check_and_mark s now id).0 cs) now' id).1 ≡ true
unfolding check_and_mark
check_and_mark_once s w now now' id cs d t h k =
    let s' = record s { seen = put id now s.seen } in
    let (ts, e) = mark_run-kept now w now id cs (omega arith) k in
    ground
      (arith, run-mark_run s' cs id (put-Distinct id now s.seen d), get-put id id now s.seen, e)
