-- ===== src/Layer1/Idempotency.antt =====
-- layer1/idempotency.go. Each method and each tick of the clean-up loop holds the lock for its whole
-- body, so each is one step. `time.Now()` is the argument `now`, in nanoseconds.
pub mod Refinement
pub mod Once
use aizo.Prelude.{
  ℕ, ◌+◌, ◌*◌, String, Bool, true, false, Option, none, some, List, [], ◌∷◌, if◌then◌else◌, ltb,
  Map, get, put, delete, length, is_some, string_eq,
}
use aizo.Prelude.Int.{ℤ, pos, pos_part, neg_part, leb_ℤ}

pub record IdempotencyStore : Type 0 where
  pub seen : Map String ℕ
  pub ttl : ℤ

abbrev pub hour : ℕ
hour = 3_600_000_000_000

unfoldable pub new_idempotency_store : ℤ → IdempotencyStore
new_idempotency_store ttl = record { seen = []; ttl = if leb_ℤ ttl (pos 0) then pos hour else ttl }

unfoldable pub is_seen : IdempotencyStore → String → Bool
is_seen s id = is_some (get id s.seen)

unfoldable pub mark_seen : IdempotencyStore → ℕ → String → IdempotencyStore
mark_seen s now id = record s { seen = put id now s.seen }

-- The answer is `true` for a duplicate.
unfoldable pub check_and_mark : IdempotencyStore → ℕ → String → IdempotencyStore × Bool
check_and_mark s now id =
    if is_some (get id s.seen) then (s, true) else (record s { seen = put id now s.seen }, false)

unfoldable pub size : IdempotencyStore → ℕ
size s = length s.seen

-- `ts.Before(time.Now().Add(-s.ttl))`, with the ttl added on the other side.
abbrev pub expired : ℤ → ℕ → ℕ → Bool
expired ttl now ts = ltb (ts + pos_part ttl) (now + neg_part ttl)

-- The `range` loop of a tick, over the entries that are left.
unfoldable pub sweep : ℤ → ℕ → List (String × ℕ) → Map String ℕ → Map String ℕ
sweep ttl now [] seen = seen
sweep ttl now ((id, ts) ∷ es) seen =
    sweep ttl now es (if expired ttl now ts then delete id seen else seen)

-- One tick of `cleanupLoop`.
unfoldable pub cleanup : IdempotencyStore → ℕ → IdempotencyStore
unfolding sweep
cleanup s now = record s { seen = sweep s.ttl now s.seen s.seen }
