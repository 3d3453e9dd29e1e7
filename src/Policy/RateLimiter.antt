-- ===== src/Policy/RateLimiter.antt =====
-- policy/rate_limiter.go and the limits of policy/types.go. `Allow` holds the lock for its whole
-- body, so it is one step. `time.Now()` is the argument `now`, in nanoseconds; it is read once.
pub mod Window
use Prim.Native.String.{◌++◌ as append}
use aizo.Prelude.{
  ℕ, ◌+◌, ◌-◌, String, Bool, true, false, Option, none, some, [], if◌then◌else◌, ltb, ◌&&◌, Map,
  get, put, string_eq,
}
use aizo.Prelude.Int.{ℤ, pos, ltb_ℤ, leb_ℤ, sub_ℕ}

pub record RateLimitConfig : Type 0 where
  pub action : String
  pub max_per_min : ℤ
  pub max_per_hour : ℤ

pub record Bucket : Type 0 where
  pub tokens : ℕ
  pub last_reset : ℕ
  pub count : ℕ

pub record RateLimiter : Type 0 where
  pub limits : Map String RateLimitConfig
  pub buckets : Map String Bucket

abbrev pub new_rate_limiter : RateLimiter
new_rate_limiter = record { limits = []; buckets = [] }

abbrev pub minute : ℕ
minute = 60_000_000_000

unfoldable pub set_limit : RateLimiter → RateLimitConfig → RateLimiter
set_limit r config = record r { limits = put config.action config r.limits }

abbrev pub bucket_key : String → String → String
bucket_key actor action = append actor (append ":" action)

-- `time.Since(b.lastReset) > time.Minute`
abbrev pub minute_passed : Bucket → ℕ → Bool
minute_passed b now = ltb_ℤ (pos minute) (sub_ℕ now b.last_reset)

-- The bucket that a call works on: the stored one or a new one, reset if its minute has passed.
abbrev pub current : Option Bucket → ℕ → Bucket
current none now = record { tokens = 0; last_reset = now; count = 0 }
current (some b) now = if minute_passed b now then record b { count = 0; last_reset = now } else b

abbrev pub exhausted : RateLimitConfig → Bucket → Bool
exhausted limit b = ltb_ℤ (pos 0) limit.max_per_min && leb_ℤ limit.max_per_min (pos b.count)

unfoldable pub allow : RateLimiter → ℕ → String → String → RateLimiter × Bool
allow r now actor action = elim (get action r.limits) [
  | none ↦ (r, true)
  | some limit ↦
      let key = bucket_key actor action in
      let b = current (get key r.buckets) now in
      if exhausted limit b
      then (record r { buckets = put key b r.buckets }, false)
      else (record r { buckets = put key (record b { count = b.count + 1 }) r.buckets }, true)
]
