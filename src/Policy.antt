-- ===== src/Policy.antt =====
-- policy: rules that allow or deny actions, and the rate limits checked before them.
pub mod RateLimiter
pub mod Engine
