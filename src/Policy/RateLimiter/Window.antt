-- ===== src/Policy/RateLimiter/Window.antt =====
-- How many calls the limiter (policy/rate_limiter.go) lets through in a window.
use mathlib.Core.Path.{ap₂}
use aizo.Prelude.{
  ℕ, ◌+◌, ◌≤◌, ◌<◌, ◌≡◌, refl, ap, String, true, false, Option, none, some, List, [], ◌∷◌,
  if◌then◌else◌, ◌&&◌, get, string_eq, get-put, arith, ◌==◌, Option-cases, inl, inr, ◌⊎◌, ◌↔◌,
}
use aizo.Prelude.Int.{pos, ◌<ℤ◌, ◌≤ℤ◌}
use aizo.Policy.RateLimiter.{
  RateLimitConfig, Bucket, RateLimiter, minute, set_limit, bucket_key, current, allow,
}

pub record Request : Type 0 where
  pub at : ℕ
  pub actor : String
  pub action : String

-- Serving requests in order: how many of an actor's calls of an action were allowed.
unfoldable pub allowed : String → String → RateLimiter → List Request → ℕ
allowed actor action r [] = 0
allowed actor action r (q ∷ qs) =
    let (r', ok) = allow r q.at q.actor q.action in
    let rest = allowed actor action r' qs in
    if (q.actor == actor && q.action == action) && ok then rest + 1 else rest

abbrev pub InWindow : ℕ → List Request → Type 0
InWindow t [] = Unit
InWindow t (q ∷ qs) = (t ≤ q.at) × (q.at ≤ t + minute) × InWindow t qs

-- The bucket, if there is one, was last reset in the window that starts at `t`.
abbrev pub Opened : ℕ → Option Bucket → Type 0
Opened t none = Unit
Opened t (some b) = t ≤ b.last_reset

abbrev spent : Option Bucket → ℕ
spent none = 0
spent (some b) = b.count

module _ (t m : ℕ) (actor action : String) where
  abbrev pub key : String
  key = bucket_key actor action

  -- One request in the window: the bucket stays open, the limits stay, and the count grows by one
  -- for an allowed call of the pair, which must have been below the limit.
  pub record Served (r : RateLimiter) (q : Request) : Type 0 where
    pub opened : Opened t (get key (allow r q.at q.actor q.action).0.buckets)
    pub limits : (allow r q.at q.actor q.action).0.limits ≡ r.limits
    pub grows :
        spent (get key r.buckets) ≤ spent (get key (allow r q.at q.actor q.action).0.buckets)
    pub counted :
        (q.actor == actor && q.action == action) && (allow r q.at q.actor q.action).1 ≡ true
        → (spent (get key r.buckets) < m)
          × (spent (get key (allow r q.at q.actor q.action).0.buckets)
              ≡ spent (get key r.buckets) + 1)

  current-in_window :
      (o : Option Bucket) (now : ℕ)
      → t ≤ now
      → now ≤ t + minute
      → Opened t o
      → (t ≤ (current o now).last_reset) × ((current o now).count ≡ spent o)
  current-in_window none now a b o = (a, refl)
  current-in_window (some c) now a b o = ground arith

  serve :
      (r : RateLimiter) (q : Request) (c : RateLimitConfig)
      → get action r.limits ≡ some c
      → c.max_per_min ≡ pos m
      → 0 < m
      → t ≤ q.at
      → q.at ≤ t + minute
      → Opened t (get key r.buckets)
      → Served r q
  unfolding allow
  serve r q c e f p a b o = elim (Option-cases (get q.action r.limits)) [
    | inl unlimited ↦
        let same : q.action ≡ action → get q.action r.limits ≡ get action r.limits =
          λ x. ap (λ j. get j r.limits) x in
        record {
          opened = ground arith;
          limits = ground arith;
          grows = ground arith;
          counted = λ h. absurd (ground (arith, same));
        }
    | inr (d, g) ↦
        let k = bucket_key q.actor q.action in
        let one : q.actor ≡ actor → q.action ≡ action → k ≡ key = λ x y. ap₂ bucket_key x y in
        let limit : q.action ≡ action → get q.action r.limits ≡ get action r.limits =
          λ x. ap (λ j. get j r.limits) x in
        let same : key ≡ k → get key r.buckets ≡ get k r.buckets =
          λ x. ap (λ j. get j r.buckets) x in
        let kept = current-in_window (get key r.buckets) q.at a b o in
        let bucket = current (get k r.buckets) q.at in
        let no_more = get-put k key bucket r.buckets in
        let one_more = get-put k key (record bucket { count = bucket.count + 1 }) r.buckets in
        let here : key ≡ k → current (get key r.buckets) q.at ≡ bucket =
          λ x. ap (λ j. current j q.at) (same x) in
        record {
          opened = ground (arith, no_more, one_more, kept, here);
          limits = ground arith;
          grows = ground (arith, no_more, one_more, kept, here);
          counted = λ h. ground (arith, no_more, one_more, kept, here, one, limit);
        }
  ]

  allowed-spent :
      (r : RateLimiter) (qs : List Request) (c : RateLimitConfig)
      → get action r.limits ≡ some c
      → c.max_per_min ≡ pos m
      → 0 < m
      → InWindow t qs
      → Opened t (get key r.buckets)
      → (allowed actor action r qs + spent (get key r.buckets) ≤ m)
        ⊎ (allowed actor action r qs ≡ 0)
  unfolding allowed
  allowed-spent r [] c e f p w o = inr refl
  allowed-spent r (q ∷ qs) c e f p w o =
      let s = serve r q c e f p w.0 w.1 o in
      let rest =
        allowed-spent (allow r q.at q.actor q.action).0 qs c (rw s.limits e) f p w.2 s.opened in
      ground (arith, rest, s.grows, s.counted)

  -- With a limit of `m` calls a minute for the action, and no bucket yet for the actor and the action,
  -- at most `m` of the actor's calls of it are allowed among any requests of a window of a minute,
  -- whatever other requests come between them.
  pub allowed-le :
      (r : RateLimiter) (qs : List Request) (c : RateLimitConfig)
      → get action r.limits ≡ some c
      → c.max_per_min ≡ pos m
      → 0 < m
      → InWindow t qs
      → get key r.buckets ≡ none
      → allowed actor action r qs ≤ m
  allowed-le r qs c e f p w n = ground (arith, allowed-spent r qs c e f p w)

-- The hourly limit of a configuration is never looked at: two limits for an action that differ only
-- in it give every call the same answer, and leave the same buckets.
pub allow-max_per_hour :
    (r : RateLimiter) (c : RateLimitConfig) (hour now : ℕ) (actor action : String)
    → let d = record c { max_per_hour = pos hour } in
      ((allow (set_limit r c) now actor action).1 ≡ (allow (set_limit r d) now actor action).1)
      × ((allow (set_limit r c) now actor action).0.buckets
          ≡ (allow (set_limit r d) now actor action).0.buckets)
unfolding allow set_limit
allow-max_per_hour r c hour now actor action =
    let d = record c { max_per_hour = pos hour } in
    let one = get-put c.action action c r.limits in
    let two = get-put c.action action d r.limits in
    (ground (arith, one, two), ground (arith, one, two))

-- A call is refused exactly when its action has a limit above 0 and the count of the bucket of its
-- actor and action, taken as 0 if there is none or more than a minute has passed since its reset, has
-- reached the limit.
pub allow-eq-false_iff :
    (r : RateLimiter) (now : ℕ) (actor action : String)
    → ((allow r now actor action).1 ≡ false) ↔ (
        (c : RateLimitConfig) × (get action r.limits ≡ some c)
        × (pos 0 <ℤ c.max_per_min)
        × (c.max_per_min ≤ℤ pos (current (get (bucket_key actor action) r.buckets) now).count))
unfolding allow
allow-eq-false_iff r now actor action = elim (Option-cases (get action r.limits)) [
  | inl e ↦ (λ h. absurd (ground arith), λ (c, f, _, _). absurd (ground arith))
  | inr (c, e) ↦ (λ h. (c, e, ground arith, ground arith), λ (d, f, p, q). ground arith)
]
