-- ===== src/Layer1/Adapter/Retry.antt =====
-- What `RetryWithBackoff` (layer1/adapter.go) promises.
use aizo.Prelude.{
  ℕ, zero, suc, ◌+◌, ◌-◌, ◌≤◌, ◌<◌, ◌≡◌, ◌≢◌, ◌⊎◌, inl, inr, refl, String, none, some, arith,
  Option-cases,
}
use aizo.Prelude.Int.{pos}
use aizo.Layer1.Adapter.{Answer, Wait, waited, done, World, round, retry_loop, retry_with_backoff}

Wait-cases : (w : Wait) → (w ≡ waited) ⊎ ((e : String) × (w ≡ done e))
Wait-cases waited = inl refl
Wait-cases (done e) = inr (e, refl)

module _ (w : World) where
  -- The first attempt that succeeds, with every wait up to it over and every attempt before failed.
  pub record FirstSuccess (from n : ℕ) : Type 0 where
    pub from_le : from ≤ n
    pub succeeds : w.answer n ≡ none
    pub before : (k : ℕ) → from ≤ k → k < n → w.answer k ≢ none
    pub waits : (k : ℕ) → from ≤ k → k ≤ n → 0 < k → w.wait k ≡ waited

  -- The wait before the attempt `k`, if it has one, is over.
  abbrev pub Waits : ℕ → Type 0
  Waits k = 0 < k → w.wait k ≡ waited

  round-success :
      (k calls : ℕ) (next : ℕ → Answer → ℕ × Answer)
      → Waits k
      → w.answer k ≡ none
      → round w k calls next ≡ (calls + 1, none)
  unfolding round
  round-success zero calls next g h = ground arith
  round-success (suc k) calls next g h =
      let e : w.wait (suc k) ≡ waited = g (omega arith) in ground arith

  round-failure :
      (k calls : ℕ) (next : ℕ → Answer → ℕ × Answer) (e : String)
      → Waits k
      → w.answer k ≡ some e
      → round w k calls next ≡ next (calls + 1) (some e)
  unfolding round
  round-failure zero calls next e g h = ground arith
  round-failure (suc k) calls next e g h =
      let d : w.wait (suc k) ≡ waited = g (omega arith) in ground arith

  FirstSuccess-suc : (from n : ℕ) → FirstSuccess from n → from < n → FirstSuccess (suc from) n
  FirstSuccess-suc from n f h = record {
    from_le = h;
    succeeds = f.succeeds;
    before = λ k a b. f.before k (omega arith) b;
    waits = λ k a b c. f.waits k (omega arith) b c;
  }

  retry_loop-success :
      (left from calls n : ℕ) (last : Answer)
      → FirstSuccess from n
      → n < from + left
      → retry_loop w left from calls last ≡ (calls + (n - from) + 1, none)
  unfolding retry_loop
  retry_loop-success zero from calls n last f h = absurd (omega (arith, f.from_le))
  retry_loop-success (suc left) from calls n last f h =
      let next : ℕ → Answer → ℕ × Answer = λ c e. retry_loop w left (suc from) c e in
      elim (Option-cases (w.answer from)) [
        | inl good ↦ ground (
          arith,
          f.before from,
          f.from_le,
          round-success from calls next (f.waits from (omega arith) f.from_le),
        )
        | inr (e, bad) ↦
            let lt : from < n = ground (arith, f.from_le, f.succeeds) in
            ground (
              arith,
              round-failure from calls next e (f.waits from (omega arith) f.from_le) bad,
              retry_loop-success left (suc from) (calls + 1) n (some e)
                  (FirstSuccess-suc from n f lt),
            )
      ]

  -- If the first attempt to succeed is among the first one and its retries, and the context is not
  -- done before it, the call returns nil after exactly that many attempts.
  pub retry_with_backoff-success :
      (retries n : ℕ)
      → FirstSuccess 0 n
      → n ≤ retries
      → retry_with_backoff (pos retries) w ≡ (n + 1, none)
  unfolding retry_with_backoff
  retry_with_backoff-success retries n f h =
      ground (arith, retry_loop-success (retries + 1) 0 0 n none f)

  -- A round either calls `fn` with success, goes on after a failed call, or ends with an error.
  data Round (k calls : ℕ) (next : ℕ → Answer → ℕ × Answer) (r : ℕ × Answer) : Type 0 where
    succeeded : w.answer k ≡ none → r ≡ (calls + 1, none) → Round k calls next r
    went_on :
        (e : String) → w.answer k ≡ some e → r ≡ next (calls + 1) (some e) → Round k calls next r
    stopped : (e : String) → r ≡ (calls, some e) → Round k calls next r

  round-Round :
      (k calls : ℕ) (next : ℕ → Answer → ℕ × Answer) → Round k calls next (round w k calls next)
  unfolding round
  round-Round zero calls next = elim (Option-cases (w.answer 0)) [
    | inl g ↦ succeeded g (ground arith)
    | inr (e, b) ↦ went_on e b (ground arith)
  ]
  round-Round (suc k) calls next = elim (Wait-cases (w.wait (suc k))) [
    | inl g ↦ elim (Option-cases (w.answer (suc k))) [
      | inl a ↦ succeeded a (ground arith)
      | inr (e, b) ↦ went_on e b (ground arith)
    ]
    | inr (e, d) ↦ stopped e (ground arith)
  ]

  -- If the loop returns nil then some attempt succeeded, unless no attempt was made.
  retry_loop-none :
      (left from calls : ℕ) (last : Answer)
      → (last ≢ none) ⊎ (0 < left)
      → (retry_loop w left from calls last).1 ≡ none
      → (n : ℕ) × (n < from + left) × (w.answer n ≡ none)
  unfolding retry_loop
  retry_loop-none zero from calls last l h = absurd (ground arith)
  retry_loop-none (suc left) from calls last l h =
      elim (round-Round from calls (λ c e. retry_loop w left (suc from) c e)) [
        | succeeded a r ↦ (from, omega arith, a)
        | went_on e a r ↦
            let (n, lt, found) =
              retry_loop-none left (suc from) (calls + 1) (some e) (inl (λ p. cc)) (ground arith) in
            (n, omega arith, found)
        | stopped e r ↦ absurd (ground arith)
      ]

  retry_loop-calls :
      (left from calls : ℕ) (last : Answer) → (retry_loop w left from calls last).0 ≤ calls + left
  unfolding retry_loop
  retry_loop-calls zero from calls last = omega arith
  retry_loop-calls (suc left) from calls last =
      elim (round-Round from calls (λ c e. retry_loop w left (suc from) c e)) [
        | succeeded a r ↦ ground arith
        | went_on e a r ↦ ground (arith, retry_loop-calls left (suc from) (calls + 1) (some e))
        | stopped e r ↦ ground arith
      ]

  -- `fn` is called once more than the retries at most; nil is returned only if some of these calls
  -- succeeded.
  pub retry_with_backoff_bounds :
      (retries : ℕ)
      → ((retry_with_backoff (pos retries) w).0 ≤ retries + 1)
        × (((retry_with_backoff (pos retries) w).1 ≢ none)
            ⊎ ((n : ℕ) × (n ≤ retries) × (w.answer n ≡ none)))
  unfolding retry_with_backoff
  retry_with_backoff_bounds retries = (
    omega (arith, retry_loop-calls (retries + 1) 0 0 none),
    elim (Option-cases (retry_loop w (retries + 1) 0 0 none).1) [
      | inl h ↦
          let (n, lt, found) = retry_loop-none (retries + 1) 0 0 none (inr (omega arith)) h in
          inr (n, omega arith, found)
      | inr (e, h) ↦ inl (λ h'. ground arith)
    ],
  )
