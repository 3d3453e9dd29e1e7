-- ===== src/Policy/Engine/Decision.antt =====
-- What `Evaluate` (policy/engine.go) decides, on every branch.
use mathlib.Core.List.{Memᴰ}
use aizo.Prelude.{
  ℕ, zero, suc, ◌+◌, ◌≡◌, ◌⊎◌, inl, inr, refl, ◌∙◌, true, false, none, some, List, [], ◌∷◌,
  string_eq, arith, All, All-Mem, All-of-Mem, Bool-cases,
}
use aizo.Prelude.Int.{◌≤ℤ◌, ◌<ℤ◌}
use aizo.Policy.RateLimiter.{allow}
use aizo.Policy.Engine.{
  Rule, Policy, EvalRequest, rate_limited, Engine, Text, applies, no_match, rule_fires, rule_result,
  eval_rules, eval_policies, evaluate,
}

-- The policies stand by falling priority.
abbrev pub Descending : List Policy → Type 0
Descending [] = Unit
Descending (p ∷ ps) = All (λ q. q.priority ≤ℤ p.priority) ps × Descending ps

module _ (text : Text) (req : EvalRequest) where
  -- The rule at an index fires, and none before it does.
  abbrev pub FirstFires : ℕ → Rule → List Rule → Type 0
  FirstFires i rule [] = ⊥
  FirstFires zero rule (r ∷ rs) = (r ≡ rule) × (rule_fires text r req ≡ true)
  FirstFires (suc i) rule (r ∷ rs) = (rule_fires text r req ≡ false) × FirstFires i rule rs

  -- The policy does not apply to the request, or none of its rules fires.
  abbrev pub Silent : Policy → Type 0
  Silent p = (applies p req ≡ false) ⊎ All (λ r. rule_fires text r req ≡ false) p.rules

  eval_rules-cases :
      (p : Policy) (idx : ℕ) (rules : List Rule)
      → (All (λ r. rule_fires text r req ≡ false) rules × (eval_rules text p req idx rules ≡ none))
        ⊎ ((i : ℕ) × (rule : Rule) × FirstFires i rule rules
            × (eval_rules text p req idx rules ≡ some (rule_result p (idx + i) rule)))
  unfolding eval_rules
  eval_rules-cases p idx [] = inl (tt, refl)
  eval_rules-cases p idx (r ∷ rs) = elim (Bool-cases (rule_fires text r req)) [
    | inl t ↦ inr (0, r, (refl, t), ground arith)
    | inr f ↦ elim (eval_rules-cases p (suc idx) rs) [
      | inl (all, e) ↦ inl ((f, all), ground arith)
      | inr (i, rule, at, e) ↦ inr (suc i, rule, (f, at), ground arith)
    ]
  ]

  -- The policy and the rule that a decision rests on.
  pub record Decides (ps : List Policy) (p : Policy) (i : ℕ) (rule : Rule) : Type 0 where
    pub member : Memᴰ p ps
    pub applicable : applies p req ≡ true
    pub first : FirstFires i rule p.rules
    pub higher : All (λ q. p.priority <ℤ q.priority → Silent q) ps

  -- A policy that no rule of decides leaves the decision to those behind it.
  eval-Silent :
      (p : Policy) (ps : List Policy)
      → Silent p
      → eval_policies text req (p ∷ ps) ≡ eval_policies text req ps
  unfolding eval_policies
  eval-Silent p ps (inl f) = ground arith
  eval-Silent p ps (inr all) = elim (eval_rules-cases p 0 p.rules) [
    | inl (_, e) ↦ ground arith
    | inr (i, rule, at, e) ↦ absurd (never i p.rules rule at all)
  ]
    where
      never :
          (i : ℕ) (rs : List Rule) (rule : Rule)
          → FirstFires i rule rs
          → All (λ r. rule_fires text r req ≡ false) rs
          → ⊥
      never i [] rule at all = at
      never zero (r ∷ rs) rule at all = ground arith
      never (suc i) (r ∷ rs) rule at all = never i rs rule at.1 all.1

  abbrev Cases : List Policy → Type 0
  Cases ps =
      (All Silent ps × (eval_policies text req ps ≡ no_match))
      ⊎ ((p : Policy) × (i : ℕ) × (rule : Rule) × Decides ps p i rule
          × (eval_policies text req ps ≡ rule_result p i rule))

  later : (p : Policy) (ps : List Policy) → Silent p → Cases ps → Cases (p ∷ ps)
  later p ps s (inl (all, e)) = inl ((s, all), eval-Silent p ps s ∙ e)
  later p ps s (inr (q, i, rule, w, e)) = inr (
    q,
    i,
    rule,
    record {
      member = Memᴰ.tail w.member;
      applicable = w.applicable;
      first = w.first;
      higher = (λ _. s, w.higher);
    },
    eval-Silent p ps s ∙ e,
  )

  eval_policies-Cases : (ps : List Policy) → Descending ps → Cases ps
  unfolding eval_policies
  eval_policies-Cases [] d = inl (tt, refl)
  eval_policies-Cases (p ∷ ps) d =
      let below = λ (s : Silent p). later p ps s (eval_policies-Cases ps d.1) in
      elim (Bool-cases (applies p req)) [
        | inr f ↦ below (inl f)
        | inl t ↦ elim (eval_rules-cases p 0 p.rules) [
          | inl (all, e) ↦ below (inr all)
          | inr (i, rule, at, e) ↦ inr (
            p,
            i,
            rule,
            record {
              member = Memᴰ.head refl;
              applicable = t;
              first = at;
              higher = (
                λ lt. absurd (omega arith),
                All-of-Mem (λ q. p.priority <ℤ q.priority → Silent q) ps
                    (λ q m lt.
                      absurd (omega (arith, All-Mem (λ q. q.priority ≤ℤ p.priority) q ps d.0 m))),
              );
            },
            ground arith,
          )
        ]
      ]

  -- On an engine whose policies stand by falling priority, a request is either refused by the rate
  -- limit; or allowed by it and then denied because no policy that applies has a rule that fires; or
  -- answered by the effect of the first rule that fires in a policy that applies, and then no policy
  -- of a higher priority has a rule that fires. The policies do not change.
  pub evaluate_cases :
      (e : Engine) (now : ℕ)
      → Descending e.policies
      → let (e', result) = evaluate text e now req in
        let ok = (allow e.limiter now req.actor req.action).1 in
        (e'.policies ≡ e.policies)
        × (((ok ≡ false) × (result ≡ record no_match { reason = rate_limited }))
            ⊎ ((ok ≡ true) × All Silent e.policies × (result ≡ no_match))
            ⊎ ((p : Policy) × (i : ℕ) × (rule : Rule) × (ok ≡ true)
                × Decides e.policies p i rule
                × (result ≡ rule_result p i rule)))
  unfolding evaluate
  evaluate_cases e now d = elim (Bool-cases (allow e.limiter now req.actor req.action).1) [
    | inr f ↦ (ground arith, inl (f, ground arith))
    | inl t ↦ (
      ground arith,
      elim (eval_policies-Cases e.policies d) [
        | inl (all, same) ↦ inr (inl (t, all, ground arith))
        | inr (p, i, rule, w, same) ↦ inr (inr (p, i, rule, t, w, ground arith))
      ],
    )
  ]
