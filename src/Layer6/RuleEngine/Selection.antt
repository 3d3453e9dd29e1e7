-- ===== src/Layer6/RuleEngine/Selection.antt =====
-- Which rule `Evaluate` and `EvaluateSummary` (layer6/rule_engine.go) choose.
use aizo.Prelude.{
  ℕ, ◌≡◌, ◌⊎◌, inl, inr, refl, ap, String, true, false, ◌&&◌, none, some, List, [], ◌∷◌, ◌++◌, All,
  arith, Bool-cases, string_eq, replace_or_append,
}
use aizo.Prelude.Int.{◌≤ℤ◌, ◌<ℤ◌}
use aizo.Layer6.Go.{Go}
use aizo.Layer6.Rule.{Rule, SystemEvent, pending}
use aizo.Layer6.RuleEngine.{
  RuleEngine, rule_id_of, candidate, better, best_rule, build_proposal, evaluate, fired,
}

module _ (go : Go) (event : SystemEvent go) where
  -- The rule is a candidate, the candidates before it have a lower priority, and those behind it none
  -- that is higher.
  pub record Best (rules : List (Rule go)) (rule : Rule go) : Type 0 where
    pub before : List (Rule go)
    pub after : List (Rule go)
    pub splits : rules ≡ before ++ rule ∷ after
    pub chosen : candidate go event rule ≡ true
    pub earlier : All (λ q. candidate go event q ≡ true → q.priority <ℤ rule.priority) before
    pub later : All (λ q. candidate go event q ≡ true → q.priority ≤ℤ rule.priority) after

  Best-cons :
      (r : Rule go) (rs : List (Rule go)) (rule : Rule go)
      → (candidate go event r ≡ true → r.priority <ℤ rule.priority)
      → Best rs rule
      → Best (r ∷ rs) rule
  Best-cons r rs rule h b = record {
    before = r ∷ b.before;
    after = b.after;
    splits = ap (λ l. r ∷ l) b.splits;
    chosen = b.chosen;
    earlier = (h, b.earlier);
    later = b.later;
  }

  best_rule-some :
      (b : Rule go) (rules : List (Rule go))
      → (All (λ q. candidate go event q ≡ true → q.priority ≤ℤ b.priority) rules
          × (best_rule go event (some b) rules ≡ some b))
        ⊎ ((rule : Rule go) × Best rules rule
            × (b.priority <ℤ rule.priority)
            × (best_rule go event (some b) rules ≡ some rule))
  unfolding best_rule
  best_rule-some b [] = inl (tt, refl)
  best_rule-some b (r ∷ rs) = elim (Bool-cases (candidate go event r && better go r (some b))) [
    | inl t ↦ elim (best_rule-some r rs) [
      | inl (all, e) ↦ inr (
        r,
        record {
          before = [];
          after = rs;
          splits = refl;
          chosen = ground arith;
          earlier = tt;
          later = all;
        },
        ground arith,
        ground arith,
      )
      | inr (rule, best, lt, e) ↦
          inr (rule, Best-cons r rs rule (λ c. lt) best, ground arith, ground arith)
    ]
    | inr f ↦ elim (best_rule-some b rs) [
      | inl (all, e) ↦ inl ((λ c. ground arith, all), ground arith)
      | inr (rule, best, lt, e) ↦
          inr (rule, Best-cons r rs rule (λ c. ground arith) best, lt, ground arith)
    ]
  ]

  best_rule-none :
      (rules : List (Rule go))
      → (All (λ q. candidate go event q ≡ false) rules × (best_rule go event none rules ≡ none))
        ⊎ ((rule : Rule go) × Best rules rule × (best_rule go event none rules ≡ some rule))
  unfolding best_rule
  best_rule-none [] = inl (tt, refl)
  best_rule-none (r ∷ rs) = elim (Bool-cases (candidate go event r)) [
    | inl t ↦ elim (best_rule-some r rs) [
      | inl (all, e) ↦ inr (
        r,
        record { before = []; after = rs; splits = refl; chosen = t; earlier = tt; later = all },
        ground arith,
      )
      | inr (rule, best, lt, e) ↦ inr (rule, Best-cons r rs rule (λ c. lt) best, ground arith)
    ]
    | inr f ↦ elim (best_rule-none rs) [
      | inl (all, e) ↦ inl ((f, all), ground arith)
      | inr (rule, best, e) ↦
          inr (rule, Best-cons r rs rule (λ c. absurd (ground arith)) best, ground arith)
    ]
  ]

  -- An event yields no proposal exactly when no enabled rule matches it, and then nothing changes.
  -- Otherwise the proposal is that of the enabled matching rule of the highest priority, of the first
  -- of them in the list if several have it; it is pending, and the rule's firing
  -- time is set.
  pub evaluate-Best :
      (e : RuleEngine go) (now : ℕ) (uuid : String)
      → (All (λ q. candidate go event q ≡ false) e.rules
          × (evaluate go e now uuid event ≡ (e, none)))
        ⊎ ((rule : Rule go) × Best e.rules rule
            × (evaluate go e now uuid event ≡ (
              record { rules = replace_or_append (rule_id_of go) (fired go now rule) e.rules },
              some (build_proposal go rule event.entity_id (some event) now uuid),
            ))
            × ((build_proposal go rule event.entity_id (some event) now uuid).status ≡ pending))
  unfolding evaluate
  evaluate-Best e now uuid = elim (best_rule-none e.rules) [
    | inl (all, h) ↦ inl (all, ground arith)
    | inr (rule, best, h) ↦ inr (rule, best, ground arith, refl)
  ]
