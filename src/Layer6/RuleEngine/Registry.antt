-- ===== src/Layer6/RuleEngine/Registry.antt =====
-- The rules of the engine by id (layer6/rule_engine.go), and their counters.
use mathlib.Core.List.{Memᴰ}
use mathlib.Core.Option
use aizo.Prelude.{
  ℕ, ◌≡◌, ◌≢◌, ◌↔◌, refl, String, Bool, true, false, ◌&&◌, none, some, List, [], ◌∷◌, map,
  if◌then◌else◌, ◌==◌, string_eq, arith, select, UniqueIds, Mem-remove_first,
  replace_or_append-UniqueIds, remove_first-UniqueIds, find_first-replace_or_append, find_first,
}
use aizo.Layer6.Go.{Go}
use aizo.Layer6.Rule.{Rule, SystemSummary}
use aizo.Layer6.RuleEngine.{
  RuleEngine, rule_id_of, add_rule, remove_rule, get_rule, counted, count_first, update_stats,
  matches_summary, evaluate_rules, evaluate_summary, build_proposal,
}

module _ (go : Go) where
  abbrev pub IsValid : RuleEngine go → Type 0
  IsValid e = UniqueIds (rule_id_of go) e.rules

  -- Adding a rule to an engine in which ids are unique keeps them unique; its id then reads the rule,
  -- and every other id what it read before.
  pub get_rule-add_rule :
      (e : RuleEngine go) (rule : Rule go) (id : String)
      → IsValid e
      → IsValid (add_rule go e rule)
        × (get_rule go (add_rule go e rule) id
            ≡ (if rule.id == id then some rule else get_rule go e id))
  unfolding add_rule get_rule
  get_rule-add_rule e rule id v = (
    replace_or_append-UniqueIds (rule_id_of go) rule e.rules v,
    find_first-replace_or_append (rule_id_of go) id rule e.rules,
  )

  -- Removing an id from such an engine takes away exactly the rule with that id.
  pub Mem-remove_rule :
      (e : RuleEngine go) (rule : Rule go) (id : String)
      → IsValid e
      → IsValid (remove_rule go e id)
        × (Memᴰ rule (remove_rule go e id).rules ↔ (Memᴰ rule e.rules × (rule.id ≢ id)))
  unfolding remove_rule
  Mem-remove_rule e rule id v = (
    remove_first-UniqueIds (rule_id_of go) id e.rules v,
    Mem-remove_first (rule_id_of go) id rule e.rules v,
  )

  find_first-count_first :
      (id j : String) (ok : Bool) (rs : List (Rule go))
      → find_first (rule_id_of go) j (count_first go id ok rs) ≡ (
          if j == id
          then Option.map (counted go ok) (find_first (rule_id_of go) id rs)
          else find_first (rule_id_of go) j rs)
  unfolding find_first count_first
  find_first-count_first id j true [] = ground arith
  find_first-count_first id j false [] = ground arith
  find_first-count_first id j true (r ∷ rs) = ground (arith, find_first-count_first id j true rs)
  find_first-count_first id j false (r ∷ rs) = ground (arith, find_first-count_first id j false rs)

  -- An outcome adds one to the successes or to the failures of the rule with the id, if there is one,
  -- and every other rule reads as before.
  pub get_rule-update_stats :
      (e : RuleEngine go) (id j : String) (ok : Bool)
      → get_rule go (update_stats go e id ok) j
        ≡ (if j == id then Option.map (counted go ok) (get_rule go e id) else get_rule go e j)
  unfolding get_rule update_stats
  get_rule-update_stats e id j ok = find_first-count_first id j ok e.rules

  abbrev pub forget_firing : Rule go → Rule go
  forget_firing r = record r { last_fired = none }

  evaluate_rules-proposals :
      (s : SystemSummary go) (now : ℕ) (uuid : String → String) (rules : List (Rule go))
      → (map (λ p. p.rule_id) (evaluate_rules go s now uuid rules).1
          ≡ map (rule_id_of go) (select (λ r. r.enabled && matches_summary go r s) rules))
        × (map forget_firing (evaluate_rules go s now uuid rules).0 ≡ map forget_firing rules)
  unfolding evaluate_rules build_proposal
  evaluate_rules-proposals s now uuid [] = (refl, refl)
  evaluate_rules-proposals s now uuid (r ∷ rs) =
      let ih = evaluate_rules-proposals s now uuid rs in
      (ground (arith, ih.0), ground (arith, ih.1))

  -- A summary yields one proposal for each enabled rule that matches it, in the order of the rules,
  -- and changes nothing of any rule but the time of its firing.
  pub evaluate_summary-proposals :
      (e : RuleEngine go) (s : SystemSummary go) (now : ℕ) (uuid : String → String)
      → (map (λ p. p.rule_id) (evaluate_summary go e now uuid s).1
          ≡ map (rule_id_of go) (select (λ r. r.enabled && matches_summary go r s) e.rules))
        × (map forget_firing (evaluate_summary go e now uuid s).0.rules ≡ map forget_firing e.rules)
  unfolding evaluate_summary
  evaluate_summary-proposals e s now uuid = evaluate_rules-proposals s now uuid e.rules
