-- ===== src/Layer6/RuleEngine.antt =====
-- layer6/rule_engine.go. The rules are pointers in the source; the engine is the only writer of the
-- fields modelled here, so they are values. `now` and `uuid` stand for `time.Now()` and a new id.
pub mod Selection
pub mod Registry
use Prim.Native.String.{◌++◌ as append}
use aizo.Prelude.{
  ℕ, zero, suc, ◌+◌, ◌<◌, String, Bool, true, false, not, ◌&&◌, ◌||◌, Option, none, some, List, [],
  ◌∷◌, if◌then◌else◌, ltb, Map, get, put, ◌==◌, string_eq, nat_eq, replace_or_append, remove_first,
  find_first, is_some,
}
use aizo.Prelude.Int.{ℤ, ltb_ℤ}
use aizo.Layer6.Go.{Go}
use aizo.Layer6.Rule.{
  Condition, RuleAction, Rule, success_rate, SystemEvent, SystemSummary, ActionProposal, pending,
}

module _ (go : Go) where
  open go use {
    Float, Value, of_int, literal, lt, le, eq, contains, to_lower, text_value, matched_text,
    event_text,
  }

  pub record RuleEngine : Type 0 where
    pub rules : List (Rule go)

  abbrev pub rule_id_of : Rule go → String
  rule_id_of r = r.id

  unfoldable pub add_rule : RuleEngine → Rule go → RuleEngine
  add_rule e rule = record { rules = replace_or_append rule_id_of rule e.rules }

  unfoldable pub remove_rule : RuleEngine → String → RuleEngine
  remove_rule e id = record { rules = remove_first rule_id_of id e.rules }

  unfoldable pub get_rule : RuleEngine → String → Option (Rule go)
  get_rule e id = find_first rule_id_of id e.rules

  unfoldable pub eval_operator : Float → String → Float → Bool
  eval_operator val op threshold =
      if op == ">"
      then lt threshold val
      else if op == ">="
      then le threshold val
      else if op == "<"
      then lt val threshold
      else if op == "<="
      then le val threshold
      else if op == "=="
      then eq val threshold
      else if op == "!="
      then not (eq val threshold)
      else false

  abbrev pub contains_fold : String → String → Bool
  contains_fold s part = contains (to_lower s) (to_lower part)

  -- The body of the loop of `matchesEvent`: no `return false`.
  unfoldable pub event_meets : SystemEvent go → Condition go → Bool
  unfolding eval_operator
  event_meets event cond =
      (cond.event_type == "" || event.event_type == cond.event_type)
      && ((cond.contains == ""
            || (contains_fold event.description cond.contains
                || contains_fold event.event_type cond.contains))
          && (cond.metric == "" || elim (get cond.metric event.metrics) [
            | none ↦ false
            | some val ↦ eval_operator val cond.operator cond.value
          ]))

  abbrev pub all_meet : (Condition go → Bool) → List (Condition go) → Bool
  all_meet p [] = true
  all_meet p (c ∷ cs) = p c && all_meet p cs

  abbrev pub has_conditions : Rule go → Bool
  has_conditions rule = elim rule.conditions [ [] ↦ false | _ ∷ _ ↦ true ]

  unfoldable pub matches_event : Rule go → SystemEvent go → Bool
  unfolding event_meets
  matches_event rule event = all_meet (event_meets event) rule.conditions && has_conditions rule

  unfoldable pub summary_value : SystemSummary go → String → Option Float
  summary_value s metric =
      if metric == "memory_usage"
      then some s.memory_usage
      else if metric == "cpu_usage"
      then some s.cpu_usage
      else if metric == "disk_usage"
      then some s.disk_usage
      else if metric == "failed_containers"
      then some (of_int s.failed_containers)
      else if metric == "unhealthy_entities"
      then some (of_int s.unhealthy_entities)
      else if metric == "average_load"
      then some s.average_load
      else get metric s.metrics

  unfoldable pub summary_meets : SystemSummary go → Condition go → Bool
  unfolding eval_operator summary_value
  summary_meets s cond =
      cond.event_type == ""
      && (cond.metric == "" || elim (summary_value s cond.metric) [
        | none ↦ false
        | some val ↦ eval_operator val cond.operator cond.value
      ])

  unfoldable pub matches_summary : Rule go → SystemSummary go → Bool
  unfolding summary_meets
  matches_summary rule s = all_meet (summary_meets s) rule.conditions && has_conditions rule

  -- The loop of `Evaluate` over the rules, with the best rule so far.
  abbrev pub candidate : SystemEvent go → Rule go → Bool
  candidate event rule = rule.enabled && matches_event rule event

  abbrev pub better : Rule go → Option (Rule go) → Bool
  better rule none = true
  better rule (some best) = ltb_ℤ best.priority rule.priority

  unfoldable pub best_rule : SystemEvent go → Option (Rule go) → List (Rule go) → Option (Rule go)
  unfolding matches_event
  best_rule event best [] = best
  best_rule event best (rule ∷ rules) =
      best_rule event (if candidate event rule && better rule best then some rule else best) rules

  abbrev pub runs : Rule go → ℕ
  runs rule = rule.success_count + rule.failure_count

  unfoldable pub requires_approval : Rule go → Bool
  unfolding success_rate
  requires_approval rule =
      if rule.action.auto_approve
        && (lt (success_rate go rule) (literal "0.7") && ltb 5 (runs rule))
      then true
      else not rule.action.auto_approve

  unfoldable pub confidence_of : Rule go → Float
  unfolding success_rate
  confidence_of rule = if runs rule == 0 then literal "0.75" else success_rate go rule

  reasoning_of : Rule go → Option (SystemEvent go) → String
  unfolding confidence_of
  reasoning_of rule event =
      let text =
        if rule.action.reasoning == ""
        then matched_text rule.name (confidence_of rule) rule.success_count (runs rule)
        else rule.action.reasoning in
      elim event [ none ↦ text | some ev ↦ event_text text ev.event_type ev.entity_id ]

  parameters_of : Rule go → Option (SystemEvent go) → Map String Value
  parameters_of rule none = rule.action.parameters
  parameters_of rule (some ev) =
      put "event_id" (text_value ev.id)
        (put "endpoint" (text_value "http://localhost:8080") rule.action.parameters)

  -- The proposal of `buildProposal`; the rule's `LastFired` is set by `fired`.
  unfoldable pub build_proposal :
      Rule go → String → Option (SystemEvent go) → ℕ → String → ActionProposal go
  unfolding requires_approval confidence_of reasoning_of parameters_of
  build_proposal rule entity_id event now uuid = record {
    id = uuid;
    timestamp = now;
    source = append "rule:" rule.id;
    rule_id = rule.id;
    action = rule.action.action_type;
    entity_id = entity_id;
    priority = rule.priority;
    risk = rule.action.risk;
    confidence = confidence_of rule;
    reasoning = reasoning_of rule event;
    parameters = parameters_of rule event;
    requires_approval = requires_approval rule;
    status = pending;
  }

  abbrev pub fired : ℕ → Rule go → Rule go
  fired now rule = record rule { last_fired = some now }

  unfoldable pub evaluate :
      RuleEngine → ℕ → String → SystemEvent go → RuleEngine × Option (ActionProposal go)
  unfolding best_rule build_proposal
  evaluate e now uuid event = elim (best_rule event none e.rules) [
    | none ↦ (e, none)
    | some best ↦ (
      record { rules = replace_or_append rule_id_of (fired now best) e.rules },
      some (build_proposal best event.entity_id (some event) now uuid),
    )
  ]

  abbrev pub summary_entity : Rule go → String
  summary_entity rule = if rule.action.entity_id == "" then "system" else rule.action.entity_id

  -- `EvaluateSummary`: the rules after it and the proposals; `uuid` gives the id of each rule's.
  unfoldable pub evaluate_rules :
      SystemSummary go
      → ℕ
      → (String → String)
      → List (Rule go)
      → List (Rule go) × List (ActionProposal go)
  unfolding matches_summary build_proposal
  evaluate_rules s now uuid [] = ([], [])
  evaluate_rules s now uuid (rule ∷ rules) =
      let (rest, proposals) = evaluate_rules s now uuid rules in
      if rule.enabled && matches_summary rule s
      then (
        fired now rule ∷ rest,
        build_proposal rule (summary_entity rule) none now (uuid rule.id) ∷ proposals,
      )
      else (rule ∷ rest, proposals)

  unfoldable pub evaluate_summary :
      RuleEngine → ℕ → (String → String) → SystemSummary go → RuleEngine × List (ActionProposal go)
  unfolding evaluate_rules
  evaluate_summary e now uuid s =
      let (rules, proposals) = evaluate_rules s now uuid e.rules in
      (record { rules = rules }, proposals)

  abbrev pub counted : Bool → Rule go → Rule go
  counted true rule = record rule { success_count = rule.success_count + 1 }
  counted false rule = record rule { failure_count = rule.failure_count + 1 }

  unfoldable pub count_first : String → Bool → List (Rule go) → List (Rule go)
  count_first id succeeded [] = []
  count_first id succeeded (r ∷ rs) =
      let rest = count_first id succeeded rs in
      if r.id == id then counted succeeded r ∷ rs else r ∷ rest

  unfoldable pub update_stats : RuleEngine → String → Bool → RuleEngine
  unfolding count_first
  update_stats e id succeeded = record { rules = count_first id succeeded e.rules }
