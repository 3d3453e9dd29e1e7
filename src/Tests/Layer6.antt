-- ===== src/Tests/Layer6.antt =====
-- Runs of the rule engine (layer6/rule_engine.go) and of a proposal (layer6/manager.go). Floats are
-- natural numbers here, and values texts.
use aizo.Prelude.{
  ℕ, ◌≡◌, ◌⊎◌, refl, String, true, false, none, some, [], ◌∷◌, ltb, leb, ◌==◌, string_eq, nat_eq,
  All, replace_or_append, String_discrete,
}
use aizo.Prelude.Int.{pos, ℤ}
use aizo.Layer6.Go.{Go}
use aizo.Layer6.Rule.{Condition, Rule, SystemEvent, SystemSummary, pending}
use aizo.Layer6.RuleEngine.{RuleEngine, rule_id_of, candidate, fired, build_proposal, evaluate}
use aizo.Layer6.RuleEngine.Selection.{Best, evaluate-Best}
use aizo.Layer6.Rule.{executing, ActionProposal}
use aizo.Layer6.Proposals.{
  Manager, new_manager, find_proposal, set_status, process_event, approve_proposal, reject_proposal,
  begin_execution,
}
use aizo.Layer6.Proposals.Phases.{count}
use aizo.Layer6.Proposals.Approval.{Reached, fresh, queued, approval, begun, Reached-Phase}
use aizo.Layer6.Proposals.Automatic.{process_event-automatic}
use aizo.Prelude.{find_first, Bool, String_discrete}

abbrev go : Go
go = record {
  Float = ℕ;
  of_int = λ n. n;
  literal = λ s. 70;
  div = λ a b. a;
  lt = ltb;
  le = leb;
  eq = λ a b. a == b;
  contains = λ s t. s == t;
  to_lower = λ s. s;
  Value = String;
  text_value = λ s. s;
  matched_text = λ name c s t. name;
  event_text = λ s t e. s;
}

abbrev hot : Condition go
hot = record {
  metric = "cpu_usage";
  operator = ">";
  value = 90;
  event_type = "";
  field = "";
  contains = "";
}

abbrev rule_of : String → ℤ → Rule go
rule_of id priority = record {
  id = id;
  name = id;
  description = "";
  conditions = hot ∷ [];
  action = record {
    action_type = "restart";
    entity_id = "";
    risk = "low";
    reversible = true;
    auto_approve = false;
    parameters = [];
    reasoning = "hot";
  };
  priority = priority;
  enabled = true;
  success_count = 0;
  failure_count = 0;
  last_fired = none;
}

abbrev engine : RuleEngine go
engine = record { rules = rule_of "a" (pos 1) ∷ rule_of "b" (pos 2) ∷ [] }

abbrev event : SystemEvent go
event = record {
  id = "e1";
  event_type = "alert";
  entity_id = "web";
  description = "load";
  metrics = ("cpu_usage", 95) ∷ [];
}

abbrev summary : SystemSummary go
summary = record {
  failed_containers = 0;
  unhealthy_entities = 0;
  average_load = 1;
  memory_usage = 2;
  cpu_usage = 95;
  disk_usage = 3;
  metrics = [];
}

evaluate-Best_example :
    (All (λ q. candidate go event q ≡ false) engine.rules
      × (evaluate go engine 5 "u" event ≡ (engine, none)))
    ⊎ ((rule : Rule go) × Best go event engine.rules rule
        × (evaluate go engine 5 "u" event ≡ (
          record { rules = replace_or_append (rule_id_of go) (fired go 5 rule) engine.rules },
          some (build_proposal go rule "web" (some event) 5 "u"),
        ))
        × ((build_proposal go rule "web" (some event) 5 "u").status ≡ pending))
evaluate-Best_example = evaluate-Best go event engine 5 "u"

abbrev proposal : Bool → ActionProposal go
proposal requires_approval = record {
  id = "p1";
  timestamp = 5;
  source = "rule:a";
  rule_id = "a";
  action = "restart";
  entity_id = "web";
  priority = pos 1;
  risk = "low";
  confidence = 75;
  reasoning = "hot";
  parameters = [];
  requires_approval = requires_approval;
  status = pending;
}

-- It was queued, approved, and started.
abbrev manager : Manager go
manager =
    begin_execution go
      (approve_proposal go (process_event go (new_manager go true) (some (proposal true))) "p1").0
      "p1"

unused : find_first (λ (q : ActionProposal go). q.id) "p1" (new_manager go true).proposals ≡ none
unfolding find_first
unused = refl

manager-Reached : Reached go true manager
manager-Reached = begun "p1" (approval "p1" (queued (proposal true) refl unused fresh))

is_executing :
    find_proposal go "p1" manager.proposals ≡ some (record (proposal true) { status = executing })
unfolding begin_execution approve_proposal process_event set_status find_first String_discrete
is_executing = refl

Reached-Phase_example :
    (count "p1" manager.waiting ≡ 0)
    × (count "p1" manager.running ≡ 1)
    × (count "p1" manager.calls ≡ 1)
Reached-Phase_example =
    Reached-Phase go true manager "p1" (record (proposal true) { status = executing })
      manager-Reached is_executing refl

process_event-automatic_example :
    let m = process_event go (new_manager go true) (some (proposal false)) in
    let (rejected_first, e) = reject_proposal go m "p1" in
    let (approved_first, f) = approve_proposal go m "p1" in
    (e ≡ none)
    × ((begin_execution go rejected_first "p1").calls ≡ "p1" ∷ [])
    × (f ≡ none)
    × ((begin_execution go (begin_execution go approved_first "p1") "p1").calls ≡ "p1" ∷ "p1" ∷ [])
process_event-automatic_example = process_event-automatic go (proposal false) refl refl
