-- ===== src/Layer6/Rule.antt =====
-- layer6/rule.go and the types of layer6/types.go that the rule engine reads and writes.
use aizo.Prelude.{ℕ, ◌+◌, String, Bool, Option, List, Map, if◌then◌else◌, ◌==◌, nat_eq}
use aizo.Prelude.Int.{ℤ}
use aizo.Layer6.Go.{Go}

pub data ProposalStatus : Type 0 where
  pending approved rejected executing completed failed : ProposalStatus

module _ (go : Go) where
  open go use {Float, Value, of_int, literal, div}

  pub record Condition : Type 0 where
    pub metric : String
    pub operator : String
    pub value : Float
    pub event_type : String
    pub field : String
    pub contains : String

  pub record RuleAction : Type 0 where
    pub action_type : String
    pub entity_id : String
    pub risk : String
    pub reversible : Bool
    pub auto_approve : Bool
    pub parameters : Map String Value
    pub reasoning : String

  pub record Rule : Type 0 where
    pub id : String
    pub name : String
    pub description : String
    pub conditions : List Condition
    pub action : RuleAction
    pub priority : ℤ
    pub enabled : Bool
    pub success_count : ℕ
    pub failure_count : ℕ
    pub last_fired : Option ℕ

  unfoldable pub success_rate : Rule → Float
  success_rate r =
      let total = r.success_count + r.failure_count in
      if total == 0 then literal "1.0" else div (of_int r.success_count) (of_int total)

  pub record SystemEvent : Type 0 where
    pub id : String
    pub event_type : String
    pub entity_id : String
    pub description : String
    pub metrics : Map String Float

  pub record SystemSummary : Type 0 where
    pub failed_containers : ℕ
    pub unhealthy_entities : ℕ
    pub average_load : Float
    pub memory_usage : Float
    pub cpu_usage : Float
    pub disk_usage : Float
    pub metrics : Map String Float

  pub record ActionProposal : Type 0 where
    pub id : String
    pub timestamp : ℕ
    pub source : String
    pub rule_id : String
    pub action : String
    pub entity_id : String
    pub priority : ℤ
    pub risk : String
    pub confidence : Float
    pub reasoning : String
    pub parameters : Map String Value
    pub requires_approval : Bool
    pub status : ProposalStatus
