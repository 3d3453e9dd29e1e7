-- ===== src/Layer6/Proposals.antt =====
-- The life of a proposal in layer6/manager.go. The goroutines of `executeProposal` are part of the
-- state, by the ids of their proposals: those that have not started to execute, those inside of
-- `ExecuteAction`, and the calls of it so far. The store and the learning get what happens and answer
-- nothing; they are left out, with the approver and the texts of results.
pub mod Phases
pub mod Approval
pub mod Automatic
use aizo.Prelude.{
  ℕ, ◌+◌, String, Bool, true, false, Option, none, some, List, [], ◌∷◌, ◌++◌, if◌then◌else◌, ◌==◌,
  string_eq, some_of, select, find_first, remove_first,
}
use aizo.Layer6.Go.{Go}
use aizo.Layer6.Rule.{
  ProposalStatus, pending, approved, rejected, executing, completed, failed, ActionProposal,
}

pub data Error : Type 0 where
  not_pending : ProposalStatus → Error
  not_found : String → Error

abbrev pub is_pending : ProposalStatus → Bool
is_pending pending = true
is_pending _ = false

abbrev pub among : String → List String → Bool
among id = some_of (λ x. x == id)

module _ (go : Go) where
  pub record Manager : Type 0 where
    pub has_executor : Bool
    pub proposals : List (ActionProposal go)
    pub waiting : List String
    pub running : List String
    pub calls : List String

  abbrev pub new_manager : Bool → Manager
  new_manager has_executor = record {
    has_executor = has_executor;
    proposals = [];
    waiting = [];
    running = [];
    calls = [];
  }

  abbrev pub find_proposal : String → List (ActionProposal go) → Option (ActionProposal go)
  find_proposal id = find_first (λ p. p.id) id

  -- The status of the first proposal with an id is written through its pointer.
  unfoldable pub set_status :
      String → ProposalStatus → List (ActionProposal go) → List (ActionProposal go)
  set_status id status [] = []
  set_status id status (p ∷ ps) =
      let rest = set_status id status ps in
      if p.id == id then record p { status = status } ∷ ps else p ∷ rest

  -- A proposal of the rule engine is queued, and started if it needs no approval.
  unfoldable pub queue_proposal : Manager → ActionProposal go → Manager
  queue_proposal m p = record m {
    proposals = m.proposals ++ p ∷ [];
    waiting = if p.requires_approval then m.waiting else p.id ∷ m.waiting;
  }

  -- `ProcessEvent`, after the rule engine's answer.
  unfoldable pub process_event : Manager → Option (ActionProposal go) → Manager
  unfolding queue_proposal
  process_event m none = m
  process_event m (some p) = queue_proposal m p

  -- The loop of `ProcessSummary`.
  unfoldable pub process_summary : Manager → List (ActionProposal go) → Manager
  unfolding queue_proposal
  process_summary m [] = m
  process_summary m (p ∷ ps) = process_summary (queue_proposal m p) ps

  unfoldable pub approve_proposal : Manager → String → Manager × Option Error
  unfolding set_status
  approve_proposal m id = elim (find_proposal id m.proposals) [
    | none ↦ (m, some (not_found id))
    | some p ↦
        if is_pending p.status
        then (
          record m { proposals = set_status id approved m.proposals; waiting = id ∷ m.waiting },
          none,
        )
        else (m, some (not_pending p.status))
  ]

  unfoldable pub reject_proposal : Manager → String → Manager × Option Error
  unfolding set_status
  reject_proposal m id = elim (find_proposal id m.proposals) [
    | none ↦ (m, some (not_found id))
    | some p ↦
        if is_pending p.status
        then (record m { proposals = set_status id rejected m.proposals }, none)
        else (m, some (not_pending p.status))
  ]

  -- `executeProposal` up to the call of `ExecuteAction`, in a goroutine that was waiting.
  unfoldable pub begin_execution : Manager → String → Manager
  unfolding set_status
  begin_execution m id =
      let m' : Manager = record m { waiting = remove_first (λ x. x) id m.waiting } in
      let started : Manager = record m' {
        proposals = set_status id executing m.proposals;
        running = id ∷ m.running;
        calls = id ∷ m.calls;
      } in
      if among id m.waiting then if m.has_executor then started else m' else m

  -- The rest of `executeProposal`: `succeeded` is what the executor's answer comes to.
  unfoldable pub end_execution : Manager → String → Bool → Manager
  unfolding set_status
  end_execution m id succeeded =
      if among id m.running
      then record m {
        proposals = set_status id (if succeeded then completed else failed) m.proposals;
        running = remove_first (λ x. x) id m.running;
      }
      else m

  unfoldable pub get_pending_proposals : Manager → List (ActionProposal go)
  get_pending_proposals m = select (λ p. is_pending p.status) m.proposals
