-- ===== src/Layer6/Proposals/Automatic.antt =====
-- Proposals that need no approval (layer6/manager.go) are executed by a goroutine, but stay pending
-- until it starts, so that they can be approved or rejected in between.
use aizo.Prelude.{◌≡◌, true, false, none, some, [], ◌∷◌, string_eq, find_first, remove_first, arith}
use aizo.Layer6.Go.{Go}
use aizo.Layer6.Rule.{pending, ActionProposal}
use aizo.Layer6.Proposals.{
  Manager, new_manager, process_event, approve_proposal, reject_proposal, begin_execution,
  set_status, queue_proposal,
}

module _ (go : Go) (p : ActionProposal go) where
  abbrev queued_first : Manager go
  queued_first = process_event go (new_manager go true) (some p)

  -- A pending proposal that needs no approval, the first of a manager, can be rejected without an
  -- error before its goroutine starts, and is executed all the same; and it can be approved without
  -- an error, and is then executed twice.
  pub process_event-automatic :
      p.requires_approval ≡ false
      → p.status ≡ pending
      → let (rejected_first, e) = reject_proposal go queued_first p.id in
        let (approved_first, f) = approve_proposal go queued_first p.id in
        (e ≡ none)
        × ((begin_execution go rejected_first p.id).calls ≡ p.id ∷ [])
        × (f ≡ none)
        × ((begin_execution go (begin_execution go approved_first p.id) p.id).calls
            ≡ p.id ∷ p.id ∷ [])
  unfolding process_event queue_proposal reject_proposal approve_proposal begin_execution set_status
      find_first remove_first
  process_event-automatic auto new = (ground arith, ground arith, ground arith, ground arith)
