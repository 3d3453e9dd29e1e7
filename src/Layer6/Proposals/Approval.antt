-- ===== src/Layer6/Proposals/Approval.antt =====
-- Proposals that need approval (layer6/manager.go), whatever calls and goroutines interleave.
use mathlib.Core.Path.{subst}
use aizo.Prelude.{
  ℕ, ◌+◌, ◌-◌, ◌≤◌, ◌≡◌, ◌⊎◌, inl, inr, refl, ap, String, Bool, true, false, Option, none, some,
  List, [], ◌∷◌, ◌++◌, if◌then◌else◌, ◌==◌, string_eq, find_first, arith, Bool-cases, Option-cases,
}
use aizo.Layer6.Go.{Go}
use aizo.Layer6.Rule.{
  ProposalStatus, pending, approved, rejected, executing, completed, failed, ActionProposal,
}
use aizo.Layer6.Proposals.{
  Manager, new_manager, among, is_pending, find_proposal, set_status, queue_proposal, process_event,
  approve_proposal, reject_proposal, begin_execution, end_execution,
}
use aizo.Layer6.Proposals.Phases.{
  count, count-remove_first, count-among, Phase, Phase-pending, Phase-waiting, Phase-running,
  Phase-ended,
}

module _ (go : Go) where
  find_proposal-set_status :
      (id j : String) (status : ProposalStatus) (ps : List (ActionProposal go))
      → find_proposal go id (set_status go j status ps) ≡ elim (find_proposal go id ps) [
        | none ↦ none
        | some p ↦ if j == id then some (record p { status = status }) else some p
      ]
  unfolding set_status find_first
  find_proposal-set_status id j status [] = refl
  find_proposal-set_status id j status (p ∷ ps) =
      ground (arith, find_proposal-set_status id j status ps)

  find_proposal-snoc :
      (id : String) (p : ActionProposal go) (ps : List (ActionProposal go))
      → find_proposal go id (ps ++ p ∷ []) ≡ elim (find_proposal go id ps) [
        | none ↦ if p.id == id then some p else none
        | some q ↦ some q
      ]
  unfolding find_first
  find_proposal-snoc id p [] = ground arith
  find_proposal-snoc id p (q ∷ ps) = ground (arith, find_proposal-snoc id p ps)

  -- What holds of one id: nothing has happened to an id without a proposal, and a proposal that needs
  -- approval is in the phase of its status.
  abbrev pub Stands : Option (ActionProposal go) → ℕ → ℕ → ℕ → Type 0
  Stands none w r c = (w ≡ 0) × (r ≡ 0) × (c ≡ 0)
  Stands (some p) w r c = (p.requires_approval ≡ false) ⊎ Phase p.status w r c

  abbrev pub IsSound : Manager go → Type 0
  IsSound m =
      (id : String)
      → Stands (find_proposal go id m.proposals) (count id m.waiting) (count id m.running)
          (count id m.calls)

  new-IsSound : (b : Bool) → IsSound (new_manager go b)
  unfolding count find_first
  new-IsSound b id = (refl, refl, refl)

  -- A new proposal is pending, and its id is one that no proposal has.
  queue_proposal-IsSound :
      (m : Manager go) (p : ActionProposal go)
      → p.status ≡ pending
      → find_proposal go p.id m.proposals ≡ none
      → IsSound m
      → IsSound (queue_proposal go m p)
  unfolding queue_proposal count
  queue_proposal-IsSound m p new fresh s id =
      ground
        (arith, find_proposal-snoc id p m.proposals, s id, ap (λ x. find_proposal go x m.proposals))

  abbrev StandsAt : Manager go → String → Type 0
  StandsAt m id =
      Stands (find_proposal go id m.proposals) (count id m.waiting) (count id m.running)
        (count id m.calls)

  -- A step that gives a proposal a status, and its goroutines new counts.
  Stands-become :
      (m : Manager go) (id : String) (p : ActionProposal go) (status : ProposalStatus) (w r c : ℕ)
      → find_proposal go id m.proposals ≡ some (record p { status = status })
      → count id m.waiting ≡ w
      → count id m.running ≡ r
      → count id m.calls ≡ c
      → (p.requires_approval ≡ false) ⊎ Phase status w r c
      → StandsAt m id
  Stands-become m id p status w r c found a b d h = rw (found, a, b, d) h

  Stands-same :
      (m m' : Manager go) (id : String)
      → find_proposal go id m'.proposals ≡ find_proposal go id m.proposals
      → count id m'.waiting ≡ count id m.waiting
      → count id m'.running ≡ count id m.running
      → count id m'.calls ≡ count id m.calls
      → StandsAt m id
      → StandsAt m' id
  Stands-same m m' id found a b d h = rw (found, a, b, d) h

  Phase-of :
      (m : Manager go) (id j : String) (p : ActionProposal go)
      → StandsAt m id
      → j == id ≡ true
      → find_proposal go j m.proposals ≡ some p
      → (find_proposal go id m.proposals ≡ some p)
        × ((p.requires_approval ≡ false)
            ⊎ Phase p.status (count id m.waiting) (count id m.running) (count id m.calls))
  Phase-of m id j p h same e =
      let here : find_proposal go id m.proposals ≡ some p =
        ground (arith, ap (λ x. find_proposal go x m.proposals)) in
      (
        here,
        subst (λ o. Stands o (count id m.waiting) (count id m.running) (count id m.calls)) here h,
      )

  approve_proposal-IsSound :
      (m : Manager go) (j : String) → IsSound m → IsSound (approve_proposal go m j).0
  unfolding approve_proposal count
  approve_proposal-IsSound m j s id =
      let m' = (approve_proposal go m j).0 in
      let set = find_proposal-set_status id j approved m.proposals in
      elim (Bool-cases (j == id)) [
        | inr other ↦
            Stands-same m m' id (ground (arith, set)) (ground arith) (ground arith) (ground arith)
              (s id)
        | inl same ↦ elim (Option-cases (find_proposal go j m.proposals)) [
          | inl e ↦
              Stands-same m m' id (ground arith) (ground arith) (ground arith) (ground arith) (s id)
          | inr (p, e) ↦
              let (here, before) = Phase-of m id j p (s id) same e in
              elim (Bool-cases (is_pending p.status)) [
                | inl ready ↦
                    Stands-become m' id p approved (count id m.waiting + 1) (count id m.running)
                      (count id m.calls) (ground (arith, set)) (ground arith) (ground arith)
                      (ground arith)
                      (elim before [
                        | inl auto ↦ inl auto
                        | inr phase ↦
                            let (a, b, c) = Phase-pending p.status _ _ _ ready phase in
                            inr (omega (arith, a), b, c)
                      ])
                | inr not_ready ↦
                    Stands-same m m' id (ground arith) (ground arith) (ground arith) (ground arith)
                      (s id)
              ]
        ]
      ]

  reject_proposal-IsSound :
      (m : Manager go) (j : String) → IsSound m → IsSound (reject_proposal go m j).0
  unfolding reject_proposal
  reject_proposal-IsSound m j s id =
      let m' = (reject_proposal go m j).0 in
      let set = find_proposal-set_status id j rejected m.proposals in
      elim (Bool-cases (j == id)) [
        | inr other ↦
            Stands-same m m' id (ground (arith, set)) (ground arith) (ground arith) (ground arith)
              (s id)
        | inl same ↦ elim (Option-cases (find_proposal go j m.proposals)) [
          | inl e ↦
              Stands-same m m' id (ground arith) (ground arith) (ground arith) (ground arith) (s id)
          | inr (p, e) ↦
              let (here, before) = Phase-of m id j p (s id) same e in
              elim (Bool-cases (is_pending p.status)) [
                | inl ready ↦
                    Stands-become m' id p rejected (count id m.waiting) (count id m.running)
                      (count id m.calls) (ground (arith, set)) (ground arith) (ground arith)
                      (ground arith)
                      (elim before [
                        | inl auto ↦ inl auto
                        | inr phase ↦ inr (Phase-pending p.status _ _ _ ready phase)
                      ])
                | inr not_ready ↦
                    Stands-same m m' id (ground arith) (ground arith) (ground arith) (ground arith)
                      (s id)
              ]
        ]
      ]

  -- What a goroutine of the id `j` needs, to have been waiting or running.
  Stands-none :
      (m : Manager go) (id j : String)
      → StandsAt m id
      → j == id ≡ true
      → find_proposal go j m.proposals ≡ none
      → (count id m.waiting ≡ 0) × (count id m.running ≡ 0) × (count id m.calls ≡ 0)
  Stands-none m id j h same e =
      let here : find_proposal go id m.proposals ≡ none =
        ground (arith, ap (λ x. find_proposal go x m.proposals)) in
      subst (λ o. Stands o (count id m.waiting) (count id m.running) (count id m.calls)) here h

  begin_execution-IsSound :
      (m : Manager go) (j : String) → IsSound m → IsSound (begin_execution go m j)
  unfolding begin_execution count
  begin_execution-IsSound m j s id =
      let m' = begin_execution go m j in
      let set = find_proposal-set_status id j executing m.proposals in
      let removed = count-remove_first id j m.waiting in
      elim (Bool-cases (j == id)) [
        | inr other ↦
            Stands-same m m' id (ground (arith, set)) (ground (arith, removed)) (ground arith)
              (ground arith) (s id)
        | inl same ↦ elim (Bool-cases (among j m.waiting)) [
          | inr idle ↦
              Stands-same m m' id (ground arith) (ground arith) (ground arith) (ground arith) (s id)
          | inl held ↦
              let one : 1 ≤ count id m.waiting =
                ground (arith, count-among j m.waiting, ap (λ x. count x m.waiting)) in
              elim (Option-cases (find_proposal go j m.proposals)) [
                | inl e ↦
                    let (z, r, c) = Stands-none m id j (s id) same e in
                    absurd (omega (arith, z, one))
                | inr (p, e) ↦
                    let (here, before) = Phase-of m id j p (s id) same e in
                    elim (Bool-cases m.has_executor) [
                      | inl able ↦
                          Stands-become m' id p executing (count id m.waiting - 1)
                            (count id m.running + 1) (count id m.calls + 1) (ground (arith, set))
                            (ground (arith, removed)) (ground arith) (ground arith)
                            (elim before [
                              | inl auto ↦ inl auto
                              | inr phase ↦
                                  let (st, a, b, c) = Phase-waiting p.status _ _ _ phase one in
                                  inr (omega (arith, a), omega (arith, b), omega (arith, c))
                            ])
                      | inr unable ↦ elim before [
                        | inl auto ↦
                            Stands-become m' id p p.status (count id m.waiting - 1)
                              (count id m.running) (count id m.calls) (ground arith)
                              (ground (arith, removed)) (ground arith) (ground arith) (inl auto)
                        | inr phase ↦
                            let (st, a, b, c) = Phase-waiting p.status _ _ _ phase one in
                            Stands-become m' id p approved (count id m.waiting - 1)
                              (count id m.running) (count id m.calls) (ground arith)
                              (ground (arith, removed)) (ground arith) (ground arith)
                              (inr (omega (arith, a), b, c))
                      ]
                    ]
              ]
        ]
      ]

  end_execution-IsSound :
      (m : Manager go) (j : String) (ok : Bool) → IsSound m → IsSound (end_execution go m j ok)
  unfolding end_execution count
  end_execution-IsSound m j ok s id =
      let m' = end_execution go m j ok in
      let status = if ok then completed else failed in
      let set = find_proposal-set_status id j status m.proposals in
      let removed = count-remove_first id j m.running in
      elim (Bool-cases (j == id)) [
        | inr other ↦
            Stands-same m m' id (ground (arith, set)) (ground arith) (ground (arith, removed))
              (ground arith) (s id)
        | inl same ↦ elim (Bool-cases (among j m.running)) [
          | inr idle ↦
              Stands-same m m' id (ground arith) (ground arith) (ground arith) (ground arith) (s id)
          | inl held ↦
              let one : 1 ≤ count id m.running =
                ground (arith, count-among j m.running, ap (λ x. count x m.running)) in
              elim (Option-cases (find_proposal go j m.proposals)) [
                | inl e ↦
                    let (z, r, c) = Stands-none m id j (s id) same e in
                    absurd (omega (arith, r, one))
                | inr (p, e) ↦
                    let (here, before) = Phase-of m id j p (s id) same e in
                    Stands-become m' id p status (count id m.waiting) (count id m.running - 1)
                      (count id m.calls) (ground (arith, set)) (ground arith)
                      (ground (arith, removed)) (ground arith)
                      (elim before [
                        | inl auto ↦ inl auto
                        | inr phase ↦
                            let (a, b, c) = Phase-running p.status _ _ _ phase one in
                            inr (Phase-ended ok _ _ _ a (omega (arith, b)) c)
                      ])
              ]
        ]
      ]

  -- Every way in which calls and goroutines can interleave; the ids of new proposals are new.
  pub data Reached (has_executor : Bool) : Manager go → Type 0 where
    fresh : Reached has_executor (new_manager go has_executor)
    queued :
        {m : Manager go} (p : ActionProposal go)
        → p.status ≡ pending
        → find_proposal go p.id m.proposals ≡ none
        → Reached has_executor m
        → Reached has_executor (process_event go m (some p))
    approval :
        {m : Manager go} (id : String)
        → Reached has_executor m
        → Reached has_executor (approve_proposal go m id).0
    rejection :
        {m : Manager go} (id : String)
        → Reached has_executor m
        → Reached has_executor (reject_proposal go m id).0
    begun :
        {m : Manager go} (id : String)
        → Reached has_executor m
        → Reached has_executor (begin_execution go m id)
    ended :
        {m : Manager go} (id : String) (ok : Bool)
        → Reached has_executor m
        → Reached has_executor (end_execution go m id ok)

  Reached-IsSound : (has_executor : Bool) {m : Manager go} → Reached has_executor m → IsSound m
  unfolding process_event
  Reached-IsSound b fresh = new-IsSound b
  Reached-IsSound b (queued {m} p new unused r) =
      queue_proposal-IsSound m p new unused (Reached-IsSound b r)
  Reached-IsSound b (approval {m} id r) = approve_proposal-IsSound m id (Reached-IsSound b r)
  Reached-IsSound b (rejection {m} id r) = reject_proposal-IsSound m id (Reached-IsSound b r)
  Reached-IsSound b (begun {m} id r) = begin_execution-IsSound m id (Reached-IsSound b r)
  Reached-IsSound b (ended {m} id ok r) = end_execution-IsSound m id ok (Reached-IsSound b r)

  -- However calls and goroutines interleave, a proposal that needs approval is in the phase of its
  -- status: pending or rejected, it has no goroutine and was never executed; approved, at most one
  -- goroutine waits; executing, one runs and this is its only execution; completed or failed, it was
  -- executed once and no goroutine is left.
  pub Reached-Phase :
      (has_executor : Bool) (m : Manager go) (id : String) (p : ActionProposal go)
      → Reached has_executor m
      → find_proposal go id m.proposals ≡ some p
      → p.requires_approval ≡ true
      → Phase p.status (count id m.waiting) (count id m.running) (count id m.calls)
  Reached-Phase b m id p r e manual =
      let at : (p.requires_approval ≡ false)
          ⊎ Phase p.status (count id m.waiting) (count id m.running) (count id m.calls) =
        subst (λ o. Stands o (count id m.waiting) (count id m.running) (count id m.calls)) e
          (Reached-IsSound b r id) in
      elim at [ inl auto ↦ absurd (ground arith) | inr phase ↦ phase ]
