-- ===== src/Layer4/Reconciliation/DryRun.antt =====
-- What a dry run does (layer4/reconciliation_engine.go).
use aizo.Prelude.{
  ℕ, ◌≡◌, ◌⊎◌, inl, inr, refl, sym, ap, ◌∙◌, String, Bool, true, false, Option, none, some, List,
  Map, get, string_eq, nat_eq, Option-cases, arith,
}
use aizo.Layer4.StateStore.{Database, get_state, update_desired_state}
use aizo.Layer4.Reconciliation.{
  ReconciliationEngine, ReconciliationRequest, ReconciliationResult, ReconciliationChange,
  Reconciler, Result, ok, err, Error, settle, reconcile,
}

Result-cases : {A : Type 0} (r : Result A) → ((a : A) × (r ≡ ok a)) ⊎ ((x : Error) × (r ≡ err x))
Result-cases (ok a) = inl (a, refl)
Result-cases (err x) = inr (x, refl)

-- The changes of a result, if there is one.
abbrev pub changes_of :
    {V : Type 0} → Option (ReconciliationResult V) → Option (List (ReconciliationChange V))
changes_of none = none
changes_of (some r) = some r.changes

module _ (M : Type 0) {V : Type 0} (database : Database (Option (Map String V))) where
  -- The store has the entity, so its update does not fail.
  pub settle-found :
      (e : ReconciliationEngine M database) (now lasted : ℕ) (req : ReconciliationRequest V)
      (r : ReconciliationResult V) (p : ℕ)
      → get req.entity_id e.state_store.states ≡ some p
      → (settle M database e now lasted req r).1 ≡ none
  unfolding settle update_desired_state
  settle-found e now lasted req r p g = ground arith

  -- The reconciler that answers, and what is done with its answer.
  pub reconcile-found :
      (e : ReconciliationEngine M database) (now lasted : ℕ) (req : ReconciliationRequest V) (p : ℕ)
      (f : Reconciler M V) (m m' : M) (r : ReconciliationResult V)
      → get req.entity_id e.state_store.states ≡ some p
      → get (e.state_store.heap p).state_type e.reconcilers ≡ some f
      → f m req.entity_id req.desired_state (e.state_store.heap p).actual_state ≡ (m', ok r)
      → let (e', x, r') = settle M database e now lasted req r in
        reconcile M database e m now lasted req ≡ (e', m', x, some r')
  unfolding reconcile get_state
  reconcile-found e now lasted req p f m m' r g h a = ground arith

  settle-dry :
      (e : ReconciliationEngine M database) (now lasted : ℕ) (req : ReconciliationRequest V)
      (r : ReconciliationResult V)
      → req.dry_run ≡ true
      → (settle M database e now lasted req r).0 ≡ e
  unfolding settle
  settle-dry e now lasted req r h = ground arith

  settle-changes :
      (e : ReconciliationEngine M database) (now lasted : ℕ) (req : ReconciliationRequest V)
      (r : ReconciliationResult V)
      → (settle M database e now lasted req r).2.changes ≡ r.changes
  unfolding settle
  settle-changes e now lasted req r = ground arith

  -- A request, as a dry run or not.
  abbrev pub request_for : String → Option (Map String V) → Bool → Bool → ReconciliationRequest V
  request_for id desired force dry = record {
    entity_id = id;
    desired_state = desired;
    force = force;
    dry_run = dry;
  }

  -- A dry run keeps the engine and its store as they were, whatever the outcome; but it runs the
  -- reconciler, which leaves the machine as it does in the same reconciliation that is no dry run, with
  -- the same error and the same changes.
  pub reconcile-dry_run :
      (e : ReconciliationEngine M database) (m : M) (now lasted : ℕ) (id : String)
      (desired : Option (Map String V)) (force : Bool)
      → let dry = reconcile M database e m now lasted (request_for id desired force true) in
        let real = reconcile M database e m now lasted (request_for id desired force false) in
        (dry.0 ≡ e) × (dry.1 ≡ real.1) × (dry.2 ≡ real.2) × (changes_of dry.3 ≡ changes_of real.3)
  unfolding reconcile get_state
  reconcile-dry_run e m now lasted id desired force =
      elim (Option-cases (get id e.state_store.states)) [
        | inl g ↦ rw (g, reconcile) (refl, refl, refl, refl)
        | inr (p, g) ↦ elim (Option-cases (get (e.state_store.heap p).state_type e.reconcilers)) [
          | inl h ↦ rw (g, reconcile, h) (refl, refl, refl, refl)
          | inr (f, h) ↦
              elim (Result-cases (f m id desired (e.state_store.heap p).actual_state).1) [
                | inr (x, a) ↦ rw (g, reconcile, h, a) (refl, refl, refl, refl)
                | inl (r, a) ↦
                    let m' = (f m id desired (e.state_store.heap p).actual_state).0 in
                    let same : f m id desired (e.state_store.heap p).actual_state ≡ (m', ok r) =
                      ap (λ y. (m', y)) a in
                    let d = request_for id desired force true in
                    let n = request_for id desired force false in
                    let on_dry = reconcile-found e now lasted d p f m m' r g h same in
                    let on_real = reconcile-found e now lasted n p f m m' r g h same in
                    (
                      ap (λ y. y.0) on_dry ∙ settle-dry e now lasted d r refl,
                      ap (λ y. y.1) on_dry ∙ sym (ap (λ y. y.1) on_real),
                      ap (λ y. y.2) on_dry
                          ∙ settle-found e now lasted d r p g
                          ∙ sym (ap (λ y. y.2) on_real ∙ settle-found e now lasted n r p g),
                      ap (λ y. changes_of y.3) on_dry
                          ∙ ap (λ y. some y) (settle-changes e now lasted d r)
                          ∙ sym (
                              ap (λ y. changes_of y.3) on_real
                              ∙ ap (λ y. some y) (settle-changes e now lasted n r)),
                    )
              ]
        ]
      ]
