-- ===== src/Layer4/Reconciliation/Repeated.antt =====
-- What a reconciliation by the default reconciler reports, and what it leaves
-- (layer4/reconciliation_engine.go).
use mathlib.Core.List.{Memᴰ}
use aizo.Prelude.{
  ℕ, ◌≡◌, ◌↔◌, refl, ap, ◌∙◌, String, true, false, Option, none, some, List, [], Map, get,
  string_eq, nat_eq, Distinct, arith,
}
use aizo.Layer4.StateStore.{Database, update_desired_state}
use aizo.Layer4.Reconciliation.{
  ReconciliationEngine, ReconciliationRequest, ReconciliationResult, ReconciliationChange,
  changes_to, default_reconciler, settle, reconcile,
}
use aizo.Layer4.Reconciliation.Changes.{IsChange, changes_to-IsChange}
use aizo.Layer4.Reconciliation.DryRun.{changes_of, settle-found, reconcile-found}
use aizo.Layer4.ChangeDetector.{fields}

module _ (M : Type 0) {V : Type 0} (database : Database (Option (Map String V))) where
  -- What the engine's answer leaves of the state behind the pointer p.
  settle-kept :
      (e : ReconciliationEngine M database) (now lasted : ℕ) (req : ReconciliationRequest V)
      (r : ReconciliationResult V) (p : ℕ)
      → get req.entity_id e.state_store.states ≡ some p
      → let e' = (settle M database e now lasted req r).0 in
        (e'.reconcilers ≡ e.reconcilers)
        × (get req.entity_id e'.state_store.states ≡ some p)
        × ((e'.state_store.heap p).actual_state ≡ (e.state_store.heap p).actual_state)
        × ((e'.state_store.heap p).state_type ≡ (e.state_store.heap p).state_type)
        × ((settle M database e now lasted req r).2.changes ≡ r.changes)
  unfolding settle update_desired_state
  settle-kept e now lasted req r p g =
      (ground arith, ground arith, ground arith, ground arith, ground arith)

  reconcile-once :
      (text : V → String) (e : ReconciliationEngine M database) (m : M) (now lasted : ℕ)
      (req : ReconciliationRequest V) (p : ℕ)
      → get req.entity_id e.state_store.states ≡ some p
      → get (e.state_store.heap p).state_type e.reconcilers ≡ some (default_reconciler text)
      → req.dry_run ≡ false
      → let (e', m', x, r) = reconcile M database e m now lasted req in
        (x ≡ none)
        × (m' ≡ m)
        × (changes_of r
            ≡ some (
                changes_to text
                  (fields req.desired_state)
                  (fields (e.state_store.heap p).actual_state)))
        × (get req.entity_id e'.state_store.states ≡ some p)
        × (get (e'.state_store.heap p).state_type e'.reconcilers ≡ some (default_reconciler text))
        × ((e'.state_store.heap p).actual_state ≡ (e.state_store.heap p).actual_state)
  unfolding default_reconciler
  reconcile-once text e m now lasted req p g h d =
      let actual = (e.state_store.heap p).actual_state in
      let r : ReconciliationResult V = record {
        entity_id = req.entity_id;
        success = true;
        changes = changes_to text (fields req.desired_state) (fields actual);
        errors = [];
        dry_run = false;
        duration = 0;
      } in
      let run =
        reconcile-found M database e now lasted req p (default_reconciler text) m m r g h refl in
      let (k, s, a, t, c) = settle-kept e now lasted req r p g in
      (
        ap (λ x. x.2) run ∙ settle-found M database e now lasted req r p g,
        ap (λ x. x.1) run,
        ap (λ x. changes_of x.3) run ∙ ap (λ x. some x) c,
        ap (λ x. get req.entity_id x.0.state_store.states) run ∙ s,
        ap (λ x. get (x.0.state_store.heap p).state_type x.0.reconcilers) run ∙ rw (k, t) h,
        ap (λ x. (x.0.state_store.heap p).actual_state) run ∙ a,
      )

  -- A reconciliation by the default reconciler that is no dry run succeeds and reports, marked as applied,
  -- exactly the desired fields that differ from the actual state; but neither the machine nor the
  -- actual state changes, so that the same request reports the same changes again. The desired
  -- state has each field once, as every Go map.
  pub reconcile-again :
      (text : V → String) (e : ReconciliationEngine M database) (m : M)
      (now lasted now' lasted' : ℕ) (req : ReconciliationRequest V) (p : ℕ)
      → get req.entity_id e.state_store.states ≡ some p
      → get (e.state_store.heap p).state_type e.reconcilers ≡ some (default_reconciler text)
      → req.dry_run ≡ false
      → Distinct (fields req.desired_state)
      → let actual = (e.state_store.heap p).actual_state in
        let first = reconcile M database e m now lasted req in
        let again = reconcile M database first.0 first.1 now' lasted' req in
        (first.2 ≡ none)
        × (again.2 ≡ none)
        × (again.1 ≡ m)
        × ((again.0.state_store.heap p).actual_state ≡ actual)
        × ((changes : List (ReconciliationChange V)) × (changes_of first.3 ≡ some changes)
            × (changes_of again.3 ≡ some changes)
            × ((ch : ReconciliationChange V)
                → Memᴰ ch changes ↔ IsChange text (fields req.desired_state) (fields actual) ch))
  reconcile-again text e m now lasted now' lasted' req p g h d u =
      let actual = (e.state_store.heap p).actual_state in
      let desired = fields req.desired_state in
      let first = reconcile M database e m now lasted req in
      let (x, w, c, g', h', a) = reconcile-once text e m now lasted req p g h d in
      let (x', w', c', _, _, a') = reconcile-once text first.0 first.1 now' lasted' req p g' h' d in
      (
        x,
        x',
        w' ∙ w,
        a' ∙ a,
        (
          changes_to text desired (fields actual),
          c,
          c' ∙ ap (λ s. some (changes_to text desired (fields s))) a,
          λ ch. changes_to-IsChange text desired (fields actual) ch u,
        ),
      )
