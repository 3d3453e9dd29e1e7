-- ===== src/Layer4/Reconciliation.antt =====
-- layer4/reconciliation_engine.go, on the state store. A state is a Go map that may be nil, of values
-- whose text is `fmt.Sprintf("%v", ...)`. The reconcilers behind the interface act on a machine, of the
-- type `M`, which is all that they change; `now` is the time at which the store is written, and
-- `lasted` the time that the call took. The store locks each of its methods, and the engine nothing:
-- `reconcile` is a call that no other call to the store comes between.
pub mod Changes
pub mod DryRun
pub mod Repeated
use aizo.Prelude.{
  ℕ, String, Bool, true, false, not, ◌&&◌, Option, none, some, List, [], ◌∷◌, Map, get, put, ◌==◌,
  string_eq, if◌then◌else◌,
}
use aizo.Layer4.StateStore.{
  EntityState, Database, StateStore, StateQuery, get_state, update_desired_state, query_states,
}
use aizo.Layer4.StateStore as Store
use aizo.Layer4.ChangeDetector.{StateDrift, fields, detect_drift}

pub record ReconciliationChange (V : Type 0) : Type 0 where
  pub field_name : String
  pub old_value : Option V
  pub new_value : V
  pub applied : Bool

pub record ReconciliationResult (V : Type 0) : Type 0 where
  pub entity_id : String
  pub success : Bool
  pub changes : List (ReconciliationChange V)
  pub errors : List String
  pub dry_run : Bool
  pub duration : ℕ

pub record ReconciliationRequest (V : Type 0) : Type 0 where
  pub entity_id : String
  pub desired_state : Option (Map String V)
  pub force : Bool
  pub dry_run : Bool

pub data Error : Type 0 where
  store_error : Store.Error → Error
  no_reconciler : String → Error
  failed : String → Error

pub data Result (A : Type 0) : Type 0 where
  ok : A → Result A
  err : Error → Result A

-- `Reconciler.Reconcile`
abbrev pub Reconciler : Type 0 → Type 0 → Type 0
Reconciler M V =
    M → String → Option (Map String V) → Option (Map String V) → M × Result (ReconciliationResult V)

abbrev equal : {V : Type 0} → (V → String) → V → V → Bool
equal text a b = text a == text b

abbrev change_of : {V : Type 0} → String → Option V → V → ReconciliationChange V
change_of k old v = record { field_name = k; old_value = old; new_value = v; applied = true }

-- The loop of the default reconciler over the desired fields.
unfoldable pub changes_to :
    {V : Type 0} → (V → String) → Map String V → Map String V → List (ReconciliationChange V)
changes_to text [] actual = []
changes_to text ((k, v) ∷ desired) actual =
    let rest = changes_to text desired actual in
    elim (get k actual) [
      | none ↦ change_of k none v ∷ rest
      | some w ↦ if equal text v w then rest else change_of k (some w) v ∷ rest
    ]

-- `DefaultReconciler.Reconcile`
unfoldable pub default_reconciler : {M : Type 0} {V : Type 0} → (V → String) → Reconciler M V
unfolding changes_to
default_reconciler text m id desired actual = (
  m,
  ok (record {
    entity_id = id;
    success = true;
    changes = changes_to text (fields desired) (fields actual);
    errors = [];
    dry_run = false;
    duration = 0;
  }),
)

abbrev pub States : {V : Type 0} → Database (Option (Map String V)) → Type 0
States {V = V} database = StateStore (Option (Map String V)) database

module _ (M : Type 0) {V : Type 0} (database : Database (Option (Map String V))) where
  pub record ReconciliationEngine : Type 0 where
    pub state_store : States database
    pub reconcilers : Map String (Reconciler M V)

  unfoldable pub register_reconciler :
      ReconciliationEngine → String → Reconciler M V → ReconciliationEngine
  register_reconciler e entity_type r = record e { reconcilers = put entity_type r e.reconcilers }

  -- What is done with the answer of the reconciler. With an error of the store the result is returned
  -- beside it.
  unfoldable pub settle :
      ReconciliationEngine
      → ℕ
      → ℕ
      → ReconciliationRequest V
      → ReconciliationResult V
      → ReconciliationEngine × Option Error × ReconciliationResult V
  settle e now lasted req r =
      let result : ReconciliationResult V = record r { duration = lasted; dry_run = req.dry_run } in
      let updated =
        update_desired_state (Option (Map String V)) database e.state_store now req.entity_id
          req.desired_state in
      if not req.dry_run && r.success
      then (
        record e { state_store = updated.0 },
        elim (updated.1) [ none ↦ none | some x ↦ some (store_error x) ],
        result,
      )
      else (e, none, result)

  -- `Reconcile`: the engine, the machine, and the error and the result, either of which may be nil. The
  -- reconciler is not told of a dry run.
  unfoldable pub reconcile :
      ReconciliationEngine
      → M
      → ℕ
      → ℕ
      → ReconciliationRequest V
      → ReconciliationEngine × M × Option Error × Option (ReconciliationResult V)
  unfolding settle
  reconcile e m now lasted req =
      elim (get_state (Option (Map String V)) database e.state_store req.entity_id) [
        | none ↦ (e, m, some (store_error (Store.not_found req.entity_id)), none)
        | some p ↦
            let state = e.state_store.heap p in
            elim (get state.state_type e.reconcilers) [
              | none ↦ (e, m, some (no_reconciler state.state_type), none)
              | some r ↦
                  let (m', answer) = r m req.entity_id req.desired_state state.actual_state in
                  elim answer [
                    | err x ↦ (e, m', some x, none)
                    | ok result ↦
                        let (e', x, result') = settle e now lasted req result in
                        (e', m', x, some result')
                  ]
            ]
      ]
