-- ===== src/Tests/Reconciliation.antt =====
-- Runs of the drift detection and of a reconciliation (layer4), on values that are texts.
use mathlib.Core.List.{Memᴰ}
use aizo.Prelude.{
  suc, Bool, List, ℕ, ◌≡◌, ◌↔◌, refl, String, true, false, Option, none, some, [], ◌∷◌, Map, get,
  Distinct, string_eq, String_discrete,
}
use aizo.Layer4.ChangeDetector.{detect_drift, fields}
use aizo.Layer4.ChangeDetector.Drift.{shown, detect_drift-eq-false_iff}
use aizo.Layer4.StateStore.{EntityState, Database}
use aizo.Layer4.Reconciliation.{
  ReconciliationEngine, ReconciliationRequest, ReconciliationChange, Reconciler, ok,
  default_reconciler, reconcile,
}
use aizo.Layer4.Reconciliation.Changes.{IsChange}
use aizo.Layer4.Reconciliation.DryRun.{changes_of, request_for, reconcile-dry_run}
use aizo.Layer4.Reconciliation.Repeated.{reconcile-again}

abbrev itself : String → String
itself s = s

abbrev ratio : ℕ → ℕ → ℕ
ratio a b = a

abbrev wanted : Map String String
wanted = ("port", "80") ∷ []

abbrev found : Map String String
found = ("port", "81") ∷ []

wanted-Distinct : Distinct wanted
unfolding get
wanted-Distinct = (refl, tt)

found-Distinct : Distinct found
unfolding get
found-Distinct = (refl, tt)

detect_drift-eq-false_iff_example :
    ((detect_drift itself 0 ratio 5 (some wanted) (some found)).has_drift ≡ false)
    ↔ ((k : String) → shown itself 0 ratio (get k wanted) ≡ shown itself 0 ratio (get k found))
detect_drift-eq-false_iff_example =
    detect_drift-eq-false_iff itself 0 ratio 5 wanted found wanted-Distinct found-Distinct

abbrev no_tables : Database (Option (Map String String))
no_tables = record { D = Unit {0}; persist = λ e d. d; remove = λ id d. d }

abbrev web : EntityState (Option (Map String String))
web = record {
  entity_id = "web";
  state_type = "container";
  status = "online";
  desired_state = none;
  actual_state = some found;
  last_updated = 0;
  last_seen = 0;
  version = 1;
  drift = none;
}

abbrev engine : ReconciliationEngine ℕ no_tables
engine = record {
  state_store = record { heap = λ p. web; states = ("web", 0) ∷ []; history = []; db = none };
  reconcilers = ("container", default_reconciler itself) ∷ [];
}

abbrev request : ReconciliationRequest String
request = record { entity_id = "web"; desired_state = some wanted; force = false; dry_run = false }

web_is_stored : get "web" engine.state_store.states ≡ some 0
unfolding get String_discrete
web_is_stored = refl

container_reconciler : get web.state_type engine.reconcilers ≡ some (default_reconciler itself)
unfolding get String_discrete
container_reconciler = refl

-- A reconciler that does something: the machine counts how often.
abbrev busy : Reconciler ℕ String
busy m id desired actual = (
  suc m,
  ok (record {
    entity_id = id;
    success = true;
    changes = [];
    errors = [];
    dry_run = false;
    duration = 0;
  }),
)

abbrev busy_engine : ReconciliationEngine ℕ no_tables
busy_engine = record engine { reconcilers = ("container", busy) ∷ [] }

abbrev trial : Bool → ReconciliationRequest String
trial dry = request_for ℕ no_tables "web" (some wanted) false dry

reconcile-dry_run_example :
    let dry = reconcile ℕ no_tables busy_engine 4 7 1 (trial true) in
    let real = reconcile ℕ no_tables busy_engine 4 7 1 (trial false) in
    (dry.0 ≡ busy_engine)
    × (dry.1 ≡ real.1)
    × (dry.2 ≡ real.2)
    × (changes_of dry.3 ≡ changes_of real.3)
reconcile-dry_run_example =
    reconcile-dry_run ℕ no_tables busy_engine 4 7 1 "web" (some wanted) false

-- The dry run has acted on the machine.
trial_acts : (reconcile ℕ no_tables busy_engine 4 7 1 (trial true)).1 ≡ 5
unfolding reconcile aizo.Layer4.StateStore.get_state get String_discrete
trial_acts = refl

reconcile-again_example :
    let first = reconcile ℕ no_tables engine 4 7 1 request in
    let again = reconcile ℕ no_tables first.0 first.1 8 1 request in
    (first.2 ≡ none)
    × (again.2 ≡ none)
    × (again.1 ≡ 4)
    × ((again.0.state_store.heap 0).actual_state ≡ web.actual_state)
    × ((changes : List (ReconciliationChange String)) × (changes_of first.3 ≡ some changes)
        × (changes_of again.3 ≡ some changes)
        × ((ch : ReconciliationChange String)
            → Memᴰ ch changes
              ↔ IsChange itself (fields request.desired_state) (fields web.actual_state) ch))
reconcile-again_example =
    reconcile-again ℕ no_tables itself engine 4 7 1 8 1 request 0 web_is_stored container_reconciler
      refl wanted-Distinct
