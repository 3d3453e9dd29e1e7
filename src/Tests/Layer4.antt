-- ===== src/Tests/Layer4.antt =====
-- Runs of the state store (layer4/state_store.go), with a database that holds the ids written.
use aizo.Prelude.{
  ◌⊎◌, All, values, ◌<◌, Distinct, ℕ, zero, suc, ◌≡◌, ◌≢◌, refl, String, none, some, List, [], ◌∷◌,
  get, put, is_some, ne_of_test, String_discrete, string_eq,
}
use aizo.Layer4.StateStore.{
  EntityState, Database, StateStore, new_state_store, set_state, changes, SystemState,
}
use aizo.Layer4.StateStore.History.{
  set_call, delete_call, actual_call, step, run, follow, follow-run_new,
}
use aizo.Layer4.StateStore.Sharing.{
  IsKeyed, new-IsKeyed, step-IsKeyed, state_of, state_of-step_other,
}
use aizo.Layer4.StateHistory.{
  StateHistory, Snapshot, new_state_history, create_snapshot, get_state_at_time, ok, err,
  no_snapshot_before,
}
use aizo.Layer4.StateHistory.Travel.{Latest, get_state_at_time-Latest}

db-ne-web : ◌≢◌ {A = String} "db" "web"
unfolding String_discrete
db-ne-web = ne_of_test "db" "web" refl

abbrev ids : Database ℕ
ids = record { D = List String; persist = λ e d. e.entity_id ∷ d; remove = λ id d. d }

abbrev state : String → EntityState ℕ
state id = record {
  entity_id = id;
  state_type = "container";
  status = "online";
  desired_state = 1;
  actual_state = 0;
  last_updated = 0;
  last_seen = 0;
  version = 0;
  drift = none;
}

abbrev heap : ℕ → EntityState ℕ
heap zero = state "db"
heap (suc p) = state "web"

abbrev empty : StateStore ℕ ids
empty = new_state_store ℕ ids heap none

abbrev store : StateStore ℕ ids
store = step ℕ ids (step ℕ ids empty (set_call 1 0)) (set_call 2 1)

store-IsKeyed : IsKeyed ℕ ids store
store-IsKeyed =
    step-IsKeyed ℕ ids _ (set_call 2 1)
      (step-IsKeyed ℕ ids _ (set_call 1 0) (new-IsKeyed ℕ ids heap none))

follow-run_new_example :
    follow
      (is_some (get "db" empty.states))
      (changes ℕ ids (run ℕ ids empty (set_call 1 0 ∷ delete_call 2 "db" ∷ set_call 3 0 ∷ [])) "db")
    ≡ some (
        is_some (
          get "db"
            (run ℕ ids empty (set_call 1 0 ∷ delete_call 2 "db" ∷ set_call 3 0 ∷ [])).states))
follow-run_new_example =
    follow-run_new ℕ ids heap none (set_call 1 0 ∷ delete_call 2 "db" ∷ set_call 3 0 ∷ []) "db"

state_of-step_other_example :
    state_of ℕ ids (step ℕ ids store (actual_call 3 "db" 7)) "web" ≡ state_of ℕ ids store "web"
state_of-step_other_example =
    state_of-step_other ℕ ids store (actual_call 3 "db" 7) "web" store-IsKeyed db-ne-web

db_named : (empty.heap 0).entity_id ≢ ""
unfolding new_state_store String_discrete
db_named = ne_of_test "db" "" refl

abbrev stored_db : EntityState ℕ
stored_db = record (state "db") { version = 1; last_updated = 1 }

db_is_stored : state_of ℕ ids store "db" ≡ some stored_db
unfolding state_of step set_state new_state_store get put String_discrete
    native.Mathlib.Decide.ℕ_discrete
db_is_stored = refl

abbrev seen : SystemState ℕ ids
seen = record { entities = ("db", 0) ∷ ("web", 1) ∷ []; timestamp = 3 }

abbrev seen_later : SystemState ℕ ids
seen_later = record { entities = ("web", 1) ∷ []; timestamp = 8 }

abbrev snapshots : StateHistory ℕ ids
snapshots =
    (create_snapshot ℕ ids (create_snapshot ℕ ids (new_state_history ℕ ids) 3 "s1" seen "" []).0 8
      "s2" seen_later "" []).0

get_state_at_time-Latest_example :
    ((get_state_at_time ℕ ids snapshots 5 ≡ err (no_snapshot_before 5))
      × All (λ r. 5 < r.timestamp) (values snapshots.snapshots))
    ⊎ ((s : Snapshot ℕ ids) × Latest ℕ ids 5 (values snapshots.snapshots) s
        × (get_state_at_time ℕ ids snapshots 5 ≡ ok s.state))
get_state_at_time-Latest_example = get_state_at_time-Latest ℕ ids snapshots 5

seen-Distinct : Distinct seen.entities
unfolding get String_discrete
seen-Distinct = (refl, (refl, tt))

seen_later-Distinct : Distinct seen_later.entities
unfolding get
seen_later-Distinct = (refl, tt)
