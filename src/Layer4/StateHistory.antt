-- ===== src/Layer4/StateHistory.antt =====
-- layer4/state_history.go. A snapshot holds a system state, which points to the states of the state
-- store: `heap p` is the state behind the pointer `p` when two snapshots are compared. Each method
-- holds the lock for its whole body. `uuid` and `now` stand for a new id and `time.Now()`.
pub mod Travel
pub mod Comparison
use aizo.Prelude.{
  ℕ, ◌-◌, String, Bool, true, false, Option, none, some, List, [], ◌∷◌, ◌++◌, if◌then◌else◌, Map,
  get, put, delete, values, ltb, leb, is_some, ◌==◌, string_eq,
}
use aizo.Layer4.StateStore.{EntityState, Database, SystemState}

pub data Error : Type 0 where
  snapshot_not_found : String → Error
  no_snapshot_before : ℕ → Error

pub record EntityDifference : Type 0 where
  pub entity_id : String
  pub change_type : String
  pub field : String
  pub old_value : Option String
  pub new_value : Option String

-- A difference without a field.
abbrev pub whole : String → String → EntityDifference
whole id change_type = record {
  entity_id = id;
  change_type = change_type;
  field = "";
  old_value = none;
  new_value = none;
}

abbrev pub status_changed : String → String → String → EntityDifference
status_changed id old new = record {
  entity_id = id;
  change_type = "modified";
  field = "status";
  old_value = some old;
  new_value = some new;
}

module _ (J : Type 0) (database : Database J) where
  pub record Snapshot : Type 0 where
    pub id : String
    pub timestamp : ℕ
    pub state : SystemState J database
    pub description : String
    pub tags : List String

  pub record StateHistory : Type 0 where
    pub snapshots : Map String Snapshot

  pub data Result {ℓ} (A : Type ℓ) : Type ℓ where
    ok : A → Result A
    err : Error → Result A

  abbrev pub new_state_history : StateHistory
  new_state_history = record { snapshots = [] }

  unfoldable pub create_snapshot :
      StateHistory
      → ℕ
      → String
      → SystemState J database
      → String
      → List String
      → StateHistory × Snapshot
  create_snapshot h now uuid state description tags =
      let snapshot : Snapshot = record {
        id = uuid;
        timestamp = now;
        state = state;
        description = description;
        tags = tags;
      } in
      (record { snapshots = put uuid snapshot h.snapshots }, snapshot)

  unfoldable pub get_snapshot : StateHistory → String → Result Snapshot
  get_snapshot h id = elim (get id h.snapshots) [
    | none ↦ err (snapshot_not_found id)
    | some s ↦ ok s
  ]

  unfoldable pub list_snapshots : StateHistory → List Snapshot
  list_snapshots h = values h.snapshots

  unfoldable pub delete_snapshot : StateHistory → String → StateHistory × Option Error
  delete_snapshot h id = elim (get id h.snapshots) [
    | none ↦ (h, some (snapshot_not_found id))
    | some s ↦ (record { snapshots = delete id h.snapshots }, none)
  ]

  -- The loop of `GetStateAtTime`: the closest snapshot so far, with its distance.
  abbrev pub closer : ℕ → Option (Snapshot × ℕ) → Bool
  closer diff none = true
  closer diff (some (s, d)) = ltb diff d

  unfoldable pub closest : ℕ → Option (Snapshot × ℕ) → List Snapshot → Option (Snapshot × ℕ)
  closest t best [] = best
  closest t best (s ∷ ss) =
      let diff = t - s.timestamp in
      closest t
        (if leb s.timestamp t then if closer diff best then some (s, diff) else best else best) ss

  unfoldable pub get_state_at_time : StateHistory → ℕ → Result (SystemState J database)
  unfolding closest
  get_state_at_time h t = elim (closest t none (values h.snapshots)) [
    | none ↦ err (no_snapshot_before t)
    | some (s, d) ↦ ok s.state
  ]

  -- The first loop of `CompareSnapshots`, over the entities of the first snapshot.
  unfoldable pub compare_old :
      (ℕ → EntityState J) → List (String × ℕ) → Map String ℕ → List EntityDifference
  compare_old heap [] m = []
  compare_old heap ((id, p) ∷ es) m =
      let rest = compare_old heap es m in
      elim (get id m) [
        | none ↦ whole id "removed" ∷ rest
        | some q ↦
            if (heap p).status == (heap q).status
            then rest
            else status_changed id (heap p).status (heap q).status ∷ rest
      ]

  -- The second loop, over the entities of the second snapshot.
  unfoldable pub compare_new : List (String × ℕ) → Map String ℕ → List EntityDifference
  compare_new [] m = []
  compare_new ((id, p) ∷ es) m =
      let rest = compare_new es m in if is_some (get id m) then rest else whole id "added" ∷ rest

  unfoldable pub differences :
      (ℕ → EntityState J) → SystemState J database → SystemState J database → List EntityDifference
  unfolding compare_old compare_new
  differences heap a b = compare_old heap a.entities b.entities ++ compare_new b.entities a.entities

  unfoldable pub compare_snapshots :
      (ℕ → EntityState J) → StateHistory → String → String → Result (List EntityDifference)
  unfolding differences
  compare_snapshots heap h id1 id2 = elim (get id1 h.snapshots) [
    | none ↦ err (snapshot_not_found id1)
    | some a ↦ elim (get id2 h.snapshots) [
      | none ↦ err (snapshot_not_found id2)
      | some b ↦ ok (differences heap a.state b.state)
    ]
  ]
