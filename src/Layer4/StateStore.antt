-- ===== src/Layer4/StateStore.antt =====
-- layer4/state_store.go and the types of layer4/types.go that it uses. The states are shared: the
-- store holds pointers, and `heap p` is the state behind the pointer `p`. Each method holds the lock
-- for its whole body. `now` stands for `time.Now()`. The database is a parameter that is only written:
-- its errors are printed and ignored, so `persist` and `remove` give the database afterwards.
pub mod History
pub mod Sharing
use aizo.Prelude.{
  ℕ, ◌+◌, ◌-◌, String, Bool, true, false, not, ◌&&◌, Option, none, some, List, [], ◌∷◌, ◌++◌,
  if◌then◌else◌, Map, get, put, delete, values, length, ltb, ◌==◌, string_eq, nat_eq, select,
  some_of, drop,
}
use aizo.Prelude.Int.{ℤ, pos, pos_part, ltb_ℤ}

pub data ChangeType : Type 0 where
  create update_change delete_change : ChangeType

pub record StateChange : Type 0 where
  pub entity_id : String
  pub timestamp : ℕ
  pub change_type : ChangeType

pub data Error : Type 0 where
  empty_id : Error
  not_found : String → Error

-- `J` is a `map[string]interface{}`, which the store only passes on.
pub record EntityState (J : Type 0) : Type 0 where
  pub entity_id : String
  pub state_type : String
  pub status : String
  pub desired_state : J
  pub actual_state : J
  pub last_updated : ℕ
  pub last_seen : ℕ
  pub version : ℕ
  pub drift : Option Bool

-- The tables that the store writes to.
pub record Database (J : Type 0) : Type 1 where
  pub D : Type 0
  pub persist : EntityState J → D → D
  pub remove : String → D → D

module _ (J : Type 0) (database : Database J) where
  open database use {D, persist, remove}

  abbrev pub Heap : Type 0
  Heap = ℕ → EntityState J

  abbrev pub write : Heap → ℕ → EntityState J → Heap
  write heap p e q = if q == p then e else heap q

  pub record StateStore : Type 0 where
    pub heap : Heap
    pub states : Map String ℕ
    pub history : Map String (List StateChange)
    pub db : Option D

  -- `NewStateStore`: `rows` are the pointers to the states that the scan of the table makes, in its
  -- order; there are none without a database.
  unfoldable pub load_from_db : Heap → List ℕ → Map String ℕ → Map String ℕ
  load_from_db heap [] m = m
  load_from_db heap (p ∷ rows) m = load_from_db heap rows (put (heap p).entity_id p m)

  unfoldable pub new_state_store : Heap → Option (D × List ℕ) → StateStore
  unfolding load_from_db
  new_state_store heap none = record { heap = heap; states = []; history = []; db = none }
  new_state_store heap (some (d, rows)) = record {
    heap = heap;
    states = load_from_db heap rows [];
    history = [];
    db = some d;
  }

  abbrev pub changes : StateStore → String → List StateChange
  changes s id = elim (get id s.history) [ none ↦ [] | some cs ↦ cs ]

  -- `s.history[id] = append(s.history[id], change)`
  abbrev pub note : String → ChangeType → ℕ → StateStore → StateStore
  note id change now s = record s {
    history =
        put id
          (changes s id ++ record { entity_id = id; timestamp = now; change_type = change } ∷ [])
          s.history;
  }

  abbrev pub save : EntityState J → Option D → Option D
  save state none = none
  save state (some d) = some (persist state d)

  -- `Set` of the pointer `p`.
  unfoldable pub set_state : StateStore → ℕ → ℕ → StateStore × Option Error
  set_state s now p =
      let state = s.heap p in
      let id = state.entity_id in
      if id == ""
      then (s, some empty_id)
      else let version : ℕ = elim (get id s.states) [
        | none ↦ 1
        | some q ↦ (s.heap q).version + 1
      ] in
        let change : ChangeType = elim (get id s.states) [
          | none ↦ create
          | some q ↦ update_change
        ] in
        let state' = record state { version = version; last_updated = now } in
        (
          note id change now (record s {
            heap = write s.heap p state';
            states = put id p s.states;
            db = save state' s.db;
          }),
          none,
        )

  -- `Get` answers a pointer.
  unfoldable pub get_state : StateStore → String → Option ℕ
  get_state s id = get id s.states

  unfoldable pub delete_state : StateStore → ℕ → String → StateStore × Option Error
  delete_state s now id = elim (get id s.states) [
    | none ↦ (s, some (not_found id))
    | some p ↦ (
      note id delete_change now (record s {
        states = delete id s.states;
        db = elim s.db [ none ↦ none | some d ↦ some (remove id d) ];
      }),
      none,
    )
  ]

  unfoldable pub list_states : StateStore → List ℕ
  list_states s = values s.states

  -- A change of the state behind the pointer of an id, as the two `Update` methods make it.
  abbrev pub modify :
      (EntityState J → EntityState J) → StateStore → String → StateStore × Option Error
  modify f s id = elim (get id s.states) [
    | none ↦ (s, some (not_found id))
    | some p ↦
        let state' = f (s.heap p) in
        (record s { heap = write s.heap p state'; db = save state' s.db }, none)
  ]

  unfoldable pub update_desired_state : StateStore → ℕ → String → J → StateStore × Option Error
  update_desired_state s now id desired =
      modify
        (λ state. record state {
          desired_state = desired;
          last_updated = now;
          version = state.version + 1;
        })
        s id

  unfoldable pub update_actual_state : StateStore → ℕ → String → J → StateStore × Option Error
  update_actual_state s now id actual =
      modify
        (λ state. record state {
          actual_state = actual;
          last_seen = now;
          last_updated = now;
          version = state.version + 1;
        })
        s id

  -- `GetHistory`: the last `limit` changes, or all if the limit is not positive.
  unfoldable pub get_history : StateStore → String → ℤ → List StateChange
  get_history s id limit =
      let h = changes s id in
      if ltb_ℤ (pos 0) limit && ltb (pos_part limit) (length h)
      then drop (length h - pos_part limit) h
      else h

  -- `GetSystemState`: the map is copied, the states in it are not.
  pub record SystemState : Type 0 where
    pub entities : Map String ℕ
    pub timestamp : ℕ

  unfoldable pub copy_entries : List (String × ℕ) → Map String ℕ → Map String ℕ
  copy_entries [] m = m
  copy_entries ((id, p) ∷ es) m = copy_entries es (put id p m)

  unfoldable pub get_system_state : StateStore → ℕ → SystemState
  unfolding copy_entries
  get_system_state s now = record { entities = copy_entries s.states []; timestamp = now }

  pub record StateQuery : Type 0 where
    pub entity_ids : List String
    pub entity_types : List String
    pub status : List String
    pub has_drift : Option Bool

  abbrev pub listed : List String → String → Bool
  listed [] s = true
  listed (x ∷ xs) s = some_of (λ t. s == t) (x ∷ xs)

  abbrev pub drifts : EntityState J → Bool
  drifts state = elim state.drift [ none ↦ false | some b ↦ b ]

  abbrev pub same_flag : Bool → Bool → Bool
  same_flag true b = b
  same_flag false b = not b

  unfoldable pub matches_query : EntityState J → StateQuery → Bool
  matches_query state q =
      listed q.entity_ids state.entity_id
      && (listed q.entity_types state.state_type
          && (listed q.status state.status
              && elim q.has_drift [ none ↦ true | some b ↦ same_flag b (drifts state) ]))

  unfoldable pub query_states : StateStore → StateQuery → List ℕ
  unfolding matches_query
  query_states s q = select (λ p. matches_query (s.heap p) q) (values s.states)
