-- ===== src/Layer4/StateStore/Sharing.antt =====
-- Which states a call on the state store (layer4/state_store.go) changes, the states being shared with
-- what `GetSystemState` answered, and so with the snapshots of layer4/state_history.go.
use aizo.Prelude.{
  ℕ, ◌+◌, ◌≡◌, ap, ◌≢◌, ◌⊎◌, refl, String, Option, none, some, List, [], ◌∷◌, Map, get, put,
  get-put, get-delete, Distinct, put-Distinct, delete-Distinct, arith, string_eq, nat_eq,
  Option-cases, inl, inr,
}
use aizo.Layer4.StateStore.{
  EntityState, Database, StateStore, set_state, delete_state, update_desired_state,
  update_actual_state, write, copy_entries, get_system_state, SystemState, new_state_store,
  load_from_db,
}
use aizo.Layer4.StateStore.History.{
  Call, set_call, delete_call, desired_call, actual_call, step, run,
}

module _ (J : Type 0) (database : Database J) where
  -- The state of an id, read through its pointer.
  unfoldable pub state_of : StateStore J database → String → Option (EntityState J)
  state_of s id = elim (get id s.states) [ none ↦ none | some p ↦ some (s.heap p) ]

  -- A state stands under its own id, and so under no other.
  pub record IsKeyed (s : StateStore J database) : Type 0 where
    pub distinct : Distinct s.states
    pub own_id : (id : String) (p : ℕ) → get id s.states ≡ some p → (s.heap p).entity_id ≡ id

  -- The id that a call is about.
  abbrev pub subject : StateStore J database → Call J database → String
  subject s (set_call now p) = (s.heap p).entity_id
  subject s (delete_call now id) = id
  subject s (desired_call now id j) = id
  subject s (actual_call now id j) = id

  write-own_id :
      (heap : ℕ → EntityState J) (p q : ℕ) (e : EntityState J)
      → e.entity_id ≡ (heap p).entity_id
      → (write J database heap p e q).entity_id ≡ (heap q).entity_id
  write-own_id heap p q e same = ground (arith, ap heap)

  step-heap_id :
      (s : StateStore J database) (c : Call J database) (q : ℕ)
      → ((step J database s c).heap q).entity_id ≡ (s.heap q).entity_id
  unfolding step set_state delete_state update_desired_state update_actual_state
  step-heap_id s (set_call now p) q = ground (arith, ap s.heap)
  step-heap_id s (delete_call now id) q = ground arith
  step-heap_id s (desired_call now id j) q = ground (arith, ap s.heap)
  step-heap_id s (actual_call now id j) q = ground (arith, ap s.heap)

  step-own_id :
      (s : StateStore J database) (c : Call J database) (id : String) (p : ℕ)
      → get id (step J database s c).states ≡ some p
      → (get id s.states ≡ some p) ⊎ ((s.heap p).entity_id ≡ id)
  unfolding step set_state delete_state update_desired_state update_actual_state
  step-own_id s (set_call now p) id q h = ground (arith, get-put (s.heap p).entity_id id p s.states)
  step-own_id s (delete_call now i) id q h = ground (arith, get-delete i id s.states)
  step-own_id s (desired_call now i j) id q h = ground arith
  step-own_id s (actual_call now i j) id q h = ground arith

  step-Distinct :
      (s : StateStore J database) (c : Call J database)
      → Distinct s.states
      → Distinct (step J database s c).states
  unfolding step set_state delete_state update_desired_state update_actual_state
  step-Distinct s (set_call now p) d = ground (arith, put-Distinct (s.heap p).entity_id p s.states)
  step-Distinct s (delete_call now i) d = ground (arith, delete-Distinct i s.states)
  step-Distinct s (desired_call now i j) d = ground arith
  step-Distinct s (actual_call now i j) d = ground arith

  pub step-IsKeyed :
      (s : StateStore J database) (c : Call J database) → IsKeyed s → IsKeyed (step J database s c)
  step-IsKeyed s c k = record {
    distinct = step-Distinct s c k.distinct;
    own_id = λ id p h. ground (arith, step-own_id s c id p h, step-heap_id s c p, k.own_id id p);
  }

  pub run-IsKeyed :
      (s : StateStore J database) (cs : List (Call J database))
      → IsKeyed s
      → IsKeyed (run J database s cs)
  unfolding run
  run-IsKeyed s [] k = k
  run-IsKeyed s (c ∷ cs) k = run-IsKeyed (step J database s c) cs (step-IsKeyed s c k)

  load_from_db-IsKeyed :
      (h : ℕ → EntityState J) (rows : List ℕ) (m : Map String ℕ)
      → Distinct m
      → ((id : String) (p : ℕ) → get id m ≡ some p → (h p).entity_id ≡ id)
      → Distinct (load_from_db J database h rows m)
        × ((id : String) (p : ℕ)
            → get id (load_from_db J database h rows m) ≡ some p
            → (h p).entity_id ≡ id)
  unfolding load_from_db
  load_from_db-IsKeyed h [] m d k = (d, k)
  load_from_db-IsKeyed h (q ∷ rows) m d k =
      load_from_db-IsKeyed h rows (put (h q).entity_id q m) (put-Distinct (h q).entity_id q m d)
        (λ id p e. ground (arith, get-put (h q).entity_id id q m, k id p))

  -- In a new store every state stands under its own id, loaded states too.
  pub new-IsKeyed :
      (heap : ℕ → EntityState J) (loaded : Option (database.D × List ℕ))
      → IsKeyed (new_state_store J database heap loaded)
  unfolding new_state_store get
  new-IsKeyed heap none = record { distinct = tt; own_id = λ id p h. absurd (ground arith) }
  new-IsKeyed heap (some (d, rows)) =
      let (distinct, own) =
        load_from_db-IsKeyed heap rows [] tt (λ id p h. absurd (ground arith)) in
      record { distinct = distinct; own_id = own }

  step-states_other :
      (s : StateStore J database) (c : Call J database) (j : String)
      → subject s c ≢ j
      → get j (step J database s c).states ≡ get j s.states
  unfolding step set_state delete_state update_desired_state update_actual_state
  step-states_other s (set_call now p) j h =
      ground (arith, get-put (s.heap p).entity_id j p s.states)
  step-states_other s (delete_call now i) j h = ground (arith, get-delete i j s.states)
  step-states_other s (desired_call now i d) j h = ground arith
  step-states_other s (actual_call now i d) j h = ground arith

  step-heap_other :
      (s : StateStore J database) (c : Call J database) (q : ℕ)
      → IsKeyed s
      → subject s c ≢ (s.heap q).entity_id
      → (step J database s c).heap q ≡ s.heap q
  unfolding step set_state delete_state update_desired_state update_actual_state
  step-heap_other s (set_call now p) q k h = ground (arith, ap s.heap)
  step-heap_other s (delete_call now i) q k h = ground arith
  step-heap_other s (desired_call now i d) q k h = ground (arith, ap s.heap, k.own_id i q)
  step-heap_other s (actual_call now i d) q k h = ground (arith, ap s.heap, k.own_id i q)

  -- In a store where every state stands under its own id, a call about one id leaves the state that
  -- every other id has as it was.
  pub state_of-step_other :
      (s : StateStore J database) (c : Call J database) (j : String)
      → IsKeyed s
      → subject s c ≢ j
      → state_of (step J database s c) j ≡ state_of s j
  unfolding state_of
  state_of-step_other s c j k other = elim (Option-cases (get j s.states)) [
    | inl e ↦ ground (arith, step-states_other s c j)
    | inr (q, e) ↦ ground (arith, step-states_other s c j, step-heap_other s c q k, k.own_id j q)
  ]

  -- `Set` of a state with an id stores it under the id, with the version after the one of the state
  -- that stood there, or 1, and the time of the call.
  pub state_of-set_state :
      (s : StateStore J database) (now p : ℕ)
      → (s.heap p).entity_id ≢ ""
      → let id = (s.heap p).entity_id in
        let old : ℕ = elim (state_of s id) [ none ↦ 0 | some e ↦ e.version ] in
        state_of (set_state J database s now p).0 id
        ≡ some (record (s.heap p) { version = old + 1; last_updated = now })
  unfolding state_of set_state
  state_of-set_state s now p named =
      let id = (s.heap p).entity_id in
      elim (Option-cases (get id s.states)) [
        | inl e ↦ ground (arith, get-put id id p s.states)
        | inr (q, e) ↦ ground (arith, get-put id id p s.states)
      ]

  get-copy_entries :
      (id : String) (es m : Map String ℕ)
      → Distinct es
      → get id (copy_entries J database es m)
        ≡ elim (get id es) [ none ↦ get id m | some p ↦ some p ]
  unfolding copy_entries get
  get-copy_entries id [] m d = refl
  get-copy_entries id ((j, p) ∷ es) m d =
      ground (arith, get-copy_entries id es (put j p m), get-put j id p m, ap (λ x. get x es))

  -- The state that a system state shows for an id, when the store has come to `s`.
  unfoldable pub shown :
      StateStore J database → SystemState J database → String → Option (EntityState J)
  shown s sys id = elim (get id sys.entities) [ none ↦ none | some p ↦ some (s.heap p) ]

  -- The answer of `GetSystemState` shows every id with the state it has in the store.
  pub shown-get_system_state :
      (s : StateStore J database) (t : ℕ) (id : String)
      → IsKeyed s
      → shown s (get_system_state J database s t) id ≡ state_of s id
  unfolding shown get_system_state state_of get
  shown-get_system_state s t id k = ground (arith, get-copy_entries id s.states [] k.distinct)

  -- A system state that was taken before an update of the actual state of an id shows the updated
  -- state, with the next version, and not the state at the time it was taken.
  pub shown-update_actual_state :
      (s : StateStore J database) (t now : ℕ) (id : String) (actual : J) (e : EntityState J)
      → IsKeyed s
      → state_of s id ≡ some e
      → shown
          (update_actual_state J database s now id actual).0
          (get_system_state J database s t)
          id
        ≡ some (record e {
          actual_state = actual;
          last_seen = now;
          last_updated = now;
          version = e.version + 1;
        })
  unfolding shown get_system_state state_of update_actual_state get
  shown-update_actual_state s t now id actual e k h = elim (Option-cases (get id s.states)) [
    | inl g ↦ ground arith
    | inr (p, g) ↦ ground (arith, get-copy_entries id s.states [] k.distinct)
  ]
