-- ===== src/Layer4/StateStore/History.antt =====
-- The histories that the state store keeps (layer4/state_store.go), against the life of each state.
use aizo.Prelude.{
  ℕ, ◌-◌, ◌<◌, ◌≡◌, ap, refl, String, Bool, true, false, Option, none, some, List, [], ◌∷◌, ◌++◌,
  if◌then◌else◌, ltb, get, put, delete, length, is_some, get-put, get-delete, arith, ◌==◌,
  string_eq, nat_eq, Option-cases, Bool-cases, inl, inr, take, take-append-drop, length-drop,
}
use aizo.Prelude.Int.{pos}
use aizo.Layer4.StateStore.{
  new_state_store, ChangeType, create, update_change, delete_change, StateChange, EntityState,
  Database, StateStore, changes, set_state, delete_state, update_desired_state, update_actual_state,
  get_history,
}

-- What one entry of a history does to the state of its id, which stands (`true`) or not. `none`:
-- the entry has no place there.
unfoldable pub follow_one : Bool → ChangeType → Option Bool
follow_one false create = some true
follow_one true create = none
follow_one false update_change = none
follow_one true update_change = some true
follow_one false delete_change = none
follow_one true delete_change = some false

unfoldable pub follow : Bool → List StateChange → Option Bool
follow b [] = some b
follow b (c ∷ cs) = elim (follow_one b c.change_type) [ none ↦ none | some b' ↦ follow b' cs ]

follow-snoc :
    (b b' : Bool) (cs : List StateChange) (c : StateChange)
    → follow b cs ≡ some b'
    → follow b (cs ++ c ∷ []) ≡ follow_one b' c.change_type
unfolding follow
follow-snoc b b' [] c h = elim (Option-cases (follow_one b c.change_type)) [
  | inl e ↦ ground arith
  | inr (b'', e) ↦ ground arith
]
follow-snoc b b' (d ∷ cs) c h = elim (Option-cases (follow_one b d.change_type)) [
  | inl e ↦ ground arith
  | inr (b'', e) ↦ ground (arith, follow-snoc b'' b' cs c)
]

module _ (J : Type 0) (database : Database J) where
  pub data Call : Type 0 where
    set_call : ℕ → ℕ → Call
    delete_call : ℕ → String → Call
    desired_call : ℕ → String → J → Call
    actual_call : ℕ → String → J → Call

  unfoldable pub step : StateStore J database → Call → StateStore J database
  unfolding set_state delete_state update_desired_state update_actual_state
  step s (set_call now p) = (set_state J database s now p).0
  step s (delete_call now id) = (delete_state J database s now id).0
  step s (desired_call now id j) = (update_desired_state J database s now id j).0
  step s (actual_call now id j) = (update_actual_state J database s now id j).0

  unfoldable pub run : StateStore J database → List Call → StateStore J database
  run s [] = s
  run s (c ∷ cs) = run (step s c) cs

  -- The history of an id fits what its state goes through from the start: it
  -- can be followed, and it
  -- ends with a state exactly when the store has one.
  abbrev pub IsFollowed : (String → Bool) → StateStore J database → Type 0
  IsFollowed start s =
      (id : String) → follow (start id) (changes J database s id) ≡ some (is_some (get id s.states))

  -- An entry that fits what happens to the state of its id keeps the histories right.
  note-IsFollowed :
      (start : String → Bool) (s t : StateStore J database) (id : String) (c : StateChange)
      (b : Bool)
      → IsFollowed start s
      → t.history ≡ put id (changes J database s id ++ c ∷ []) s.history
      → follow_one (is_some (get id s.states)) c.change_type ≡ some b
      → ((j : String)
          → is_some (get j t.states) ≡ (if j == id then b else is_some (get j s.states)))
      → IsFollowed start t
  note-IsFollowed start s t id c b h noted fits states j =
      let cs = changes J database s id in
      ground (
        arith,
        get-put id j (cs ++ c ∷ []) s.history,
        h j,
        states j,
        follow-snoc (start id) (is_some (get id s.states)) cs c,
        noted,
        h id,
        ap start,
      )

  set_state-IsFollowed :
      (start : String → Bool) (s : StateStore J database) (now p : ℕ)
      → IsFollowed start s
      → IsFollowed start (set_state J database s now p).0
  unfolding set_state follow_one
  set_state-IsFollowed start s now p h =
      let id = (s.heap p).entity_id in
      let t = (set_state J database s now p).0 in
      let put_state : (j : String)
          → is_some (get j (put id p s.states))
            ≡ (if j == id then true else is_some (get j s.states)) =
        λ j. ground (arith, get-put id j p s.states) in
      elim (Bool-cases (id == "")) [
        | inl e ↦ let same : t ≡ s = ground arith in λ j. ground (arith, same, h j)
        | inr e ↦ elim (Option-cases (get id s.states)) [
          | inl g ↦
              let states : t.states ≡ put id p s.states = ground arith in
              note-IsFollowed start s t id
                (record { entity_id = id; timestamp = now; change_type = create }) true h
                (ground arith) (ground arith) (rw (states) put_state)
          | inr (q, g) ↦
              let states : t.states ≡ put id p s.states = ground arith in
              note-IsFollowed start s t id
                (record { entity_id = id; timestamp = now; change_type = update_change }) true h
                (ground arith) (ground arith) (rw (states) put_state)
        ]
      ]

  delete_state-IsFollowed :
      (start : String → Bool) (s : StateStore J database) (now : ℕ) (id : String)
      → IsFollowed start s
      → IsFollowed start (delete_state J database s now id).0
  unfolding delete_state follow_one
  delete_state-IsFollowed start s now id h =
      let t = (delete_state J database s now id).0 in
      elim (Option-cases (get id s.states)) [
        | inl e ↦ let same : t ≡ s = ground arith in λ j. ground (arith, same, h j)
        | inr (p, e) ↦
            let states : t.states ≡ delete id s.states = ground arith in
            note-IsFollowed start s t id
              (record { entity_id = id; timestamp = now; change_type = delete_change }) false h
              (ground arith) (ground arith) (λ j. ground (arith, states, get-delete id j s.states))
      ]

  step-IsFollowed :
      (start : String → Bool) (s : StateStore J database) (c : Call)
      → IsFollowed start s
      → IsFollowed start (step s c)
  unfolding step
  step-IsFollowed start s (set_call now p) h = set_state-IsFollowed start s now p h
  step-IsFollowed start s (delete_call now i) h = delete_state-IsFollowed start s now i h
  step-IsFollowed start s (desired_call now i j) h = λ id. ground (arith, h id)
  step-IsFollowed start s (actual_call now i j) h = λ id. ground (arith, h id)

  run-IsFollowed :
      (start : String → Bool) (s : StateStore J database) (cs : List Call)
      → IsFollowed start s
      → IsFollowed start (run s cs)
  unfolding run
  run-IsFollowed start s [] h = h
  run-IsFollowed start s (c ∷ cs) h =
      run-IsFollowed start (step s c) cs (step-IsFollowed start s c h)

  -- After any calls on a new store, the history of an id can be followed from the state it had when
  -- the store was made (one that was loaded from the database, or none): a creation only where it has
  -- no state, an update or a deletion only where it has one. It ends with a state exactly when the
  -- store has one.
  pub follow-run_new :
      (heap : ℕ → EntityState J) (loaded : Option (database.D × List ℕ)) (cs : List Call)
      (id : String)
      → let s = new_state_store J database heap loaded in
        follow (is_some (get id s.states)) (changes J database (run s cs) id)
        ≡ some (is_some (get id (run s cs).states))
  unfolding new_state_store follow get
  follow-run_new heap none cs id =
      run-IsFollowed (λ j. false) (new_state_store J database heap none) cs (λ j. refl) id
  follow-run_new heap (some l) cs id =
      let s = new_state_store J database heap (some l) in
      run-IsFollowed (λ j. is_some (get j s.states)) s cs (λ j. ground arith) id

  -- `GetHistory` with a positive limit gives the end of the history of the id: what is left out
  -- comes before, and the length is the smaller of the two.
  pub get_history-end :
      (s : StateStore J database) (id : String) (n : ℕ)
      → 0 < n
      → let cs = changes J database s id in
        let recent = get_history J database s id (pos n) in
        ((take (length cs - length recent) cs ++ recent) ≡ cs)
        × (length recent ≡ (if ltb n (length cs) then n else length cs))
  unfolding get_history
  get_history-end s id n h =
      let cs = changes J database s id in
      ground (
        arith,
        length-drop (length cs - n) cs,
        take-append-drop (length cs - n) cs,
        take-append-drop 0 cs,
      )
