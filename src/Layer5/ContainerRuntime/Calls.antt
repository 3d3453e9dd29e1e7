-- ===== src/Layer5/ContainerRuntime/Calls.antt =====
-- Calls on a runtime, and what a restart that fails leaves (layer5/container_runtime.go).
use aizo.Prelude.{
  ℕ, ◌≡◌, ◌≢◌, ◌⊎◌, refl, true, false, inl, inr, ap, ◌∙◌, String, Bool, Option, none, some, List,
  [], ◌∷◌, get, get-put, string_eq, arith, Option-cases,
}
use aizo.Layer5.ContainerRuntime.{
  Container, ContainerRuntime, Error, create_container, start_container, stop_container,
  remove_container, pause_container, unpause_container, restart_container, stopped, exited,
}

-- A call, with the clock's answers. A restart that other calls come between is a stop, these calls and
-- a start.
pub data Call (C : Type 0) : Type 0 where
  create : String → ℕ → C → String → Call C
  start stop : String → ℕ → Call C
  remove : String → Bool → Call C
  pause unpause : String → Call C
  restart : String → ℕ → ℕ → Call C

module _ {C : Type 0} where
  unfoldable pub call : ContainerRuntime C → Call C → ContainerRuntime C × Option Error
  call r (create id now config name) = ((create_container r id now config name).0, none)
  call r (start id now) = start_container r id now
  call r (stop id now) = stop_container r id now
  call r (remove id force) = remove_container r id force
  call r (pause id) = pause_container r id
  call r (unpause id) = unpause_container r id
  call r (restart id now now') = restart_container r (λ r'. r') id now now'

  unfoldable pub run : ContainerRuntime C → List (Call C) → ContainerRuntime C
  run r [] = r
  run r (e ∷ es) = run (call r e).0 es

  stop-failed :
      (r : ContainerRuntime C) (id : String) (now : ℕ)
      → (stop_container r id now).1 ≢ none
      → (stop_container r id now).0 ≡ r
  unfolding stop_container
  stop-failed r id now h = ground arith

  pub restart-failed :
      (r : ContainerRuntime C) (f : ContainerRuntime C → ContainerRuntime C) (id : String)
      (now now' : ℕ) (x : Error)
      → (stop_container r id now).1 ≡ some x
      → restart_container r f id now now' ≡ stop_container r id now
  unfolding restart_container
  restart-failed r f id now now' x e = ground arith

  pub restart-started :
      (r : ContainerRuntime C) (f : ContainerRuntime C → ContainerRuntime C) (id : String)
      (now now' : ℕ)
      → (stop_container r id now).1 ≡ none
      → restart_container r f id now now' ≡ start_container (f (stop_container r id now).0) id now'
  unfolding restart_container
  restart-started r f id now now' e = ground arith

  start-failed :
      (r : ContainerRuntime C) (id : String) (now : ℕ)
      → (start_container r id now).1 ≢ none
      → ((start_container r id now).0 ≡ r)
        × ((get id r.containers ≡ none)
            ⊎ ((c : Container C) × (get id r.containers ≡ some c) × (c.state.running ≡ true)))
  unfolding start_container
  start-failed r id now h = elim (Option-cases (get id r.containers)) [
    | inl e ↦ (ground arith, inl e)
    | inr (c, e) ↦ (ground arith, inr (c, e, ground arith))
  ]

  stop-succeeded :
      (r : ContainerRuntime C) (id : String) (now : ℕ)
      → (stop_container r id now).1 ≡ none
      → (c : Container C) × (get id (stop_container r id now).0.containers ≡ some c)
        × (c.state.running ≡ false)
        × (c.status ≡ exited)
  unfolding stop_container
  stop-succeeded r id now h = elim (Option-cases (get id r.containers)) [
    | inl e ↦ absurd (ground arith)
    | inr (c, e) ↦
        (stopped c now, ground (arith, get-put id id (stopped c now) r.containers), refl, refl)
  ]

  -- A restart that answers an error did one of two things, whatever calls came between its stop and its
  -- start. Either the stop failed, and nothing changed; or the container was stopped, the calls
  -- between removed or started it, so that it is not there or runs, and what they left stands.
  pub restart_container-error :
      (r : ContainerRuntime C) (es : List (Call C)) (id : String) (now now' : ℕ)
      → (restart_container r (λ s. run s es) id now now').1 ≢ none
      → let (stopped_first, e) = stop_container r id now in
        let after = run stopped_first es in
        let result = (restart_container r (λ s. run s es) id now now').0 in
        ((e ≢ none) × (result ≡ r))
        ⊎ ((result ≡ after)
            × ((c : Container C) × (get id stopped_first.containers ≡ some c)
                × (c.state.running ≡ false))
            × ((get id after.containers ≡ none)
                ⊎ ((c : Container C) × (get id after.containers ≡ some c)
                    × (c.state.running ≡ true))))
  restart_container-error r es id now now' h = elim (Option-cases (stop_container r id now).1) [
    | inr (x, e) ↦
        let same = restart-failed r (λ s. run s es) id now now' x e in
        let failed : (stop_container r id now).1 ≢ none = ground arith in
        inl (failed, ap (λ y. y.0) same ∙ stop-failed r id now failed)
    | inl e ↦
        let same = restart-started r (λ s. run s es) id now now' e in
        let (kept, why) =
          start-failed (run (stop_container r id now).0 es) id now'
            (λ p. h (ap (λ y. y.1) same ∙ p)) in
        let (c, g, still, _) = stop-succeeded r id now e in
        inr (ap (λ y. y.0) same ∙ kept, (c, g, still), why)
  ]

  -- A restart that no call comes between fails only as its stop does.
  restart_container-alone :
      (r : ContainerRuntime C) (id : String) (now now' : ℕ)
      → (restart_container r (λ s. s) id now now').1 ≢ none
      → (restart_container r (λ s. s) id now now').0 ≡ r
  unfolding run
  restart_container-alone r id now now' h = elim (restart_container-error r [] id now now' h) [
    | inl (_, same) ↦ same
    | inr (_, (c, g, still), inl gone) ↦ absurd (ground arith)
    | inr (_, (c, g, still), inr (d, f, runs)) ↦
        absurd (ground (arith, ap {A = Container C} (λ x. x.state.running)))
  ]
