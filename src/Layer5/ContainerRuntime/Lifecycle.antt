-- ===== src/Layer5/ContainerRuntime/Lifecycle.antt =====
-- What may happen to a container in its life (layer5/container_runtime.go).
use mathlib.Core.Path.{subst}
use aizo.Prelude.{
  ℕ, ◌≡◌, inl, inr, sym, ap, String, Bool, true, false, some, List, [], ◌∷◌, get, put, delete,
  get-put, get-delete, string_eq, arith, ◌==◌, is_some, Option-cases, Bool-cases,
}
use aizo.Layer5.ContainerRuntime.{
  ContainerStatus, created, running, paused, exited, Container, ContainerRuntime,
  new_container_runtime, create_container, start_container, stop_container, remove_container,
  pause_container, unpause_container, restart_container, started, stopped, paused_container,
  unpaused_container,
}
use aizo.Layer5.ContainerRuntime.Calls.{
  Call, create, start, stop, remove, pause, unpause, restart, call, run, restart-failed,
  restart-started,
}

-- The status and the flags `Running` and `Paused` that calls can bring about together. A container
-- that was stopped while it was paused keeps the flag: it may be started with it, or unpaused without
-- running.
abbrev pub allowed : ContainerStatus → Bool → Bool → Bool
allowed created false false = true
allowed running true p = true
allowed running false false = true
allowed paused true true = true
allowed exited false p = true
allowed _ _ _ = false

pub record IsValid {C : Type 0} (id : String) (c : Container C) : Type 0 where
  pub same_id : c.id ≡ id
  pub same_status : c.status ≡ c.state.status
  pub phase : allowed c.status c.state.running c.state.paused ≡ true

module _ {C : Type 0} where
  abbrev pub AllValid : ContainerRuntime C → Type 0
  AllValid r = (id : String) (c : Container C) → get id r.containers ≡ some c → IsValid id c

  put-AllValid :
      (r : ContainerRuntime C) (id : String) (c : Container C)
      → AllValid r
      → IsValid id c
      → AllValid (record { containers = put id c r.containers })
  put-AllValid r id c v h j d g = elim (Bool-cases (j == id)) [
    | inl e ↦
        let p : id ≡ j = ground arith in
        let q : c ≡ d = ground (arith, get-put id j c r.containers) in
        subst (λ x. IsValid x d) p (subst (λ x. IsValid id x) q h)
    | inr e ↦ v j d (ground (arith, get-put id j c r.containers))
  ]

  delete-AllValid :
      (r : ContainerRuntime C) (id : String)
      → AllValid r
      → AllValid (record { containers = delete id r.containers })
  delete-AllValid r id v j d g = v j d (ground (arith, get-delete id j r.containers))

  started-IsValid :
      (id : String) (c : Container C) (now : ℕ)
      → IsValid id c
      → c.state.running ≡ false
      → IsValid id (started c now)
  started-IsValid id c now v h = ground arith

  stopped-IsValid :
      (id : String) (c : Container C) (now : ℕ) → IsValid id c → IsValid id (stopped c now)
  stopped-IsValid id c now v = ground arith

  paused-IsValid :
      (id : String) (c : Container C)
      → IsValid id c
      → c.state.running ≡ true
      → IsValid id (paused_container c)
  paused-IsValid id c v h = ground arith

  unpaused-IsValid :
      (id : String) (c : Container C) → IsValid id c → IsValid id (unpaused_container c)
  unpaused-IsValid id c v = ground arith

  created-IsValid :
      (r : ContainerRuntime C) (id : String) (now : ℕ) (config : C) (name : String)
      → AllValid r
      → AllValid (create_container r id now config name).0
  unfolding create_container
  created-IsValid r id now config name v = put-AllValid r id _ v (ground arith)

  kept : (r r' : ContainerRuntime C) → r' ≡ r → AllValid r → AllValid r'
  kept r r' e v = subst AllValid (sym e) v

  replaced :
      (r r' : ContainerRuntime C) (id : String) (c : Container C)
      → r' ≡ record { containers = put id c r.containers }
      → AllValid r
      → IsValid id c
      → AllValid r'
  replaced r r' id c e v h = subst AllValid (sym e) (put-AllValid r id c v h)

  start-AllValid :
      (r : ContainerRuntime C) (id : String) (now : ℕ)
      → AllValid r
      → AllValid (start_container r id now).0
  unfolding start_container
  start-AllValid r id now v = elim (Option-cases (get id r.containers)) [
    | inl e ↦ kept r (start_container r id now).0 (ground arith) v
    | inr (c, e) ↦ elim (Bool-cases c.state.running) [
      | inl b ↦ kept r (start_container r id now).0 (ground arith) v
      | inr b ↦
          replaced r (start_container r id now).0 id (started c now) (ground arith) v
            (started-IsValid id c now (v id c e) b)
    ]
  ]

  stop-AllValid :
      (r : ContainerRuntime C) (id : String) (now : ℕ)
      → AllValid r
      → AllValid (stop_container r id now).0
  unfolding stop_container
  stop-AllValid r id now v = elim (Option-cases (get id r.containers)) [
    | inl e ↦ kept r (stop_container r id now).0 (ground arith) v
    | inr (c, e) ↦ elim (Bool-cases c.state.running) [
      | inl b ↦
          replaced r (stop_container r id now).0 id (stopped c now) (ground arith) v
            (stopped-IsValid id c now (v id c e))
      | inr b ↦ kept r (stop_container r id now).0 (ground arith) v
    ]
  ]

  pause-AllValid :
      (r : ContainerRuntime C) (id : String) → AllValid r → AllValid (pause_container r id).0
  unfolding pause_container
  pause-AllValid r id v = elim (Option-cases (get id r.containers)) [
    | inl e ↦ kept r (pause_container r id).0 (ground arith) v
    | inr (c, e) ↦ elim (Bool-cases c.state.running) [
      | inl b ↦
          replaced r (pause_container r id).0 id (paused_container c) (ground arith) v
            (paused-IsValid id c (v id c e) b)
      | inr b ↦ kept r (pause_container r id).0 (ground arith) v
    ]
  ]

  unpause-AllValid :
      (r : ContainerRuntime C) (id : String) → AllValid r → AllValid (unpause_container r id).0
  unfolding unpause_container
  unpause-AllValid r id v = elim (Option-cases (get id r.containers)) [
    | inl e ↦ kept r (unpause_container r id).0 (ground arith) v
    | inr (c, e) ↦ elim (Bool-cases c.state.paused) [
      | inl b ↦
          replaced r (unpause_container r id).0 id (unpaused_container c) (ground arith) v
            (unpaused-IsValid id c (v id c e))
      | inr b ↦ kept r (unpause_container r id).0 (ground arith) v
    ]
  ]

  remove-AllValid :
      (r : ContainerRuntime C) (id : String) (force : Bool)
      → AllValid r
      → AllValid (remove_container r id force).0
  unfolding remove_container
  remove-AllValid r id force v = elim (Bool-cases (is_some (remove_container r id force).1)) [
    | inl b ↦ kept r (remove_container r id force).0 (ground arith) v
    | inr b ↦
        subst AllValid
          (sym (
            let gone : (remove_container r id force).0
                ≡ record { containers = delete id r.containers } =
              ground arith in
            gone))
          (delete-AllValid r id v)
  ]

  restart-AllValid :
      (r : ContainerRuntime C) (f : ContainerRuntime C → ContainerRuntime C) (id : String)
      (now now' : ℕ)
      → ((s : ContainerRuntime C) → AllValid s → AllValid (f s))
      → AllValid r
      → AllValid (restart_container r f id now now').0
  restart-AllValid r f id now now' keeps v = elim (Option-cases (stop_container r id now).1) [
    | inr (x, e) ↦
        kept (stop_container r id now).0 (restart_container r f id now now').0
          (ap (λ y. y.0) (restart-failed r f id now now' x e)) (stop-AllValid r id now v)
    | inl e ↦
        kept (start_container (f (stop_container r id now).0) id now').0
          (restart_container r f id now now').0 (ap (λ y. y.0) (restart-started r f id now now' e))
          (start-AllValid (f (stop_container r id now).0) id now'
            (keeps (stop_container r id now).0 (stop-AllValid r id now v)))
  ]

  call-AllValid : (r : ContainerRuntime C) (e : Call C) → AllValid r → AllValid (call r e).0
  unfolding call
  call-AllValid r (create id now config name) v = created-IsValid r id now config name v
  call-AllValid r (start id now) v = start-AllValid r id now v
  call-AllValid r (stop id now) v = stop-AllValid r id now v
  call-AllValid r (remove id force) v = remove-AllValid r id force v
  call-AllValid r (pause id) v = pause-AllValid r id v
  call-AllValid r (unpause id) v = unpause-AllValid r id v
  call-AllValid r (restart id now now') v = restart-AllValid r (λ s. s) id now now' (λ s h. h) v

  run-AllValid : (r : ContainerRuntime C) (es : List (Call C)) → AllValid r → AllValid (run r es)
  unfolding run
  run-AllValid r [] v = v
  run-AllValid r (e ∷ es) v = run-AllValid (call r e).0 es (call-AllValid r e v)

  -- After any calls on a new runtime every container stands under its id, its two statuses are the
  -- same, and its status and flags are one of the seven combinations that are allowed: a container
  -- that runs is running or paused, and one that is created, or exited, does not run.
  pub run-new_AllValid : (es : List (Call C)) → AllValid (run new_container_runtime es)
  unfolding new_container_runtime get
  run-new_AllValid es = run-AllValid new_container_runtime es (λ id c g. cc)
