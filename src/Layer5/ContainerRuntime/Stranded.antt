-- ===== src/Layer5/ContainerRuntime/Stranded.antt =====
-- A container that is stopped while it is paused (layer5/container_runtime.go).
use aizo.Prelude.{ℕ, ◌≡◌, refl, String, true, false, none, some, get, get-put, string_eq, arith}
use aizo.Layer5.ContainerRuntime.{
  Container, ContainerRuntime, running, not_running, ok, stop_container, pause_container,
  unpause_container, get_container, exec_in_container, stopped, paused_container,
  unpaused_container,
}

module _ {C : Type 0} where
  pause_at :
      (r : ContainerRuntime C) (id : String) (c : Container C)
      → get id r.containers ≡ some c
      → c.state.running ≡ true
      → ((pause_container r id).1 ≡ none)
        × (get id (pause_container r id).0.containers ≡ some (paused_container c))
  unfolding pause_container
  pause_at r id c g h = ground (arith, get-put id id (paused_container c) r.containers)

  stop_at :
      (r : ContainerRuntime C) (id : String) (now : ℕ) (c : Container C)
      → get id r.containers ≡ some c
      → c.state.running ≡ true
      → ((stop_container r id now).1 ≡ none)
        × (get id (stop_container r id now).0.containers ≡ some (stopped c now))
  unfolding stop_container
  stop_at r id now c g h = ground (arith, get-put id id (stopped c now) r.containers)

  unpause_at :
      (r : ContainerRuntime C) (id : String) (c : Container C)
      → get id r.containers ≡ some c
      → c.state.paused ≡ true
      → ((unpause_container r id).1 ≡ none)
        × (get id (unpause_container r id).0.containers ≡ some (unpaused_container c))
  unfolding unpause_container
  unpause_at r id c g h = ground (arith, get-put id id (unpaused_container c) r.containers)

  stands_still :
      (r : ContainerRuntime C) (id : String) (now : ℕ) (c : Container C)
      → get id r.containers ≡ some c
      → c.state.running ≡ false
      → (get_container r id ≡ ok c)
        × ((stop_container r id now).1 ≡ some (not_running id))
        × (exec_in_container r id ≡ some (not_running id))
  unfolding stop_container get_container exec_in_container
  stands_still r id now c g h = ground arith

  -- When a running container is paused, stopped and unpaused, each of the three calls succeeds, and
  -- GetContainer then shows both of its statuses as running and its flag Running as false: it can be
  -- neither stopped nor entered.
  pub unpause-stopped :
      (r : ContainerRuntime C) (id : String) (now now' : ℕ) (c : Container C)
      → get id r.containers ≡ some c
      → c.state.running ≡ true
      → let (r1, e1) = pause_container r id in
        let (r2, e2) = stop_container r1 id now in
        let (r3, e3) = unpause_container r2 id in
        (e1 ≡ none)
        × (e2 ≡ none)
        × (e3 ≡ none)
        × ((c' : Container C) × (get_container r3 id ≡ ok c')
            × (c'.status ≡ running)
            × (c'.state.status ≡ running)
            × (c'.state.running ≡ false))
        × ((stop_container r3 id now').1 ≡ some (not_running id))
        × (exec_in_container r3 id ≡ some (not_running id))
  unpause-stopped r id now now' c g h =
      let r1 = (pause_container r id).0 in
      let r2 = (stop_container r1 id now).0 in
      let c1 : Container C = paused_container c in
      let c2 : Container C = stopped c1 now in
      let (e1, g1) = pause_at r id c g h in
      let (e2, g2) = stop_at r1 id now c1 g1 h in
      let (e3, g3) = unpause_at r2 id c2 g2 refl in
      let (shown, no_stop, no_exec) =
        stands_still (unpause_container r2 id).0 id now' (unpaused_container c2) g3 refl in
      (e1, e2, e3, (unpaused_container c2, shown, refl, refl, refl), no_stop, no_exec)
