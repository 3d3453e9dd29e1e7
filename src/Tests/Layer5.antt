-- ===== src/Tests/Layer5.antt =====
-- Runs of the container runtime and of the network manager (layer5).
use aizo.Prelude.{
  ℕ, ◌≡◌, ◌≢◌, ◌↔◌, ◌⊎◌, refl, String, true, false, none, some, List, [], ◌∷◌, get, put, string_eq,
  ne_of_test, String_discrete,
}
use aizo.Layer5.ContainerRuntime.{
  Container, ContainerRuntime, running, not_running, ok, new_container_runtime, start_container,
  pause_container, stop_container, unpause_container, restart_container, get_container,
  exec_in_container,
}
use aizo.Layer5.ContainerRuntime.Calls.{
  Call, create, start, stop, pause, restart, call, run, restart_container-error,
}
use aizo.Layer5.ContainerRuntime.Lifecycle.{AllValid, run-new_AllValid}
use aizo.Layer5.ContainerRuntime.Stranded.{unpause-stopped}
use aizo.Layer5.NetworkManager.{
  Network, IpamPool, bridge, create_default_networks, new_network_manager, connect_container,
  disconnect_container, remove_network, prune_networks,
}
use aizo.Layer5.NetworkManager.Used.{IsUsed, networks_left}
use aizo.Layer5.NetworkManager.Names.{IsValid}
use aizo.Layer5.NetworkManager.Default as Networks
use aizo.Layer5.NetworkManager.Default.{run-manager_IsValid, new-IsValid}
use aizo.Layer5.NetworkManager.Addresses.{endpoint_of, connect_container-same_address}

abbrev calls : List (Call ℕ)
calls = create "c" 1 0 "web" ∷ start "c" 2 ∷ pause "c" ∷ stop "c" 3 ∷ restart "c" 4 5 ∷ []

run-new_AllValid_example : AllValid (run new_container_runtime calls)
run-new_AllValid_example = run-new_AllValid calls

abbrev web : Container ℕ
web = record {
  id = "c";
  name = "web";
  status = running;
  state = record {
    status = running;
    running = true;
    paused = false;
    exit_code = 0;
    started_at = 2;
    finished_at = 0;
  };
  config = 0;
  created_at = 1;
  started_at = 2;
  finished_at = 0;
}

abbrev one : ContainerRuntime ℕ
one = record { containers = ("c", web) ∷ [] }

web_found : get "c" one.containers ≡ some web
unfolding get String_discrete
web_found = refl

unpause-stopped_example :
    let (r1, e1) = pause_container one "c" in
    let (r2, e2) = stop_container r1 "c" 3 in
    let (r3, e3) = unpause_container r2 "c" in
    (e1 ≡ none)
    × (e2 ≡ none)
    × (e3 ≡ none)
    × ((c' : Container ℕ) × (get_container r3 "c" ≡ ok c')
        × (c'.status ≡ running)
        × (c'.state.status ≡ running)
        × (c'.state.running ≡ false))
    × ((stop_container r3 "c" 4).1 ≡ some (not_running "c"))
    × (exec_in_container r3 "c" ≡ some (not_running "c"))
unpause-stopped_example = unpause-stopped one "c" 3 4 web web_found refl

-- A start by somebody else comes between the two parts of a restart.
abbrev between : List (Call ℕ)
between = start "c" 9 ∷ []

restart_refused : (restart_container one (λ s. run s between) "c" 3 10).1 ≢ none
unfolding restart_container run call stop_container start_container get put String_discrete
restart_refused = λ e. cc

restart_container-error_example :
    let (stopped_first, e) = stop_container one "c" 3 in
    let after = run stopped_first between in
    let result = (restart_container one (λ s. run s between) "c" 3 10).0 in
    ((e ≢ none) × (result ≡ one))
    ⊎ ((result ≡ after)
        × ((c : Container ℕ) × (get "c" stopped_first.containers ≡ some c)
            × (c.state.running ≡ false))
        × ((get "c" after.containers ≡ none)
            ⊎ ((c : Container ℕ) × (get "c" after.containers ≡ some c) × (c.state.running ≡ true))))
restart_container-error_example = restart_container-error one between "c" 3 10 restart_refused

-- The address of an endpoint by its number.
abbrev numbered : ℕ → String
numbered n = "172.18.0.x"

abbrev network_calls : List Networks.Call
network_calls =
    Networks.create "u" 1 "web" "" false
    ∷ Networks.connect "u" "a" "ea" none
    ∷ Networks.prune
    ∷ Networks.remove "bridge"
    ∷ []

network_calls_fresh : Networks.AllFresh numbered (new_network_manager 0) network_calls
unfolding Networks.AllFresh new_network_manager create_default_networks get put String_discrete
network_calls_fresh = (refl, (tt, (tt, (tt, tt))))

run-manager_IsValid_example : IsValid (Networks.run numbered (new_network_manager 0) network_calls)
run-manager_IsValid_example = run-manager_IsValid numbered 0 network_calls network_calls_fresh

bridge_found : get "bridge" (new_network_manager 0).networks ≡ some (bridge 0)
unfolding new_network_manager create_default_networks get put String_discrete
bridge_found = refl

networks_left_example :
    (get "bridge" (remove_network (new_network_manager 0) "bridge").0.networks ≡ some (bridge 0)
      ↔ (get "bridge" (new_network_manager 0).networks ≡ some (bridge 0))
        × (◌≢◌ {A = String} "bridge" "bridge" ⊎ IsUsed (bridge 0)))
    × (get "bridge" (prune_networks (new_network_manager 0)).0.networks ≡ some (bridge 0)
        ↔ (get "bridge" (new_network_manager 0).networks ≡ some (bridge 0)) × IsUsed (bridge 0))
networks_left_example =
    networks_left (new_network_manager 0) "bridge" "bridge" (bridge 0) (new-IsValid 0)

abbrev pool : IpamPool
pool = record { subnet = "172.17.0.0/16"; gateway = "172.17.0.1" }

a-ne-b : ◌≢◌ {A = String} "a" "b"
unfolding String_discrete
a-ne-b = ne_of_test "a" "b" refl

a-ne-c : ◌≢◌ {A = String} "a" "c"
unfolding String_discrete
a-ne-c = ne_of_test "a" "c" refl

b-ne-c : ◌≢◌ {A = String} "b" "c"
unfolding String_discrete
b-ne-c = ne_of_test "b" "c" refl

no_endpoint : (id : String) → get id (bridge 0).containers ≡ none
unfolding get
no_endpoint id = refl

connect_container-same_address_example :
    let m1 = (connect_container numbered (new_network_manager 0) "bridge" "a" "a" none).0 in
    let m2 = (connect_container numbered m1 "bridge" "b" "b" none).0 in
    let m3 = (disconnect_container m2 "bridge" "a").0 in
    let m4 = (connect_container numbered m3 "bridge" "c" "c" none).0 in
    (n' : Network) × (get "bridge" m4.networks ≡ some n')
    × (get "b" n'.containers ≡ some (endpoint_of numbered "b" pool 1))
    × (get "c" n'.containers ≡ some (endpoint_of numbered "c" pool 1))
connect_container-same_address_example =
    connect_container-same_address numbered (new_network_manager 0) "bridge" "a" "b" "c" "default"
      pool [] (bridge 0) bridge_found refl tt (no_endpoint "a") (no_endpoint "b") (no_endpoint "c")
      a-ne-b a-ne-c b-ne-c
