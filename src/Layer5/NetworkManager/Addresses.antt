-- ===== src/Layer5/NetworkManager/Addresses.antt =====
-- The addresses that a network gives (layer5/network_manager.go).
use aizo.Prelude.{
  ℕ, ◌+◌, ◌≡◌, ◌≢◌, refl, ap, ◌∙◌, String, none, some, List, ◌∷◌, Map, get, put, delete, get-put,
  get-delete, length, length-put, length-delete, Distinct, put-Distinct, string_eq, arith,
  String_discrete,
}
use aizo.Layer5.NetworkManager.{
  Network, NetworkManager, EndpointConfig, IpamPool, connect_container, disconnect_container,
  assigned, given,
}

-- The endpoint of a container that is connected without a configuration to a network with a pool.
abbrev pub endpoint_of : (ℕ → String) → String → IpamPool → ℕ → EndpointConfig
endpoint_of address endpoint pool n = record {
  endpoint_id = endpoint;
  gateway = pool.gateway;
  ip_address = address (n + 2);
  ip_prefix_len = 16;
}

assigned_endpoint :
    (address : ℕ → String) (n : Network) (endpoint driver : String) (pool : IpamPool)
    (pools : List IpamPool)
    → n.ipam ≡ some (record { driver = driver; config = pool ∷ pools })
    → assigned address n (given endpoint none)
      ≡ endpoint_of address endpoint pool (length n.containers)
unfolding String_discrete
assigned_endpoint address n endpoint driver pool pools p = rw p refl

connected :
    (address : ℕ → String) (m : NetworkManager) (id container endpoint : String) (n : Network)
    → get id m.networks ≡ some n
    → get container n.containers ≡ none
    → get id (connect_container address m id container endpoint none).0.networks
      ≡ some (record n {
        containers = put container (assigned address n (given endpoint none)) n.containers;
      })
unfolding connect_container
connected address m id container endpoint n g c = ground (
  arith,
  get-put id id
      (record n {
        containers = put container (assigned address n (given endpoint none)) n.containers;
      })
      m.networks,
)

disconnected :
    (m : NetworkManager) (id container : String) (n : Network) (config : EndpointConfig)
    → get id m.networks ≡ some n
    → get container n.containers ≡ some config
    → get id (disconnect_container m id container).0.networks
      ≡ some (record n { containers = delete container n.containers })
unfolding disconnect_container
disconnected m id container n config g c =
    ground
      (arith, get-put id id (record n { containers = delete container n.containers }) m.networks)

-- The endpoints after a and b came, and a went.
module _ {V : Type 0} (a b : String) (x y : V) (cs : Map String V) where
  length_before : get a cs ≡ none → length (put a x cs) ≡ length cs + 1
  length_before ga = ground (arith, length-put a x cs)

  length_after :
      Distinct cs
      → get a cs ≡ none
      → get b cs ≡ none
      → a ≢ b
      → length (delete a (put b y (put a x cs))) ≡ length cs + 1
  length_after d ga gb ab = ground (
    arith,
    length_before,
    length-put b y (put a x cs),
    get-put a b x cs,
    get-put a a x cs,
    get-put b a y (put a x cs),
    length-delete a x (put b y (put a x cs)),
    put-Distinct b y (put a x cs) (put-Distinct a x cs d),
  )

  read_after : a ≢ b → get b (delete a (put b y (put a x cs))) ≡ some y
  read_after ab = ground (arith, get-delete a b (put b y (put a x cs)), get-put b b y (put a x cs))

read_put :
    {V : Type 0} (k j : String) (v w : V) (m : Map String V)
    → j ≢ k
    → get j m ≡ some w
    → get j (put k v m) ≡ some w
read_put k j v w m h g = ground (arith, get-put k j v m)

read_same : {V : Type 0} (k : String) (v : V) (m : Map String V) → get k (put k v m) ≡ some v
read_same k v m = ground (arith, get-put k k v m)

-- When a container leaves a network with a pool, the next one gets the address of the one that came
-- last: if a and b are connected, a is disconnected and c is connected, all without a configuration,
-- then b and c have one address.
pub connect_container-same_address :
    (address : ℕ → String) (m : NetworkManager) (id a b c driver : String) (pool : IpamPool)
    (pools : List IpamPool) (n : Network)
    → get id m.networks ≡ some n
    → n.ipam ≡ some (record { driver = driver; config = pool ∷ pools })
    → Distinct n.containers
    → get a n.containers ≡ none
    → get b n.containers ≡ none
    → get c n.containers ≡ none
    → a ≢ b
    → a ≢ c
    → b ≢ c
    → let m1 = (connect_container address m id a a none).0 in
      let m2 = (connect_container address m1 id b b none).0 in
      let m3 = (disconnect_container m2 id a).0 in
      let m4 = (connect_container address m3 id c c none).0 in
      (n' : Network) × (get id m4.networks ≡ some n')
      × (get b n'.containers ≡ some (endpoint_of address b pool (length n.containers + 1)))
      × (get c n'.containers ≡ some (endpoint_of address c pool (length n.containers + 1)))
connect_container-same_address address m id a b c driver pool pools n g p d ga gb gc ab ac bc =
    let cs = n.containers in
    let x = assigned address n (given a none) in
    let n1 : Network = record n { containers = put a x cs } in
    let y = assigned address n1 (given b none) in
    let n2 : Network = record n { containers = put b y n1.containers } in
    let n3 : Network = record n { containers = delete a n2.containers } in
    let z = assigned address n3 (given c none) in
    let m1 = (connect_container address m id a a none).0 in
    let m2 = (connect_container address m1 id b b none).0 in
    let m3 = (disconnect_container m2 id a).0 in
    let g1 = connected address m id a a n g ga in
    let g2 = connected address m1 id b b n1 g1 (ground (arith, get-put a b x cs)) in
    let g3 =
      disconnected m2 id a n2 x g2
        (ground (arith, get-put a a x cs, get-put b a y n1.containers)) in
    let g4 = connected address m3 id c c n3 g3 (
      ground
        (arith, get-put a c x cs, get-put b c y n1.containers, get-delete a c n2.containers)) in
    let ey = assigned_endpoint address n1 b driver pool pools p in
    let ez = assigned_endpoint address n3 c driver pool pools p in
    (
      record n { containers = put c z n3.containers },
      g4,
      read_put c b z y n3.containers bc (read_after a b x y cs ab)
          ∙ ap (λ e. some e) (ey ∙ ap (endpoint_of address b pool) (length_before a b x y cs ga)),
      read_same c z n3.containers
          ∙ ap (λ e. some e)
              (ez ∙ ap (endpoint_of address c pool) (length_after a b x y cs d ga gb ab)),
    )
