-- ===== src/Layer5/NetworkManager/Default.antt =====
-- Which networks there are after any calls (layer5/network_manager.go).
use aizo.Prelude.{
  ℕ, ◌≡◌, inl, inr, refl, sym, ◌∙◌, String, Bool, not, Option, none, some, List, [], ◌∷◌, get, put,
  delete, values, some_of, is_some, ◌==◌, string_eq, Option-cases, Bool-cases, arith,
  String_discrete,
}
use aizo.Layer5.NetworkManager.{
  Network, NetworkManager, EndpointConfig, created, create_default_networks, new_network_manager,
  create_network, remove_network, connect_container, disconnect_container, prune_networks, unused,
  assigned, given,
}
use aizo.Layer5.NetworkManager.Names.{
  name_at, IsValid, Narrowed, Narrowed-IsValid, put-IsValid, delete-IsValid, create-IsValid,
  get-select, select-Distinct, moved,
}

prune_networks-IsValid : (m : NetworkManager) → IsValid m → IsValid (prune_networks m).0
unfolding prune_networks
prune_networks-IsValid m v =
    Narrowed-IsValid m (prune_networks m).0
      (select-Distinct (λ n. not (unused n)) m.networks v.distinct) narrowed v
  where
    narrowed : (k : String) → Narrowed (name_at m k) (name_at (prune_networks m).0 k)
    narrowed k = elim (Option-cases (get k m.networks)) [
      | inl e ↦ inl (ground (arith, get-select (λ n. not (unused n)) k m.networks v.distinct))
      | inr (n, e) ↦ elim (Bool-cases (unused n)) [
        | inr u ↦ inl (ground (arith, get-select (λ n. not (unused n)) k m.networks v.distinct))
        | inl u ↦ inr (
          ground (arith, get-select (λ n. not (unused n)) k m.networks v.distinct),
          λ x h. ground arith,
        )
      ]
    ]

remove_network-IsValid :
    (m : NetworkManager) (id : String) → IsValid m → IsValid (remove_network m id).0
unfolding remove_network
remove_network-IsValid m id v = elim (Option-cases (get id m.networks)) [
  | inl e ↦ moved (remove_network m id).0 m (ground arith) v
  | inr (n, e) ↦ elim (Bool-cases (unused n)) [
    | inl u ↦
        moved (remove_network m id).0 (record { networks = delete id m.networks }) (ground arith)
          (delete-IsValid m id n e (ground arith) v)
    | inr u ↦ moved (remove_network m id).0 m (ground arith) v
  ]
]

create_network-IsValid :
    (m : NetworkManager) (id : String) (now : ℕ) (name driver : String) (internal : Bool)
    → get id m.networks ≡ none
    → IsValid m
    → IsValid (create_network m id now name driver internal).0
unfolding create_network
create_network-IsValid m id now name driver internal g v =
    elim (Bool-cases (some_of (λ n. n.name == name) (values m.networks))) [
      | inl e ↦ moved (create_network m id now name driver internal).0 m (ground arith) v
      | inr e ↦
          moved (create_network m id now name driver internal).0
            (record { networks = put id (created id now name driver internal) m.networks })
            (ground arith) (create-IsValid m id (created id now name driver internal) g e v)
    ]

connect_container-IsValid :
    (address : ℕ → String) (m : NetworkManager) (id container endpoint : String)
    (config : Option EndpointConfig)
    → IsValid m
    → IsValid (connect_container address m id container endpoint config).0
unfolding connect_container
connect_container-IsValid address m id container endpoint config v =
    elim (Option-cases (get id m.networks)) [
      | inl e ↦
          moved (connect_container address m id container endpoint config).0 m (ground arith) v
      | inr (n, e) ↦ elim (Bool-cases (is_some (get container n.containers))) [
        | inl b ↦
            moved (connect_container address m id container endpoint config).0 m (ground arith) v
        | inr b ↦
            let n' : Network = record n {
              containers = put container (assigned address n (given endpoint config)) n.containers;
            } in
            moved (connect_container address m id container endpoint config).0
              (record { networks = put id n' m.networks }) (ground arith)
              (put-IsValid m id n n' e refl v)
      ]
    ]

disconnect_container-IsValid :
    (m : NetworkManager) (id container : String)
    → IsValid m
    → IsValid (disconnect_container m id container).0
unfolding disconnect_container
disconnect_container-IsValid m id container v = elim (Option-cases (get id m.networks)) [
  | inl e ↦ moved (disconnect_container m id container).0 m (ground arith) v
  | inr (n, e) ↦ elim (Bool-cases (is_some (get container n.containers))) [
    | inr b ↦ moved (disconnect_container m id container).0 m (ground arith) v
    | inl b ↦
        let n' : Network = record n { containers = delete container n.containers } in
        moved (disconnect_container m id container).0 (record { networks = put id n' m.networks })
          (ground arith) (put-IsValid m id n n' e refl v)
  ]
]

default_name : (now : ℕ) (i x : String) → name_at (new_network_manager now) i ≡ some x → i ≡ x
unfolding new_network_manager create_default_networks get put String_discrete
default_name now i x h = ground arith

pub new-IsValid : (now : ℕ) → IsValid (new_network_manager now)
unfolding new_network_manager create_default_networks get put String_discrete
new-IsValid now = record {
  distinct = (refl, (refl, (refl, tt)));
  one_name = λ i j x a b. default_name now i x a ∙ sym (default_name now j x b);
  has_bridge = refl;
  has_host = refl;
  has_none = refl;
}

pub data Call : Type 0 where
  create : String → ℕ → String → String → Bool → Call
  remove : String → Call
  connect : String → String → String → Option EndpointConfig → Call
  disconnect : String → String → Call
  prune : Call

module _ (address : ℕ → String) where
  unfoldable pub call : NetworkManager → Call → NetworkManager
  call m (create id now name driver internal) = (create_network m id now name driver internal).0
  call m (remove id) = (remove_network m id).0
  call m (connect id container endpoint config) =
      (connect_container address m id container endpoint config).0
  call m (disconnect id container) = (disconnect_container m id container).0
  call m prune = (prune_networks m).0

  unfoldable pub run : NetworkManager → List Call → NetworkManager
  run m [] = m
  run m (c ∷ cs) = run (call m c) cs

  -- The id of a new network is new, as `uuid.New()` promises.
  abbrev pub IsFresh : NetworkManager → Call → Type 0
  IsFresh m (create id now name driver internal) = get id m.networks ≡ none
  IsFresh m _ = Unit

  unfoldable pub AllFresh : NetworkManager → List Call → Type 0
  AllFresh m [] = Unit
  AllFresh m (c ∷ cs) = IsFresh m c × AllFresh (call m c) cs

  call-IsValid : (m : NetworkManager) (c : Call) → IsFresh m c → IsValid m → IsValid (call m c)
  unfolding call
  call-IsValid m (create id now name driver internal) f v =
      create_network-IsValid m id now name driver internal f v
  call-IsValid m (remove id) f v = remove_network-IsValid m id v
  call-IsValid m (connect id container endpoint config) f v =
      connect_container-IsValid address m id container endpoint config v
  call-IsValid m (disconnect id container) f v = disconnect_container-IsValid m id container v
  call-IsValid m prune f v = prune_networks-IsValid m v

  run-IsValid :
      (m : NetworkManager) (cs : List Call) → AllFresh m cs → IsValid m → IsValid (run m cs)
  unfolding run AllFresh
  run-IsValid m [] f v = v
  run-IsValid m (c ∷ cs) f v = run-IsValid (call m c) cs f.1 (call-IsValid m c f.0 v)

  -- After any calls on a new manager, with new ids for new networks, no two networks have one name,
  -- and the networks bridge, host and none are there under their names.
  pub run-manager_IsValid :
      (now : ℕ) (cs : List Call)
      → AllFresh (new_network_manager now) cs
      → IsValid (run (new_network_manager now) cs)
  run-manager_IsValid now cs f = run-IsValid (new_network_manager now) cs f (new-IsValid now)
