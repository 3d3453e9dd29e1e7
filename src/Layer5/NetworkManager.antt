-- ===== src/Layer5/NetworkManager.antt =====
-- layer5/network_manager.go. Each method takes the lock for its whole body. Labels and options are
-- only stored and left out; ids come from `uuid.New()` and are arguments, and `address` is
-- `fmt.Sprintf("172.18.0.%d", n)`.
pub mod Names
pub mod Default
pub mod Used
pub mod Addresses
use aizo.Prelude.{
  ℕ, ◌+◌, String, Bool, true, false, not, ◌&&◌, ◌||◌, Option, none, some, List, [], ◌∷◌, Map, get,
  put, delete, keys, values, select, some_of, length, is_some, ltb, ◌==◌, string_eq, if◌then◌else◌,
}

pub record IpamPool : Type 0 where
  pub subnet : String
  pub gateway : String

pub record IpamConfig : Type 0 where
  pub driver : String
  pub config : List IpamPool

pub record EndpointConfig : Type 0 where
  pub endpoint_id : String
  pub gateway : String
  pub ip_address : String
  pub ip_prefix_len : ℕ

pub record Network : Type 0 where
  pub id : String
  pub name : String
  pub driver : String
  pub scope : String
  pub internal : Bool
  pub attachable : Bool
  pub ipam : Option IpamConfig
  pub containers : Map String EndpointConfig
  pub created_at : ℕ

pub record NetworkManager : Type 0 where
  pub networks : Map String Network

pub data Error : Type 0 where
  already_exists not_found default_network active_endpoints already_connected not_connected :
      String → Error

pub data Result (A : Type 0) : Type 0 where
  ok : A → Result A
  err : Error → Result A

-- An IPAM configuration of one pool.
abbrev pub one_pool : String → String → Option IpamConfig
one_pool subnet gateway =
    some
      (record { driver = "default"; config = record { subnet = subnet; gateway = gateway } ∷ [] })

abbrev pub bridge : ℕ → Network
bridge now = record {
  id = "bridge";
  name = "bridge";
  driver = "bridge";
  scope = "local";
  internal = false;
  attachable = true;
  ipam = one_pool "172.17.0.0/16" "172.17.0.1";
  containers = [];
  created_at = now;
}

abbrev pub host : ℕ → Network
host now = record {
  id = "host";
  name = "host";
  driver = "host";
  scope = "local";
  internal = false;
  attachable = false;
  ipam = none;
  containers = [];
  created_at = now;
}

abbrev pub none_network : ℕ → Network
none_network now = record {
  id = "none";
  name = "none";
  driver = "null";
  scope = "local";
  internal = false;
  attachable = false;
  ipam = none;
  containers = [];
  created_at = now;
}

unfoldable pub create_default_networks : ℕ → Map String Network → Map String Network
create_default_networks now networks =
    put "none" (none_network now) (put "host" (host now) (put "bridge" (bridge now) networks))

unfoldable pub new_network_manager : ℕ → NetworkManager
unfolding create_default_networks
new_network_manager now = record { networks = create_default_networks now [] }

abbrev pub created : String → ℕ → String → String → Bool → Network
created id now name driver internal = record {
  id = id;
  name = name;
  driver = if driver == "" then "bridge" else driver;
  scope = "local";
  internal = internal;
  attachable = true;
  ipam = one_pool "172.18.0.0/16" "172.18.0.1";
  containers = [];
  created_at = now;
}

unfoldable pub create_network :
    NetworkManager → String → ℕ → String → String → Bool → NetworkManager × Result Network
create_network m id now name driver internal =
    if some_of (λ n. n.name == name) (values m.networks) then (m, err (already_exists name)) else (
      record { networks = put id (created id now name driver internal) m.networks },
      ok (created id now name driver internal),
    )

unfoldable pub get_network : NetworkManager → String → Result Network
get_network m id = elim (get id m.networks) [ none ↦ err (not_found id) | some n ↦ ok n ]

abbrev pub list_networks : NetworkManager → List Network
list_networks m = values m.networks

abbrev pub is_default : Network → Bool
is_default n = (n.name == "bridge") || (n.name == "host") || (n.name == "none")

-- `len(network.Containers) > 0`
abbrev pub in_use : Network → Bool
in_use n = ltb 0 (length n.containers)

unfoldable pub remove_network : NetworkManager → String → NetworkManager × Option Error
remove_network m id = elim (get id m.networks) [
  | none ↦ (m, some (not_found id))
  | some n ↦
      if is_default n
      then (m, some (default_network n.name))
      else (if in_use n
          then (m, some (active_endpoints id))
          else (record { networks = delete id m.networks }, none))
]

-- The address that is given to an endpoint without one: two more than there are endpoints.
abbrev pub assigned : (ℕ → String) → Network → EndpointConfig → EndpointConfig
assigned address n config = elim (n.ipam) [
  | none ↦ config
  | some ipam ↦ elim (ipam.config) [
    | [] ↦ config
    | pool ∷ _ ↦
        if config.ip_address == ""
        then record config {
          ip_address = address (length n.containers + 2);
          gateway = pool.gateway;
          ip_prefix_len = 16;
        }
        else config
  ]
]

-- `config` is nil or a configuration; `endpoint` is the `uuid.New()` for a nil one.
abbrev pub given : String → Option EndpointConfig → EndpointConfig
given endpoint none = record {
  endpoint_id = endpoint;
  gateway = "";
  ip_address = "";
  ip_prefix_len = 0;
}
given endpoint (some config) = config

unfoldable pub connect_container :
    (ℕ → String)
    → NetworkManager
    → String
    → String
    → String
    → Option EndpointConfig
    → NetworkManager × Option Error
connect_container address m network_id container_id endpoint config =
    elim (get network_id m.networks) [
      | none ↦ (m, some (not_found network_id))
      | some n ↦
          if is_some (get container_id n.containers)
          then (m, some (already_connected container_id))
          else (
            record {
              networks =
                  put network_id
                    (record n {
                      containers =
                          put container_id (assigned address n (given endpoint config))
                            n.containers;
                    })
                    m.networks;
            },
            none,
          )
    ]

unfoldable pub disconnect_container :
    NetworkManager → String → String → NetworkManager × Option Error
disconnect_container m network_id container_id = elim (get network_id m.networks) [
  | none ↦ (m, some (not_found network_id))
  | some n ↦
      if not (is_some (get container_id n.containers))
      then (m, some (not_connected container_id))
      else (
        record {
          networks =
              put network_id (record n { containers = delete container_id n.containers })
                m.networks;
        },
        none,
      )
]

abbrev pub unused : Network → Bool
unused n = not (is_default n) && not (in_use n)

unfoldable pub prune_networks : NetworkManager → NetworkManager × List String
prune_networks m = (
  record { networks = select (λ e. not (unused (e.1))) m.networks },
  keys (select (λ e. unused (e.1)) m.networks),
)
