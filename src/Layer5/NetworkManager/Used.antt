-- ===== src/Layer5/NetworkManager/Used.antt =====
-- Which networks RemoveNetwork and PruneNetworks leave (layer5/network_manager.go).
use mathlib.Core.Path.{subst}
use aizo.Prelude.{
  ◌≡◌, ◌≢◌, ◌↔◌, ◌⊎◌, inl, inr, refl, String, true, false, not, ◌&&◌, none, some, [], ◌∷◌, Map, get,
  get-delete, length, ltb, ◌==◌, Bool-cases, Option-cases, if◌then◌else◌, string_eq, arith, select,
}
use aizo.Layer5.NetworkManager.{
  Network, NetworkManager, EndpointConfig, remove_network, prune_networks, unused,
}
use aizo.Layer5.NetworkManager.Names.{IsValid, get-select}

-- A network that has a name of Docker's own, or an endpoint.
abbrev pub IsUsed : Network → Type 0
IsUsed n = (n.name ≡ "bridge") ⊎ ((n.name ≡ "host") ⊎ ((n.name ≡ "none") ⊎ (n.containers ≢ [])))

abbrev Endpoints : Type 0
Endpoints = Map String EndpointConfig

some_endpoint : (cs : Endpoints) → cs ≢ [] → ltb 0 (length cs) ≡ true
some_endpoint [] h = absurd (h refl)
some_endpoint (e ∷ cs) h = ground arith

no_endpoint : (cs : Endpoints) → ltb 0 (length cs) ≡ true → cs ≢ []
no_endpoint [] h = cc
no_endpoint (e ∷ cs) h = λ p. cc

unused-IsUsed : (n : Network) → IsUsed n → unused n ≡ false
unused-IsUsed n u = ground (arith, some_endpoint n.containers)

IsUsed-unused : (n : Network) → unused n ≡ false → IsUsed n
IsUsed-unused n u = ground (arith, no_endpoint n.containers)

-- What a read gives after RemoveNetwork.
get-remove_network :
    (m : NetworkManager) (id other : String) (n : Network)
    → get id m.networks ≡ some n
    → get id (remove_network m other).0.networks
      ≡ (if (id == other) && unused n then none else some n)
unfolding remove_network
get-remove_network m id other n g = elim (Bool-cases (id == other)) [
  | inl e ↦ same (ground arith)
  | inr e ↦ elim (Option-cases (get other m.networks)) [
    | inl h ↦ ground arith
    | inr (k, h) ↦ ground (arith, get-delete other id m.networks)
  ]
]
  where
    same :
        id ≡ other
        → get id (remove_network m other).0.networks
          ≡ (if (id == other) && unused n then none else some n)
    same p =
        let h : get other m.networks ≡ some n = subst (λ i. get i m.networks ≡ some n) p g in
        ground (arith, get-delete other id m.networks)

remove_network-absent :
    (m : NetworkManager) (id other : String)
    → get id m.networks ≡ none
    → get id (remove_network m other).0.networks ≡ none
unfolding remove_network
remove_network-absent m id other g = elim (Option-cases (get other m.networks)) [
  | inl h ↦ ground arith
  | inr (k, h) ↦ ground (arith, get-delete other id m.networks)
]

-- RemoveNetwork leaves exactly the networks that are not the one it is called for or that have a
-- default name or an endpoint, and PruneNetworks exactly those that have a default name or an endpoint;
-- what is left is as it was.
pub networks_left :
    (m : NetworkManager) (id other : String) (n : Network)
    → IsValid m
    → (get id (remove_network m other).0.networks ≡ some n
        ↔ (get id m.networks ≡ some n) × ((id ≢ other) ⊎ IsUsed n))
      × (get id (prune_networks m).0.networks ≡ some n ↔ (get id m.networks ≡ some n) × IsUsed n)
unfolding prune_networks
networks_left m id other n v = elim (Option-cases (get id m.networks)) [
  | inl g ↦ (
    (λ h. absurd (ground (arith, remove_network-absent m id other g)), λ h. absurd (ground arith)),
    (λ h. absurd (ground (arith, pruned)), λ h. absurd (ground arith)),
  )
  | inr (k, g) ↦ (
    (
      (λ h. ground (arith, get-remove_network m id other k g, IsUsed-unused n)),
      λ h. ground (arith, get-remove_network m id other k g, unused-IsUsed n),
    ),
    ((λ h. ground (arith, pruned, IsUsed-unused n)), λ h. ground (arith, pruned, unused-IsUsed n)),
  )
]
  where
    pruned : get id (select (λ e. not (unused (e.1))) m.networks) ≡ elim (get id m.networks) [
      | none ↦ none
      | some k ↦ if not (unused k) then some k else none
    ]
    pruned = get-select (λ a. not (unused a)) id m.networks v.distinct
