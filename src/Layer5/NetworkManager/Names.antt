-- ===== src/Layer5/NetworkManager/Names.antt =====
-- The names of networks, and when a change keeps them apart (layer5/network_manager.go).
use mathlib.Core.Path.{subst}
use mathlib.Core.List.{Memᴰ}
use mathlib.Core.List.Memᴰ
use aizo.Prelude.{
  ◌≡◌, ◌≢◌, ◌⊎◌, inl, inr, refl, sym, ap, ◌∙◌, String, Bool, false, Option, none, some, List, [],
  ◌∷◌, Map, get, put, delete, get-put, get-delete, values, select, some_of, Distinct, put-Distinct,
  delete-Distinct, Mem-values-of-get, Mem-cons, ◌==◌, string_eq, if◌then◌else◌, Option-cases,
  Bool-cases, arith,
}
use aizo.Layer5.NetworkManager.{Network, NetworkManager, is_default}

abbrev pub named : Option Network → Option String
named none = none
named (some n) = some n.name

-- The name of the network with an id.
abbrev pub name_at : NetworkManager → String → Option String
name_at m id = named (get id m.networks)

-- No two networks have one name, and the default networks are there.
pub record IsValid (m : NetworkManager) : Type 0 where
  pub distinct : Distinct m.networks
  pub one_name : (i j x : String) → name_at m i ≡ some x → name_at m j ≡ some x → i ≡ j
  pub has_bridge : name_at m "bridge" ≡ some "bridge"
  pub has_host : name_at m "host" ≡ some "host"
  pub has_none : name_at m "none" ≡ some "none"

abbrev pub Default : String → Type 0
Default x = (x ≡ "bridge") ⊎ (x ≡ "host") ⊎ (x ≡ "none")

-- An id keeps its name, or has none any more and had no name of a default network.
abbrev pub Narrowed : Option String → Option String → Type 0
Narrowed before after =
    (after ≡ before) ⊎ ((after ≡ none) × ((x : String) → before ≡ some x → ¬ Default x))

pub none-ne-some : (x : String) → ◌≢◌ {A = Option String} none (some x)
none-ne-some x e = cc

pub Narrowed-IsValid :
    (m m' : NetworkManager)
    → Distinct m'.networks
    → ((id : String) → Narrowed (name_at m id) (name_at m' id))
    → IsValid m
    → IsValid m'
Narrowed-IsValid m m' d n v = record {
  distinct = d;
  one_name = λ i j x a b. v.one_name i j x (back i x a) (back j x b);
  has_bridge = stays "bridge" (inl refl) v.has_bridge;
  has_host = stays "host" (inr (inl refl)) v.has_host;
  has_none = stays "none" (inr (inr refl)) v.has_none;
}
  where
    back : (i x : String) → name_at m' i ≡ some x → name_at m i ≡ some x
    back i x a = elim (n i) [ inl e ↦ sym e ∙ a | inr (e, _) ↦ absurd (none-ne-some x (sym e ∙ a)) ]

    stays : (x : String) → Default x → name_at m x ≡ some x → name_at m' x ≡ some x
    stays x h a = elim (n x) [ inl e ↦ e ∙ a | inr (_, g) ↦ absurd (g x a h) ]

named-put :
    (id : String) (n : Network) (m : Map String Network) (k : String)
    → named (get k (put id n m)) ≡ (if k == id then some n.name else named (get k m))
named-put id n m k = ground (arith, get-put id k n m)

-- Putting back a network under its name.
pub put-IsValid :
    (m : NetworkManager) (id : String) (n n' : Network)
    → get id m.networks ≡ some n
    → n'.name ≡ n.name
    → IsValid m
    → IsValid (record { networks = put id n' m.networks })
put-IsValid m id n n' g e v =
    Narrowed-IsValid m (record { networks = put id n' m.networks })
      (put-Distinct id n' m.networks v.distinct) (λ k. inl (same k)) v
  where
    same : (k : String) → named (get k (put id n' m.networks)) ≡ named (get k m.networks)
    same k = ground (arith, named-put id n' m.networks k)

pub delete-IsValid :
    (m : NetworkManager) (id : String) (n : Network)
    → get id m.networks ≡ some n
    → is_default n ≡ false
    → IsValid m
    → IsValid (record { networks = delete id m.networks })
delete-IsValid m id n g d v =
    Narrowed-IsValid m (record { networks = delete id m.networks })
      (delete-Distinct id m.networks v.distinct) narrowed v
  where
    narrowed :
        (k : String) → Narrowed (named (get k m.networks)) (named (get k (delete id m.networks)))
    narrowed k = elim (Bool-cases (k == id)) [
      | inl e ↦ inr (ground (arith, get-delete id k m.networks), λ x h. ground arith)
      | inr e ↦ inl (ground (arith, get-delete id k m.networks))
    ]

some_of-Mem {ℓ} :
    {A : Type ℓ} (p : A → Bool) (a : A) (xs : List A)
    → some_of p xs ≡ false
    → Memᴰ a xs
    → p a ≡ false
some_of-Mem p a [] h m = absurd (Memᴰ.not-nil m)
some_of-Mem p a (x ∷ xs) h m = ground (arith, Mem-cons a x xs, some_of-Mem p a xs)

pub create-IsValid :
    (m : NetworkManager) (id : String) (n : Network)
    → get id m.networks ≡ none
    → some_of (λ a. a.name == n.name) (values m.networks) ≡ false
    → IsValid m
    → IsValid (record { networks = put id n m.networks })
create-IsValid m id n g s v = record {
  distinct = put-Distinct id n m.networks v.distinct;
  one_name = one;
  has_bridge = ground (arith, named-put id n m.networks "bridge", v.has_bridge, absent);
  has_host = ground (arith, named-put id n m.networks "host", v.has_host, absent);
  has_none = ground (arith, named-put id n m.networks "none", v.has_none, absent);
}
  where
    absent : named (get id m.networks) ≡ none
    absent = ap named g

    other : (k : String) → named (get k m.networks) ≢ some n.name
    other k h = elim (Option-cases (get k m.networks)) [
      | inl e ↦ absurd (ground arith)
      | inr (a, e) ↦ absurd (
          ground (
            arith,
            some_of-Mem (λ a. a.name == n.name) a (values m.networks) s
                (Mem-values-of-get k a m.networks e),
          ))
    ]

    one :
        (i j x : String)
        → named (get i (put id n m.networks)) ≡ some x
        → named (get j (put id n m.networks)) ≡ some x
        → i ≡ j
    one i j x a b = ground (
      arith,
      named-put id n m.networks i,
      named-put id n m.networks j,
      other i,
      other j,
      v.one_name i j x,
    )

pub moved : (m m' : NetworkManager) → m ≡ m' → IsValid m' → IsValid m
moved m m' e v = subst IsValid (sym e) v

-- What is read of the entries that pass a test.
pub get-select {ℓ} :
    {V : Type ℓ} (p : V → Bool) (k : String) (m : Map String V)
    → Distinct m
    → get k (select (λ e. p (e.1)) m)
      ≡ elim (get k m) [ none ↦ none | some v ↦ if p v then some v else none ]
unfolding get
get-select p k [] d = refl
get-select p k ((j, w) ∷ m) d = ground (arith, get-select p k m d.1, get-key)
  where
    get-key : k ≡ j → get k m ≡ get j m
    get-key e = ap (λ x. get x m) e

pub select-Distinct {ℓ} :
    {V : Type ℓ} (p : V → Bool) (m : Map String V) → Distinct m → Distinct (select (λ e. p (e.1)) m)
select-Distinct p [] d = tt
select-Distinct p ((j, w) ∷ m) d = ground (arith, select-Distinct p m d.1, get-select p j m d.1)
