-- ===== src/Prelude/Maps.antt =====
-- Go maps as association lists. Go leaves the order of an iteration open; here it is the order of
-- the list, so a theorem for every list is one for every order of iteration.
use Prim.Native.Nat.{◌+◌}
use mathlib.Core.Path.{◌≡◌, refl, ap}
use mathlib.Core.Logic.{◌≢◌, inl, inr}
use mathlib.Core.List.{List, [], ◌∷◌, map, Memᴰ}
use mathlib.Core.List.Memᴰ
use mathlib.Core.Option.{Option, none, some}
use native.Mathlib.Omega.{arith}
use aizo.Prelude.Tests.{if◌then◌else◌, is_some}
use aizo.Prelude.Decide.{Eq, ◌==◌}
use aizo.Prelude.Lists.{length, Mem-cons}

abbrev pub Map {ℓ κ} : Type ℓ → Type κ → Type (ℓ ⊔ κ)
Map K V = List (K × V)

module _ {ℓ κ} {K : Type ℓ} {V : Type κ} where
  -- The keys and the values, in the order of an iteration.
  abbrev pub keys : Map K V → List K
  keys = map (λ e. e.0)

  abbrev pub values : Map K V → List V
  values = map (λ e. e.1)

module _ {ℓ κ} {K : Type ℓ} {V : Type κ} ⦃e : Eq K⦄ where
  -- `v, ok := m[k]`
  unfoldable pub get : K → Map K V → Option V
  get k [] = none
  get k ((j, w) ∷ m) = if k == j then some w else get k m

  -- `m[k] = v`
  unfoldable pub put : K → V → Map K V → Map K V
  put k v [] = (k, v) ∷ []
  put k v ((j, w) ∷ m) = if k == j then (j, v) ∷ m else (j, w) ∷ put k v m

  -- `delete(m, k)`
  unfoldable pub delete : K → Map K V → Map K V
  delete k [] = []
  delete k ((j, w) ∷ m) = let rest = delete k m in if k == j then rest else (j, w) ∷ rest

  pub get-put :
      (k j : K) (v : V) (m : Map K V) → get j (put k v m) ≡ (if j == k then some v else get j m)
  unfolding get put
  get-put k j v [] = refl
  get-put k j v ((i, w) ∷ m) = ground (arith, get-put k j v m)

  pub get-delete : (k j : K) (m : Map K V) → get j (delete k m) ≡ (if j == k then none else get j m)
  unfolding get delete
  get-delete k j [] = ground arith
  get-delete k j ((i, w) ∷ m) = ground (arith, get-delete k j m)

  -- A key stands once, as in every Go map.
  abbrev pub Distinct : Map K V → Type (ℓ ⊔ κ)
  Distinct [] = Unit
  Distinct ((k, v) ∷ m) = (get k m ≡ none) × Distinct m

  pub put-Distinct : (k : K) (v : V) (m : Map K V) → Distinct m → Distinct (put k v m)
  unfolding get put
  put-Distinct k v [] h = ground arith
  put-Distinct k v ((i, w) ∷ m) h = ground (arith, put-Distinct k v m, get-put k i v m)

  pub delete-Distinct : (k : K) (m : Map K V) → Distinct m → Distinct (delete k m)
  unfolding get delete
  delete-Distinct k [] h = tt
  delete-Distinct k ((i, w) ∷ m) h = ground (arith, delete-Distinct k m, get-delete k i m)

  -- A new key makes the map one longer, an old one leaves its length.
  pub length-put :
      (k : K) (v : V) (m : Map K V)
      → length (put k v m) ≡ (if is_some (get k m) then length m else length m + 1)
  unfolding get put
  length-put k v [] = ground arith
  length-put k v ((i, w) ∷ m) = ground (arith, length-put k v m)

  pub delete_absent : (k : K) (m : Map K V) → get k m ≡ none → delete k m ≡ m
  unfolding get delete
  delete_absent k [] h = refl
  delete_absent k ((i, w) ∷ m) h = ground (arith, delete_absent k m)

  pub length-delete :
      (k : K) (v : V) (m : Map K V)
      → Distinct m
      → get k m ≡ some v
      → length (delete k m) + 1 ≡ length m
  unfolding get delete
  length-delete k v [] d h = cc
  length-delete k v ((i, w) ∷ m) d h =
      ground (arith, length-delete k v m, delete_absent k m, get-key)
    where
      get-key : k ≡ i → get k m ≡ get i m
      get-key p = ap (λ x. get x m) p

  -- The entries of a map are what a read of their keys gives.
  pub Mem-of-get : (k : K) (v : V) (m : Map K V) → get k m ≡ some v → Memᴰ (k, v) m
  unfolding get
  Mem-of-get k v [] h = cc
  Mem-of-get k v ((i, w) ∷ m) h = elim (e.dec k i) [
    | yes p ↦ Memᴰ.head (ground arith)
    | no p ↦ Memᴰ.tail (Mem-of-get k v m (ground arith))
  ]

  pub get-none-of-Mem : (k : K) (v : V) (m : Map K V) → Memᴰ (k, v) m → get k m ≢ none
  unfolding get
  get-none-of-Mem k v [] h = absurd (Memᴰ.not-nil h)
  get-none-of-Mem k v ((i, w) ∷ m) h =
      ground (arith, Mem-cons (k, v) (i, w) m, get-none-of-Mem k v m)

  pub get-of-Mem : (k : K) (v : V) (m : Map K V) → Distinct m → Memᴰ (k, v) m → get k m ≡ some v
  unfolding get
  get-of-Mem k v [] d h = absurd (Memᴰ.not-nil h)
  get-of-Mem k v ((i, w) ∷ m) d h =
      ground (arith, Mem-cons (k, v) (i, w) m, get-of-Mem k v m, get-none-of-Mem k v m)

  -- The values of an iteration are the values that some key reads.
  pub Mem-values-of-get : (k : K) (v : V) (m : Map K V) → get k m ≡ some v → Memᴰ v (values m)
  unfolding get
  Mem-values-of-get k v [] h = cc
  Mem-values-of-get k v ((i, w) ∷ m) h = elim (e.dec k i) [
    | yes p ↦ Memᴰ.head (ground arith)
    | no p ↦ Memᴰ.tail (Mem-values-of-get k v m (ground arith))
  ]

  pub key_of_value :
      (v : V) (m : Map K V) → Distinct m → Memᴰ v (values m) → (k : K) × (get k m ≡ some v)
  unfolding get
  key_of_value v [] d h = absurd (Memᴰ.not-nil h)
  key_of_value v ((i, w) ∷ m) d h = elim ((Mem-cons v w (values m)).0 h) [
    | inl p ↦ (i, ground arith)
    | inr q ↦ let (k, g) = key_of_value v m d.1 q in (k, ground arith)
  ]
