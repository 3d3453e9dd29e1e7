-- ===== src/Layer2/Impact/Held.antt =====
-- Which ids the map of the impacted entities holds, and how many entities of the catalog it does not
-- (layer2/relationship_mapper.go).
use mathlib.Core.List.{Memᴰ}
use mathlib.Core.List.Memᴰ
use aizo.Prelude.{
  ℕ, suc, ◌≤◌, ◌<◌, ◌≡◌, ◌⊎◌, inl, inr, refl, sym, ap, String, Bool, true, false, List, [], ◌∷◌,
  if◌then◌else◌, Map, get, put, get-put, length, string_eq, arith, is_some, Mem-cons,
}
use aizo.Layer2.Entity.{Go}
use aizo.Layer2.Catalog.{Catalog, list_entities}

abbrev pub held : String → Map String ℕ → Bool
held id m = is_some (get id m)

abbrev pub Kept : Map String ℕ → Map String ℕ → Type 0
Kept m m' = (a : String) → held a m ≡ true → held a m' ≡ true

pub held-put :
    (a id : String) (p : ℕ) (m : Map String ℕ)
    → held a (put id p m) ≡ true
    → (a ≡ id) ⊎ (held a m ≡ true)
held-put a id p m h = ground (arith, get-put id a p m)

pub put-held : (id : String) (p : ℕ) (m : Map String ℕ) → held id (put id p m) ≡ true
put-held id p m = ground (arith, get-put id id p m)

pub Kept-put : (id : String) (p : ℕ) (m : Map String ℕ) → Kept m (put id p m)
Kept-put id p m a h = ground (arith, get-put id a p m)

module _ (go : Go) (c : Catalog go) where
  -- How many of the entities are not held.
  unfoldable pub unheld : List ℕ → Map String ℕ → ℕ
  unheld [] m = 0
  unheld (p ∷ ps) m = let rest = unheld ps m in if held (c.heap p).id m then rest else suc rest

  pub unheld-le : (ps : List ℕ) (m m' : Map String ℕ) → Kept m m' → unheld ps m' ≤ unheld ps m
  unfolding unheld
  unheld-le [] m m' k = omega arith
  unheld-le (p ∷ ps) m m' k = ground (arith, unheld-le ps m m' k, k (c.heap p).id)

  pub unheld-lt :
      (q : ℕ) (ps : List ℕ) (m : Map String ℕ)
      → Memᴰ q ps
      → held (c.heap q).id m ≡ false
      → unheld ps (put (c.heap q).id q m) < unheld ps m
  unfolding unheld
  unheld-lt q [] m h f = absurd (Memᴰ.not-nil h)
  unheld-lt q (p ∷ ps) m h f = elim ((Mem-cons q p ps).0 h) [
    | inl e ↦
        let same : (c.heap p).id ≡ (c.heap q).id = ap (λ n. (c.heap n).id) (sym e) in
        ground (
          arith,
          unheld-le ps m (put (c.heap q).id q m) (Kept-put (c.heap q).id q m),
          same,
          put-held (c.heap q).id q m,
        )
    | inr t ↦ ground (arith, unheld-lt q ps m t f, Kept-put (c.heap q).id q m (c.heap p).id)
  ]

  pub unheld-nil : (ps : List ℕ) → unheld ps [] ≡ length ps
  unfolding unheld get
  unheld-nil [] = refl
  unheld-nil (p ∷ ps) = ap suc (unheld-nil ps)

  abbrev pub left : Map String ℕ → ℕ
  left = unheld (list_entities go c)
