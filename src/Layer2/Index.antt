-- ===== src/Layer2/Index.antt =====
-- The indexes of layer2/catalog.go: a map from a key to the ids of the entities that have it.
use mathlib.Core.List.{Memᴰ}
use mathlib.Core.List.Memᴰ
use aizo.Prelude.{
  ◌≡◌, ◌≢◌, ◌↔◌, ◌⊎◌, inl, inr, sym, ap, ◌∙◌, String, Option, none, some, List, [], ◌∷◌, ◌++◌,
  if◌then◌else◌, Map, get, put, get-put, ◌==◌, string_eq, arith, All-Mem, All-of-Mem, Mem-cons,
  UniqueIds, remove_first, Mem-remove_first, remove_first-UniqueIds, Bool-cases,
}

abbrev pub Index : Type 0
Index = Map String (List String)

-- A read of a missing key is the nil slice.
abbrev pub index_at : String → Index → List String
index_at k ix = elim (get k ix) [ none ↦ [] | some ids ↦ ids ]

-- `removeFromSlice`
unfoldable pub remove_from_slice : List String → String → List String
remove_from_slice slice item = remove_first (λ x. x) item slice

unfoldable pub index_add : String → String → Index → Index
index_add k id ix = put k (index_at k ix ++ id ∷ []) ix

unfoldable pub index_remove : String → String → Index → Index
unfolding remove_from_slice
index_remove k id ix = put k (remove_from_slice (index_at k ix) id) ix

-- The index holds the ids by the key that each has, an id that has none nowhere, and none twice.
pub record IsIndex (key : String → Option String) (ix : Index) : Type 0 where
  pub mem : (k id : String) → Memᴰ id (index_at k ix) ↔ (key id ≡ some k)
  pub unique : (k : String) → UniqueIds (λ (x : String). x) (index_at k ix)

pub index_at-add :
    (j k id : String) (ix : Index)
    → index_at j (index_add k id ix) ≡ (if j == k then index_at k ix ++ id ∷ [] else index_at j ix)
unfolding index_add
index_at-add j k id ix = ground (arith, get-put k j (index_at k ix ++ id ∷ []) ix)

pub index_at-remove :
    (j k id : String) (ix : Index)
    → index_at j (index_remove k id ix)
      ≡ (if j == k then remove_first (λ x. x) id (index_at k ix) else index_at j ix)
unfolding index_remove
index_at-remove j k id ix =
    ground (arith, get-put k j (remove_first (λ x. x) id (index_at k ix)) ix)

pub Mem-snoc : (a x : String) (xs : List String) → Memᴰ a (xs ++ x ∷ []) ↔ (Memᴰ a xs ⊎ (a ≡ x))
Mem-snoc a x [] = (
  λ m. inr (Memᴰ.eq_of_singleton m),
  λ c. elim c [ inl m ↦ absurd (Memᴰ.not-nil m) | inr e ↦ Memᴰ.head e ],
)
Mem-snoc a x (y ∷ ys) =
    ground (arith, Mem-cons a y ys, Mem-cons a y (ys ++ x ∷ []), Mem-snoc a x ys)

unique-snoc :
    (x : String) (xs : List String)
    → UniqueIds (λ (y : String). y) xs
    → ¬ Memᴰ x xs
    → UniqueIds (λ (y : String). y) (xs ++ x ∷ [])
unique-snoc x [] u n = (tt, tt)
unique-snoc x (y ∷ ys) u n = (
  All-of-Mem _ (ys ++ x ∷ []) (λ a m. elim ((Mem-snoc a x ys).0 m) [
    | inl old ↦ All-Mem (λ z. z ≢ y) a ys u.0 old
    | inr new ↦ λ e. n (Memᴰ.head (sym new ∙ e))
  ]),
  unique-snoc x ys u.1 (λ m. n (Memᴰ.tail m)),
)

pub IsIndex-ext :
    (key key' : String → Option String) (ix : Index)
    → IsIndex key ix
    → ((j : String) → key j ≡ key' j)
    → IsIndex key' ix
IsIndex-ext key key' ix v same = record {
  mem = λ j a. ground (arith, v.mem j a, same a);
  unique = v.unique;
}

module _ (key : String → Option String) (k id : String) (ix : Index) (v : IsIndex key ix) where
  pub index_add-IsIndex :
      key id ≡ none → IsIndex (λ j. if j == id then some k else key j) (index_add k id ix)
  index_add-IsIndex fresh =
      let absent : ¬ Memᴰ id (index_at k ix) = λ m. ground (arith, (v.mem k id).0 m) in
      record {
        mem = λ j a.
            rw index_at-add (ground (arith, v.mem j a, Mem-snoc a id (index_at k ix), v.mem k a));
        unique = λ j. elim (Bool-cases (j == k)) [
          | inl e ↦ rw (index_at-add, e) (unique-snoc id (index_at k ix) (v.unique k) absent)
          | inr e ↦ rw (index_at-add, e) (v.unique j)
        ];
      }

  pub index_remove-IsIndex :
      key id ≡ some k → IsIndex (λ j. if j == id then none else key j) (index_remove k id ix)
  index_remove-IsIndex held =
      let removed =
        λ (a : String). Mem-remove_first (λ (x : String). x) id a (index_at k ix) (v.unique k) in
      record {
        mem = λ j a. rw index_at-remove (ground (arith, v.mem j a, v.mem k a, removed a, ap key));
        unique = λ j. elim (Bool-cases (j == k)) [
          | inl e ↦
              rw (index_at-remove, e)
                (remove_first-UniqueIds (λ x. x) id (index_at k ix) (v.unique k))
          | inr e ↦ rw (index_at-remove, e) (v.unique j)
        ];
      }
