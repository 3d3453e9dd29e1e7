-- ===== src/Prelude/Lists.antt =====
-- Lists measured by native numbers, loops over lists, and membership.
use Prim.Native.Nat.{ℕ, zero, suc, ◌+◌, ◌-◌, ◌≤◌}
use mathlib.Core.Path.{◌≡◌, refl, sym, subst, ◌∙◌}
use mathlib.Core.Option.{Option, none, some}
use mathlib.Core.Logic.{◌↔◌, ◌⊎◌, inl, inr, ⊎_elim}
use mathlib.Core.Bool.{Bool, true, false, ◌||◌}
use mathlib.Core.List.{List, [], ◌∷◌, ◌++◌, Memᴰ, Permᴰ}
use mathlib.Core.List.Memᴰ
use native.Mathlib.Omega.{arith}
use aizo.Prelude.Tests.{if◌then◌else◌}

module _ {ℓ} {A : Type ℓ} where
  abbrev pub length : List A → ℕ
  length [] = 0
  length (x ∷ xs) = suc (length xs)

  pub length-append : (xs ys : List A) → length (xs ++ ys) ≡ length xs + length ys
  length-append [] ys = omega arith
  length-append (x ∷ xs) ys = omega (arith, length-append xs ys)

  -- The elements that pass a Boolean test, in order.
  abbrev pub select : (A → Bool) → List A → List A
  select p [] = []
  select p (x ∷ xs) = let rest = select p xs in if p x then x ∷ rest else rest

  -- Whether some element passes the test.
  abbrev pub some_of : (A → Bool) → List A → Bool
  some_of p [] = false
  some_of p (x ∷ xs) = p x || some_of p xs

  pub Mem-cons : (a x : A) (xs : List A) → Memᴰ a (x ∷ xs) ↔ ((a ≡ x) ⊎ Memᴰ a xs)
  Mem-cons a x xs = (Memᴰ.cases_cons, ⊎_elim Memᴰ.head Memᴰ.tail)

  -- What a test selects are the elements that pass it.
  pub Mem-select :
      (p : A → Bool) (a : A) (xs : List A) → Memᴰ a (select p xs) ↔ (Memᴰ a xs × (p a ≡ true))
  Mem-select p a [] = (λ m. absurd (Memᴰ.not-nil m), λ m. m.0)
  Mem-select p a (x ∷ xs) =
      ground (arith, Mem-select p a xs, Mem-cons a x xs, Mem-cons a x (select p xs))

  abbrev pub get_elem? : List A → ℕ → Option A
  get_elem? [] i = none
  get_elem? (x ∷ xs) zero = some x
  get_elem? (x ∷ xs) (suc i) = get_elem? xs i

  -- A predicate of every element, by recursion, which the tactics read and build.
  abbrev pub All {κ} : (A → Type κ) → List A → Type κ
  All P [] = Unit
  All P (x ∷ xs) = P x × All P xs

  pub All-Mem {κ} : (P : A → Type κ) (a : A) (xs : List A) → All P xs → Memᴰ a xs → P a
  All-Mem P a [] h m = absurd (Memᴰ.not-nil m)
  All-Mem P a (x ∷ xs) h m = elim ((Mem-cons a x xs).0 m) [
    | inl e ↦ subst P (sym e) h.0
    | inr t ↦ All-Mem P a xs h.1 t
  ]

  pub All-of-Mem {κ} : (P : A → Type κ) (xs : List A) → ((a : A) → Memᴰ a xs → P a) → All P xs
  All-of-Mem P [] h = tt
  All-of-Mem P (x ∷ xs) h = (h x (Memᴰ.head refl), All-of-Mem P xs (λ a m. h a (Memᴰ.tail m)))

  -- A rearrangement has the same elements.
  pub Mem-Perm : (a : A) {xs ys : List A} → Permᴰ xs ys → Memᴰ a xs → Memᴰ a ys
  Mem-Perm a Permᴰ.nil m = m
  Mem-Perm a (Permᴰ.cons {a = x} {b = y} {l₁ = xs} e p) m = elim ((Mem-cons a x xs).0 m) [
    | inl h ↦ Memᴰ.head (h ∙ e)
    | inr t ↦ Memᴰ.tail (Mem-Perm a p t)
  ]
  Mem-Perm a (Permᴰ.swap {a = x} {b = y} {l} e f) m = elim ((Mem-cons a x (y ∷ l)).0 m) [
    | inl h ↦ Memᴰ.tail (Memᴰ.head (h ∙ e))
    | inr t ↦ elim ((Mem-cons a y l).0 t) [
      | inl h ↦ Memᴰ.head (h ∙ f)
      | inr u ↦ Memᴰ.tail (Memᴰ.tail u)
    ]
  ]
  Mem-Perm a (Permᴰ.trans p q) m = Mem-Perm a q (Mem-Perm a p m)

  abbrev pub drop : ℕ → List A → List A
  drop zero xs = xs
  drop (suc n) [] = []
  drop (suc n) (x ∷ xs) = drop n xs

  abbrev pub take : ℕ → List A → List A
  take zero xs = []
  take (suc n) [] = []
  take (suc n) (x ∷ xs) = x ∷ take n xs

  pub take-append-drop : (n : ℕ) (xs : List A) → take n xs ++ drop n xs ≡ xs
  take-append-drop zero xs = refl
  take-append-drop (suc n) [] = refl
  take-append-drop (suc n) (x ∷ xs) = rw (take-append-drop n xs)

  pub length-drop : (n : ℕ) (xs : List A) → length (drop n xs) ≡ length xs - n
  length-drop zero xs = omega arith
  length-drop (suc n) [] = omega arith
  length-drop (suc n) (x ∷ xs) = omega (arith, length-drop n xs)

  pub take-append : (n : ℕ) (xs ys : List A) → length xs ≡ n → take n (xs ++ ys) ≡ xs
  take-append zero [] ys h = refl
  take-append zero (x ∷ xs) ys h = absurd (omega (arith, h))
  take-append (suc n) [] ys h = absurd (omega (arith, h))
  take-append (suc n) (x ∷ xs) ys h = rw (take-append n xs ys (omega (arith, h)))

  pub drop-append : (n : ℕ) (xs ys : List A) → length xs ≡ n → drop n (xs ++ ys) ≡ ys
  drop-append zero [] ys h = refl
  drop-append zero (x ∷ xs) ys h = absurd (omega (arith, h))
  drop-append (suc n) [] ys h = absurd (omega (arith, h))
  drop-append (suc n) (x ∷ xs) ys h = drop-append n xs ys (omega (arith, h))

  pub length-take : (n : ℕ) (xs : List A) → n ≤ length xs → length (take n xs) ≡ n
  length-take zero xs h = refl
  length-take (suc n) [] h = absurd (omega (arith, h))
  length-take (suc n) (x ∷ xs) h = omega (arith, h, length-take n xs)

  pub take_past :
      (n : ℕ) (xs ys : List A) → length xs ≤ n → take n (xs ++ ys) ≡ xs ++ take (n - length xs) ys
  take_past n [] ys h = ground arith
  take_past zero (x ∷ xs) ys h = absurd (omega (arith, h))
  take_past (suc n) (x ∷ xs) ys h = ground (arith, take_past n xs ys)

  pub take_all : (n : ℕ) (xs : List A) → length xs ≤ n → take n xs ≡ xs
  take_all zero [] h = refl
  take_all zero (x ∷ xs) h = absurd (omega (arith, h))
  take_all (suc n) [] h = refl
  take_all (suc n) (x ∷ xs) h = rw (take_all n xs (omega (arith, h)))

  pub drop_all : (n : ℕ) (xs : List A) → length xs ≤ n → drop n xs ≡ []
  drop_all zero [] h = refl
  drop_all zero (x ∷ xs) h = absurd (omega (arith, h))
  drop_all (suc n) [] h = refl
  drop_all (suc n) (x ∷ xs) h = drop_all n xs (omega (arith, h))

  pub take_next : (n k : ℕ) (xs : List A) → take n xs ++ take k (drop n xs) ≡ take (n + k) xs
  take_next zero k xs = ground arith
  take_next (suc n) k [] = take_all k [] (omega arith) ∙ sym (take_all (suc n + k) [] (omega arith))
  take_next (suc n) k (x ∷ xs) =
      let e : suc n + k ≡ suc (n + k) = omega arith in rw (e, take_next n k xs) refl

  pub length-take_le : (n : ℕ) (xs : List A) → length (take n xs) ≤ length xs
  length-take_le zero xs = omega arith
  length-take_le (suc n) [] = omega arith
  length-take_le (suc n) (x ∷ xs) = omega (arith, length-take_le n xs)
