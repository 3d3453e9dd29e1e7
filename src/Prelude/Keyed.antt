-- ===== src/Prelude/Keyed.antt =====
-- Slices whose elements carry an id: the loops that replace or remove the first element with an id,
-- as policy/engine.go and layer6/rule_engine.go have them.
use Prim.Native.String.{String}
use mathlib.Core.Path.{◌≡◌, refl, sym, ap, subst}
use mathlib.Core.Logic.{◌≢◌, ◌↔◌, ◌⊎◌, inl, inr}
use mathlib.Core.List.{List, [], ◌∷◌, Memᴰ, Permᴰ}
use mathlib.Core.List.Memᴰ
use mathlib.Core.List.Permᴰ
use mathlib.Core.Option.{Option, none, some}
use native.Mathlib.Omega.{arith}
use aizo.Prelude.Tests.{if◌then◌else◌, Bool-cases}
use aizo.Prelude.Decide.{◌==◌, string_eq}
use aizo.Prelude.Lists.{All, All-Mem, All-of-Mem, Mem-cons, Mem-Perm}

module _ {ℓ} {A : Type ℓ} (id_of : A → String) where
  unfoldable pub replace_or_append : A → List A → List A
  replace_or_append p [] = p ∷ []
  replace_or_append p (q ∷ qs) =
      let rest = replace_or_append p qs in if id_of q == id_of p then p ∷ qs else q ∷ rest

  unfoldable pub remove_first : String → List A → List A
  remove_first id [] = []
  remove_first id (q ∷ qs) = let rest = remove_first id qs in if id_of q == id then qs else q ∷ rest

  unfoldable pub find_first : String → List A → Option A
  find_first id [] = none
  find_first id (q ∷ qs) = let rest = find_first id qs in if id_of q == id then some q else rest

  -- An id stands once.
  abbrev pub UniqueIds : List A → Type ℓ
  UniqueIds [] = Unit
  UniqueIds (p ∷ ps) = All (λ q. id_of q ≢ id_of p) ps × UniqueIds ps

  pub Mem-replace_or_append :
      (p q : A) (ps : List A)
      → UniqueIds ps
      → Memᴰ q (replace_or_append p ps) ↔ ((q ≡ p) ⊎ Memᴰ q ps × (id_of q ≢ id_of p))
  unfolding replace_or_append
  Mem-replace_or_append p q [] u = (
    λ m. inl (Memᴰ.eq_of_singleton m),
    λ c. elim c [ inl e ↦ Memᴰ.head e | inr (m, _) ↦ absurd (Memᴰ.not-nil m) ],
  )
  Mem-replace_or_append p q (r ∷ rs) u =
      let other = λ (m : Memᴰ q rs). All-Mem (λ x. id_of x ≢ id_of r) q rs u.0 m in
      let same = λ (e : q ≡ r). ap id_of e in
      ground (
        arith,
        Mem-cons q r rs,
        Mem-cons q p rs,
        Mem-cons q r (replace_or_append p rs),
        Mem-replace_or_append p q rs,
        other,
        same,
      )

  pub Mem-remove_first :
      (id : String) (q : A) (ps : List A)
      → UniqueIds ps
      → Memᴰ q (remove_first id ps) ↔ (Memᴰ q ps × (id_of q ≢ id))
  unfolding remove_first
  Mem-remove_first id q [] u = (λ m. absurd (Memᴰ.not-nil m), λ m. m.0)
  Mem-remove_first id q (r ∷ rs) u =
      let other = λ (m : Memᴰ q rs). All-Mem (λ x. id_of x ≢ id_of r) q rs u.0 m in
      let same = λ (e : q ≡ r). ap id_of e in
      ground (
        arith,
        Mem-cons q r rs,
        Mem-cons q r (remove_first id rs),
        Mem-remove_first id q rs,
        other,
        same,
      )

  pub replace_or_append-UniqueIds :
      (p : A) (ps : List A) → UniqueIds ps → UniqueIds (replace_or_append p ps)
  unfolding replace_or_append
  replace_or_append-UniqueIds p [] u = (tt, tt)
  replace_or_append-UniqueIds p (r ∷ rs) u = elim (Bool-cases (id_of r == id_of p)) [
    | inl e ↦
        rw e (
          All-of-Mem _ rs (λ q m. ground (arith, All-Mem (λ x. id_of x ≢ id_of r) q rs u.0 m)),
          u.1,
        )
    | inr n ↦ rw n (
      All-of-Mem _ (replace_or_append p rs) (λ q m. elim ((Mem-replace_or_append p q rs u.1).0 m) [
        | inl e ↦ ground (arith, ap id_of e)
        | inr (m', _) ↦ All-Mem (λ x. id_of x ≢ id_of r) q rs u.0 m'
      ]),
      replace_or_append-UniqueIds p rs u.1,
    )
  ]

  pub remove_first-UniqueIds :
      (id : String) (ps : List A) → UniqueIds ps → UniqueIds (remove_first id ps)
  unfolding remove_first
  remove_first-UniqueIds id [] u = tt
  remove_first-UniqueIds id (r ∷ rs) u = elim (Bool-cases (id_of r == id)) [
    | inl e ↦ rw e u.1
    | inr n ↦ rw n (
      All-of-Mem _ (remove_first id rs)
          (λ q m. All-Mem (λ x. id_of x ≢ id_of r) q rs u.0 ((Mem-remove_first id q rs u.1).0 m).0),
      remove_first-UniqueIds id rs u.1,
    )
  ]

  pub find_first-replace_or_append :
      (id : String) (p : A) (ps : List A)
      → find_first id (replace_or_append p ps)
        ≡ (if id_of p == id then some p else find_first id ps)
  unfolding find_first replace_or_append
  find_first-replace_or_append id p [] = refl
  find_first-replace_or_append id p (r ∷ rs) = ground (arith, find_first-replace_or_append id p rs)

  pub find_first-Mem :
      (id : String) (p : A) (ps : List A) → find_first id ps ≡ some p → Memᴰ p ps × (id_of p ≡ id)
  unfolding find_first
  find_first-Mem id p [] h = absurd (ground arith)
  find_first-Mem id p (r ∷ rs) h = elim (Bool-cases (id_of r == id)) [
    | inl e ↦ (Memᴰ.head (ground arith), ground arith)
    | inr n ↦ let (m, e) = find_first-Mem id p rs (ground arith) in (Memᴰ.tail m, e)
  ]

  pub UniqueIds-Perm : {ps qs : List A} → Permᴰ ps qs → UniqueIds ps → UniqueIds qs
  UniqueIds-Perm Permᴰ.nil u = tt
  UniqueIds-Perm (Permᴰ.cons {a = p} {b = q} {l₁ = ps} {l₂ = qs} e h) u = (
    subst (λ x. All (λ y. id_of y ≢ id_of x) qs) e
        (All-of-Mem _ qs
          (λ y m. All-Mem (λ y. id_of y ≢ id_of p) y ps u.0 (Mem-Perm y (Permᴰ.symm h) m))),
    UniqueIds-Perm h u.1,
  )
  UniqueIds-Perm (Permᴰ.swap {a = p} {b = q} {a' = q'} {b' = p'} {l = l} e f) u =
      let swapped : UniqueIds (q ∷ p ∷ l) = ((λ x. u.0.0 (sym x), u.1.0), (u.0.1, u.1.1)) in
      subst (λ x. UniqueIds (x ∷ p' ∷ l)) f (subst (λ x. UniqueIds (q ∷ x ∷ l)) e swapped)
  UniqueIds-Perm (Permᴰ.trans h k) u = UniqueIds-Perm k (UniqueIds-Perm h u)
