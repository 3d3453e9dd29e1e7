-- ===== src/Layer4/Reconciliation/Changes.antt =====
-- The changes that the default reconciler reports (layer4/reconciliation_engine.go).
use mathlib.Core.Path.{subst}
use mathlib.Core.List.{Memᴰ}
use mathlib.Core.List.Memᴰ
use aizo.Prelude.{
  ◌≡◌, ◌≢◌, ◌↔◌, inl, inr, refl, sym, ap, ◌∙◌, String, Bool, true, false, not, Option, none, some,
  List, [], ◌∷◌, Map, get, ◌==◌, Distinct, string_eq, if◌then◌else◌, Option-cases, Bool-cases,
  Mem-cons, arith,
}
use aizo.Layer4.Reconciliation.{ReconciliationChange, change_of, changes_to}

-- What is there differs from what is wanted: nothing is there, or it has another text.
abbrev pub Differs : {V : Type 0} → (V → String) → Option V → V → Type 0
Differs text none v = Unit {0}
Differs text (some w) v = text v ≢ text w

-- The change of a desired field that differs from the actual state, marked as applied.
abbrev pub IsChange :
    {V : Type 0} → (V → String) → Map String V → Map String V → ReconciliationChange V → Type 0
IsChange text desired actual ch =
    (ch.applied ≡ true)
    × (get ch.field_name desired ≡ some ch.new_value)
    × (get ch.field_name actual ≡ ch.old_value)
    × Differs text ch.old_value ch.new_value

module _ {V : Type 0} (text : V → String) where
  abbrev changed : Option V → V → Bool
  changed none v = true
  changed (some w) v = not (text v == text w)

  changed-Differs : (o : Option V) (v : V) → changed o v ≡ true ↔ Differs text o v
  changed-Differs none v = (λ h. tt, λ h. refl)
  changed-Differs (some w) v = (λ h. ground arith, λ h. ground arith)

  changes_to-cons :
      (k : String) (v : V) (desired actual : Map String V)
      → changes_to text ((k, v) ∷ desired) actual ≡ (
          if changed (get k actual) v
          then change_of k (get k actual) v ∷ changes_to text desired actual
          else changes_to text desired actual)
  unfolding changes_to
  changes_to-cons k v desired actual = elim (Option-cases (get k actual)) [
    | inl e ↦ rw (e, changes_to) refl
    | inr (w, e) ↦ elim (Bool-cases (text v == text w)) [
      | inl b ↦ rw (e, changes_to, b) refl
      | inr b ↦ rw (e, changes_to, b) refl
    ]
  ]

  change_eta :
      (ch : ReconciliationChange V) (k : String) (o : Option V) (v : V)
      → ch.field_name ≡ k
      → ch.old_value ≡ o
      → ch.new_value ≡ v
      → ch.applied ≡ true
      → ch ≡ change_of k o v
  change_eta ch k o v a b c d =
      λ i. record { field_name = a i; old_value = b i; new_value = c i; applied = d i }

  module _ (k : String) (v : V) (desired actual : Map String V) (ch : ReconciliationChange V) where
    later :
        get k desired ≡ none
        → IsChange text desired actual ch
        → IsChange text ((k, v) ∷ desired) actual ch
    unfolding get
    later fresh (a, g, o, x) = (a, ground (arith, other), o, x)
      where
        other : ch.field_name ≡ k → get ch.field_name desired ≡ get k desired
        other e = ap (λ j. get j desired) e

    here :
        ch ≡ change_of k (get k actual) v
        → changed (get k actual) v ≡ true
        → IsChange text ((k, v) ∷ desired) actual ch
    unfolding get
    here e b =
        subst (IsChange text ((k, v) ∷ desired) actual) (sym e)
          (refl, ground arith, refl, (changed-Differs (get k actual) v).0 b)

    is_here :
        ch.field_name ≡ k
        → IsChange text ((k, v) ∷ desired) actual ch
        → (ch ≡ change_of k (get k actual) v) × (changed (get k actual) v ≡ true)
    unfolding get
    is_here e (a, g, o, x) =
        let new : ch.new_value ≡ v = ground arith in
        let old : ch.old_value ≡ get k actual = sym o ∙ ap (λ j. get j actual) e in
        (
          change_eta ch k (get k actual) v e old new a,
          (changed-Differs (get k actual) v).1 (
              subst (λ u. Differs text (get k actual) u) new
                (subst (λ u. Differs text u ch.new_value) old x)),
        )

    is_later :
        (ch.field_name == k) ≡ false
        → IsChange text ((k, v) ∷ desired) actual ch
        → IsChange text desired actual ch
    unfolding get
    is_later e (a, g, o, x) = (a, ground arith, o, x)

  IsChange-cons :
      (k : String) (v : V) (desired actual : Map String V) (ch : ReconciliationChange V)
      → get k desired ≡ none
      → (Memᴰ ch (changes_to text desired actual) ↔ IsChange text desired actual ch)
      → Memᴰ ch (changes_to text ((k, v) ∷ desired) actual)
        ↔ IsChange text ((k, v) ∷ desired) actual ch
  IsChange-cons k v desired actual ch fresh ih =
      rw (changes_to-cons k v desired actual) (elim (Bool-cases (changed (get k actual) v)) [
        | inl b ↦ rw b (
          (λ m. elim ((Mem-cons ch first rest).0 m) [
            | inl e ↦ here k v desired actual ch e b
            | inr t ↦ later k v desired actual ch fresh (ih.0 t)
          ]),
          λ h. elim (Bool-cases (ch.field_name == k)) [
            | inl e ↦ Memᴰ.head (is_here k v desired actual ch (ground arith) h).0
            | inr e ↦ Memᴰ.tail (ih.1 (is_later k v desired actual ch e h))
          ],
        )
        | inr b ↦ rw b (
          (λ m. later k v desired actual ch fresh (ih.0 m)),
          λ h. elim (Bool-cases (ch.field_name == k)) [
            | inl e ↦
                let yes_changed = (is_here k v desired actual ch (ground arith) h).1 in
                absurd (ground arith)
            | inr e ↦ ih.1 (is_later k v desired actual ch e h)
          ],
        )
      ])
    where
      first : ReconciliationChange V
      first = change_of k (get k actual) v

      rest : List (ReconciliationChange V)
      rest = changes_to text desired actual

  -- The reported changes are exactly those of the desired fields that differ, each marked as applied.
  pub changes_to-IsChange :
      (desired actual : Map String V) (ch : ReconciliationChange V)
      → Distinct desired
      → Memᴰ ch (changes_to text desired actual) ↔ IsChange text desired actual ch
  unfolding get changes_to
  changes_to-IsChange [] actual ch d = (λ m. absurd (Memᴰ.not-nil m), λ h. absurd (ground arith))
  changes_to-IsChange ((k, v) ∷ desired) actual ch (fresh, d) =
      IsChange-cons k v desired actual ch fresh (changes_to-IsChange desired actual ch d)
