-- ===== src/Layer4/StateHistory/Comparison.antt =====
-- What `CompareSnapshots` (layer4/state_history.go) finds between two system states.
use aizo.Prelude.{
  ℕ, ◌≡◌, ◌⊎◌, ◌↔◌, inl, inr, refl, ap, String, true, Option, none, some, List, [], ◌∷◌, ◌++◌, Map,
  get, Distinct, is_some, ◌==◌, string_eq, arith, Bool-cases, Option-cases,
}
use aizo.Layer4.StateStore.{EntityState, Database, SystemState}
use aizo.Layer4.StateHistory.{EntityDifference, compare_old, compare_new, differences}

module _ (J : Type 0) (database : Database J) (heap : ℕ → EntityState J) where
  -- The status of an id in a system state.
  abbrev pub status_in : String → Map String ℕ → Option String
  status_in id m = elim (get id m) [ none ↦ none | some p ↦ some (heap p).status ]

  compare_old-eq-nil :
      (es m : Map String ℕ)
      → Distinct es
      → (compare_old J database heap es m ≡ [])
        ↔ ((id : String) → (get id es ≡ none) ⊎ (status_in id es ≡ status_in id m))
  unfolding compare_old get
  compare_old-eq-nil [] m d = (λ e id. inl refl, λ h. refl)
  compare_old-eq-nil ((j, p) ∷ es) m d = elim (Option-cases (get j m)) [
    | inl e ↦ (λ h. absurd (ground arith), λ h. absurd (ground (arith, h j)))
    | inr (q, e) ↦ elim (Bool-cases ((heap p).status == (heap q).status)) [
      | inl f ↦ (
        λ h id.
            ground (arith, (compare_old-eq-nil es m d.1).0 (ground arith) id, ap (λ x. get x m)),
        λ h. ground (
          arith,
          (compare_old-eq-nil es m d.1).1 (λ id. ground (arith, h id, ap (λ x. get x es))),
        ),
      )
      | inr f ↦ (λ h. absurd (ground arith), λ h. absurd (ground (arith, h j)))
    ]
  ]

  compare_new-eq-nil :
      (es m : Map String ℕ)
      → Distinct es
      → (compare_new J database es m ≡ [])
        ↔ ((id : String) → (get id es ≡ none) ⊎ (is_some (get id m) ≡ true))
  unfolding compare_new get
  compare_new-eq-nil [] m d = (λ e id. inl refl, λ h. refl)
  compare_new-eq-nil ((j, p) ∷ es) m d = elim (Bool-cases (is_some (get j m))) [
    | inl e ↦ (
      λ h id. ground (arith, (compare_new-eq-nil es m d.1).0 (ground arith) id, ap (λ x. get x m)),
      λ h.
          ground (
            arith,
            (compare_new-eq-nil es m d.1).1 (λ id. ground (arith, h id, ap (λ x. get x es))),
          ),
    )
    | inr e ↦ (λ h. absurd (ground arith), λ h. absurd (ground (arith, h j)))
  ]

  append-eq-nil : (xs ys : List EntityDifference) → (xs ++ ys ≡ []) ↔ ((xs ≡ []) × (ys ≡ []))
  append-eq-nil [] ys = (λ e. (refl, e), λ (a, b). b)
  append-eq-nil (x ∷ xs) ys = (λ e. absurd (ground arith), λ (a, b). absurd (ground arith))

  -- Two system states, in each of which an id stands once, have no differences exactly when they have
  -- the same ids with the same statuses; nothing but the status of an entity is compared.
  pub differences-eq-nil :
      (a b : SystemState J database)
      → Distinct a.entities
      → Distinct b.entities
      → (differences J database heap a b ≡ [])
        ↔ ((id : String) → status_in id a.entities ≡ status_in id b.entities)
  unfolding differences
  differences-eq-nil a b da db =
      let old = compare_old-eq-nil a.entities b.entities da in
      let new = compare_new-eq-nil b.entities a.entities db in
      let both =
        append-eq-nil (compare_old J database heap a.entities b.entities)
          (compare_new J database b.entities a.entities) in
      (
        λ h id. ground (arith, old.0 (both.0 h).0 id, new.0 (both.0 h).1 id),
        λ h. both.1 (old.1 (λ id. inr (h id)), new.1 (λ id. ground (arith, h id))),
      )
