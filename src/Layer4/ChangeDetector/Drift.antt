-- ===== src/Layer4/ChangeDetector/Drift.antt =====
-- When DetectDrift finds a drift (layer4/change_detector.go).
use aizo.Prelude.{
  ℕ, ◌≡◌, ◌↔◌, inl, inr, refl, sym, ap, ◌∙◌, String, true, false, Option, none, some, [], ◌∷◌, Map,
  get, Distinct, ◌==◌, string_eq, is_some, Option-cases, Bool-cases, arith,
}
use aizo.Layer4.ChangeDetector.{
  StateDrift, check_field, check_desired, check_extra, detect_drift, add_difference, no_drift,
}

module _ {V : Type 0} {F : Type 0} (text : V → String) (zero_score : F) (percent : ℕ → ℕ → F) where
  -- The text of a field, if it is there.
  abbrev pub shown : Option V → Option String
  shown none = none
  shown (some v) = some (text v)

  -- Every field of the first map stands in the second with an equal value.
  abbrev pub Covers : Map String V → Map String V → Type 0
  Covers [] actual = Unit
  Covers ((k, v) ∷ desired) actual = (shown (get k actual) ≡ some (text v)) × Covers desired actual

  abbrev pub Within : Map String V → Map String V → Type 0
  Within [] desired = Unit
  Within ((k, w) ∷ actual) desired = (is_some (get k desired) ≡ true) × Within actual desired

  check_desired-has_drift :
      (desired actual : Map String V) (d : StateDrift V F)
      → ((check_desired text zero_score percent desired actual d).has_drift ≡ false)
        ↔ ((d.has_drift ≡ false) × Covers desired actual)
  unfolding check_desired check_field
  check_desired-has_drift [] actual d = ground arith
  check_desired-has_drift ((k, v) ∷ desired) actual d = ground (
    arith,
    check_desired-has_drift desired actual (check_field text zero_score percent actual k v d),
  )

  check_extra-has_drift :
      (actual desired : Map String V) (d : StateDrift V F)
      → ((check_extra text zero_score percent actual desired d).has_drift ≡ false)
        ↔ ((d.has_drift ≡ false) × Within actual desired)
  unfolding check_extra
  check_extra-has_drift [] desired d = ground arith
  check_extra-has_drift ((k, w) ∷ actual) desired d = elim (Bool-cases (is_some (get k desired))) [
    | inl e ↦ rw e (ground (arith, check_extra-has_drift actual desired d))
    | inr e ↦ rw e (
        ground (
          arith,
          check_extra-has_drift actual desired
              (add_difference text zero_score percent d k none (some w) "low"),
        ))
  ]

  -- The entries of a map are covered when what is read at every key is.
  Covers-get :
      (desired actual : Map String V)
      → Distinct desired
      → Covers desired actual
      → (k : String) (v : V) → get k desired ≡ some v
      → shown (get k actual) ≡ some (text v)
  unfolding get
  Covers-get [] actual d c k v g = cc
  Covers-get ((j, w) ∷ desired) actual d c k v g = elim (Bool-cases (k == j)) [
    | inl e ↦ at_key e
    | inr e ↦ Covers-get desired actual d.1 c.1 k v (ground arith)
  ]
    where
      at_key : (k == j) ≡ true → shown (get k actual) ≡ some (text v)
      at_key e =
          let p : k ≡ j = ground arith in
          let q : w ≡ v = ground arith in
          ap (λ x. shown (get x actual)) p ∙ c.0 ∙ ap (λ x. some (text x)) q

  get-Covers :
      (desired actual : Map String V)
      → Distinct desired
      → ((k : String) (v : V) → get k desired ≡ some v → shown (get k actual) ≡ some (text v))
      → Covers desired actual
  unfolding get
  get-Covers [] actual d h = tt
  get-Covers ((j, w) ∷ desired) actual d h = (
    h j w (ground arith),
    get-Covers desired actual d.1 (λ k v g. h k v (ground (arith, get_key k))),
  )
    where
      get_key : (k : String) → k ≡ j → get k desired ≡ get j desired
      get_key k e = ap (λ x. get x desired) e

  Within-get :
      (actual desired : Map String V)
      → Within actual desired
      → (k : String) → get k desired ≡ none
      → get k actual ≡ none
  unfolding get
  Within-get [] desired h k g = refl
  Within-get ((j, w) ∷ actual) desired h k g =
      ground (arith, Within-get actual desired h.1 k, get_key)
    where
      get_key : k ≡ j → get k desired ≡ get j desired
      get_key e = ap (λ x. get x desired) e

  get-Within :
      (actual desired : Map String V)
      → Distinct actual
      → ((k : String) → get k desired ≡ none → get k actual ≡ none)
      → Within actual desired
  unfolding get
  get-Within [] desired d h = tt
  get-Within ((j, w) ∷ actual) desired d h =
      (ground (arith, h j), get-Within actual desired d.1 (λ k g. ground (arith, h k g, get_key k)))
    where
      get_key : (k : String) → k ≡ j → get k actual ≡ get j actual
      get_key k e = ap (λ x. get x actual) e

  -- Two states that are there have no drift exactly if at every field either both have values with
  -- one text, or neither has a value.
  pub detect_drift-eq-false_iff :
      (now : ℕ) (desired actual : Map String V)
      → Distinct desired
      → Distinct actual
      → ((detect_drift text zero_score percent now (some desired) (some actual)).has_drift ≡ false)
        ↔ ((k : String) → shown (get k desired) ≡ shown (get k actual))
  unfolding detect_drift
  detect_drift-eq-false_iff now desired actual d a = (agree, drifts_not)
    where
      checked : StateDrift V F
      checked =
          check_desired text zero_score percent desired actual
            (no_drift text zero_score percent now)

      total :
          ((detect_drift text zero_score percent now (some desired) (some actual)).has_drift
            ≡ false)
          ↔ (Covers desired actual × Within actual desired)
      total = ground (
        arith,
        check_extra-has_drift actual desired checked,
        check_desired-has_drift desired actual (no_drift text zero_score percent now),
      )

      agree :
          (detect_drift text zero_score percent now (some desired) (some actual)).has_drift ≡ false
          → (k : String) → shown (get k desired) ≡ shown (get k actual)
      agree h k = elim (Option-cases (get k desired)) [
        | inl e ↦ ground (arith, Within-get actual desired (total.0 h).1 k e)
        | inr (v, e) ↦ ground (arith, Covers-get desired actual d (total.0 h).0 k v e)
      ]

      drifts_not :
          ((k : String) → shown (get k desired) ≡ shown (get k actual))
          → (detect_drift text zero_score percent now (some desired) (some actual)).has_drift
            ≡ false
      drifts_not h = total.1 (
        get-Covers desired actual d (λ k v g. sym (h k) ∙ ap shown g),
        get-Within actual desired a (λ k g. ground (arith, h k)),
      )
