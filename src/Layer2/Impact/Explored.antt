-- ===== src/Layer2/Impact/Explored.antt =====
-- What `collectImpactedEntities` leaves in the map of the impacted entities, and that it ends
-- (layer2/relationship_mapper.go).
use mathlib.Core.Path.{subst}
use mathlib.Core.List.{Memᴰ}
use mathlib.Core.List.Memᴰ
use aizo.Prelude.{
  ℕ, zero, suc, ◌≤◌, ◌<◌, ◌≡◌, ◌⊎◌, inl, inr, refl, sym, String, true, false, Option, none, some,
  List, [], ◌∷◌, Map, get, put, string_eq, arith, Bool-cases, Mem-cons,
}
use aizo.Layer2.Entity.{Go}
use aizo.Layer2.Catalog.{Catalog, list_entities}
use aizo.Layer2.Impact.{dependents, visit, collect_impacted_entities}
use aizo.Layer2.Impact.Reach.{
  Depends, dependents_in-Depends, Depends-dependents_in, Reaches, direct, through, Reaches-trans,
}
use aizo.Layer2.Impact.Held.{held, Kept, held-put, put-held, Kept-put, unheld-le, unheld-lt, left}

module _ (go : Go) (c : Catalog go) where
  -- The map m' grew from m by entities that are affected by the id, and has what depends on these.
  abbrev pub Grown : String → Map String ℕ → Map String ℕ → Type 0
  Grown id m m' =
      Kept m m'
      × ((a : String) → held a m' ≡ true → (held a m ≡ true) ⊎ Reaches go c a id)
      × ((a b : String)
          → held b m' ≡ true
          → Depends go c a b
          → (held b m ≡ true) ⊎ (held a m' ≡ true))

  -- The recursive call has an outcome, which grew from what it was given and has what depends on the id.
  abbrev pub Explores : String → Map String ℕ → Option (Map String ℕ) → Type 0
  Explores id m none = ⊥
  Explores id m (some m') = Grown id m m' × ((a : String) → Depends go c a id → held a m' ≡ true)

  -- So does the walk over the candidates.
  abbrev Visits : String → List ℕ → Map String ℕ → Option (Map String ℕ) → Type 0
  Visits id qs m none = ⊥
  Visits id qs m (some m') = Grown id m m' × ((q : ℕ) → Memᴰ q qs → held (c.heap q).id m' ≡ true)

  Grown-refl : (id : String) (m : Map String ℕ) → Grown id m m
  Grown-refl id m = ((λ a h. h), (λ a h. inl h), (λ a b h d. inl h))

  Grown-trans :
      (id : String) (m m' m'' : Map String ℕ) → Grown id m m' → Grown id m' m'' → Grown id m m''
  Grown-trans id m m' m'' (k, s, l) (k', s', l') = (
    (λ a h. k' a (k a h)),
    (λ a h. elim (s' a h) [ inl e ↦ s a e | inr r ↦ inr r ]),
    λ a b h d. elim (l' a b h d) [
      | inl e ↦ elim (l a b e d) [ inl f ↦ inl f | inr f ↦ inr (k' a f) ]
      | inr f ↦ inr f
    ],
  )

  -- The recursive call for an entity that depends on the id, which is put in the map before.
  Grown-call :
      (id : String) (q : ℕ) (m m' : Map String ℕ)
      → Depends go c (c.heap q).id id
      → Explores (c.heap q).id (put (c.heap q).id q m) (some m')
      → Grown id m m'
  Grown-call id q m m' d ((k, s, l), near) = (
    (λ a h. k a (Kept-put (c.heap q).id q m a h)),
    (λ a h. elim (s a h) [
      | inl e ↦ elim (held-put a (c.heap q).id q m e) [
        | inl same ↦ inr (direct (subst (λ x. Depends go c x id) (sym same) d))
        | inr f ↦ inl f
      ]
      | inr r ↦ inr (Reaches-trans go c r (direct d))
    ]),
    λ a b h e. elim (l a b h e) [
      | inl f ↦ elim (held-put b (c.heap q).id q m f) [
        | inl same ↦ inr (near a (subst (λ x. Depends go c a x) same e))
        | inr g ↦ inl g
      ]
      | inr f ↦ inr f
    ],
  )

  Visits-cons :
      (id : String) (q : ℕ) (qs : List ℕ) (m m' : Map String ℕ) (o : Option (Map String ℕ))
      → Grown id m m'
      → held (c.heap q).id m' ≡ true
      → Visits id qs m' o
      → Visits id (q ∷ qs) m o
  Visits-cons id q qs m m' none g h v = v
  Visits-cons id q qs m m' (some m'') g h (g', all) = (
    Grown-trans id m m' m'' g g',
    λ p i. elim ((Mem-cons p q qs).0 i) [
      | inl e ↦ subst (λ x. held (c.heap x).id m'' ≡ true) (sym e) (g'.0 (c.heap q).id h)
      | inr t ↦ all p t
    ],
  )

  Explores-Visits :
      (call : String → Map String ℕ → Option (Map String ℕ)) (id : String) (q : ℕ) (qs : List ℕ)
      (m : Map String ℕ) (o : Option (Map String ℕ))
      → Depends go c (c.heap q).id id
      → Explores (c.heap q).id (put (c.heap q).id q m) o
      → ((m' : Map String ℕ) → Kept m m' → Visits id qs m' (visit go c call qs m'))
      → Visits id (q ∷ qs) m (elim o [ none ↦ none | some m' ↦ visit go c call qs m' ])
  Explores-Visits call id q qs m none d x later = x
  Explores-Visits call id q qs m (some m') d x later =
      let g = Grown-call id q m m' d x in
      Visits-cons id q qs m m' (visit go c call qs m') g
        (x.0.0 (c.heap q).id (put-held (c.heap q).id q m)) (later m' g.0)

  visit-Visits :
      (call : String → Map String ℕ → Option (Map String ℕ)) (id : String) (n : ℕ) (qs : List ℕ)
      (m : Map String ℕ)
      → ((q : ℕ) → Memᴰ q qs → Memᴰ q (list_entities go c) × Depends go c (c.heap q).id id)
      → left go c m ≤ n
      → ((q : ℕ) (m' : Map String ℕ)
          → Memᴰ q (list_entities go c)
          → held (c.heap q).id m' ≡ false
          → left go c m' ≤ n
          → Explores
              (c.heap q).id
              (put (c.heap q).id q m')
              (call (c.heap q).id (put (c.heap q).id q m')))
      → Visits id qs m (visit go c call qs m)
  unfolding visit
  visit-Visits call id n [] m from le ok = (Grown-refl id m, λ q h. absurd (Memᴰ.not-nil h))
  visit-Visits call id n (q ∷ qs) m from le ok =
      let later : (p : ℕ)
          → Memᴰ p qs
          → Memᴰ p (list_entities go c) × Depends go c (c.heap p).id id =
        λ p h. from p (Memᴰ.tail h) in
      elim (Bool-cases (held (c.heap q).id m)) [
        | inl e ↦ rw e (
            Visits-cons id q qs m m (visit go c call qs m) (Grown-refl id m) e
              (visit-Visits call id n qs m later le ok))
        | inr e ↦
            let (registered, d) = from q (Memᴰ.head refl) in
            rw e (
              Explores-Visits call id q qs m (call (c.heap q).id (put (c.heap q).id q m)) d
                (ok q m registered e le)
                (λ m' k.
                  visit-Visits call id n qs m' later
                    (omega (arith, unheld-le go c (list_entities go c) m m' k)) ok))
      ]

  -- The search has an outcome with one call more than there are entities that are not held.
  pub collect-Explores :
      (fuel : ℕ) (id : String) (m : Map String ℕ)
      → left go c m < fuel
      → Explores id m (collect_impacted_entities go c fuel id m)
  unfolding collect_impacted_entities
  collect-Explores zero id m h = absurd (omega arith)
  collect-Explores (suc fuel) id m h =
      near (visit go c (collect_impacted_entities go c fuel) (dependents go c id) m) (
        visit-Visits (collect_impacted_entities go c fuel) id (left go c m) (dependents go c id) m
          (λ q i.
            let (registered, x) = dependents_in-Depends go c id q (list_entities go c) i in
            (registered, (q, registered, refl, x)))
          (omega arith)
          (λ q m' i f le.
            collect-Explores fuel (c.heap q).id (put (c.heap q).id q m')
              (omega (arith, unheld-lt go c q (list_entities go c) m' i f))))
    where
      near : (o : Option (Map String ℕ)) → Visits id (dependents go c id) m o → Explores id m o
      near none v = v
      near (some m') (g, all) = (
        g,
        λ a (p, i, e, (r, i', o)).
            subst (λ x. held x m' ≡ true) e
              (all p (Depends-dependents_in go c id p r (list_entities go c) i i' o)),
      )

  -- What depends on the id, however far, is in the map that a search from the empty map leaves.
  pub Reaches-held :
      (a id : String) (m : Map String ℕ)
      → Explores id [] (some m)
      → Reaches go c a id
      → held a m ≡ true
  Reaches-held a id m (g, near) (direct d) = near a d
  Reaches-held a id m (g, near) (through d r) = elim (g.2 a _ (Reaches-held _ id m (g, near) r) d) [
    | inl e ↦ absurd (unfold get in ground arith)
    | inr h ↦ h
  ]
