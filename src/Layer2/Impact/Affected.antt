-- ===== src/Layer2/Impact/Affected.antt =====
-- `GetImpactedEntities` answers with exactly the entities that are affected
-- (layer2/relationship_mapper.go).
use mathlib.Core.Path.{subst}
use mathlib.Core.List.{Memᴰ}
use aizo.Prelude.{
  UniqueIds, All-of-Mem, ℕ, zero, suc, ◌+◌, ◌≡◌, ◌↔◌, refl, sym, ap, ◌∙◌, String, true, Option,
  none, some, List, [], ◌∷◌, Map, get, put, get-put, ◌==◌, values, length, string_eq, arith,
  Option-cases, Bool-cases, Distinct, ◌<◌, put-Distinct, key_of_value, Mem-values-of-get, inl, inr,
}
use aizo.Layer2.Entity.{Go}
use aizo.Layer2.Catalog.{Catalog, get_entity, list_entities}
use aizo.Layer2.Impact.{
  dependents, visit, collect_impacted_entities, get_impacted_entities, entities,
}
use aizo.Layer2.Impact.Reach.{dependents_in-Depends, Reaches}
use aizo.Layer2.Impact.Held.{held, unheld, unheld-nil}
use aizo.Layer2.Impact.Explored.{Explores, Reaches-held, collect-Explores}

length-values : (m : Map String ℕ) → length (values m) ≡ length m
length-values [] = refl
length-values ((k, v) ∷ m) = ap suc (length-values m)

module _ (go : Go) (c : Catalog go) where
  -- Each key stands once, over a registered entity that has it for its id.
  abbrev Keyed : Map String ℕ → Type 0
  Keyed m =
      Distinct m
      × ((k : String) (q : ℕ)
          → get k m ≡ some q
          → ((c.heap q).id ≡ k) × Memᴰ q (list_entities go c))

  abbrev Keeps : Option (Map String ℕ) → Type 0
  Keeps none = Unit
  Keeps (some m) = Keyed m

  Keyed-put :
      (q : ℕ) (m : Map String ℕ)
      → Memᴰ q (list_entities go c)
      → Keyed m
      → Keyed (put (c.heap q).id q m)
  Keyed-put q m i (d, h) = (
    put-Distinct (c.heap q).id q m d,
    λ k r e. elim (Bool-cases (k == (c.heap q).id)) [
      | inl same ↦
          let there : q ≡ r = ground (arith, get-put (c.heap q).id k q m) in
          (
            ground (arith, ap (λ x. (c.heap x).id) there),
            subst (λ x. Memᴰ x (list_entities go c)) there i,
          )
      | inr other ↦ h k r (ground (arith, get-put (c.heap q).id k q m))
    ],
  )

  Keeps-bind :
      (o : Option (Map String ℕ)) (f : Map String ℕ → Option (Map String ℕ))
      → ((m : Map String ℕ) → Keyed m → Keeps (f m))
      → Keeps o
      → Keeps (elim o [ none ↦ none | some m ↦ f m ])
  Keeps-bind none f ok k = tt
  Keeps-bind (some m) f ok k = ok m k

  visit-Keyed :
      (call : String → Map String ℕ → Option (Map String ℕ)) (qs : List ℕ) (m : Map String ℕ)
      → ((id : String) (m' : Map String ℕ) → Keyed m' → Keeps (call id m'))
      → ((q : ℕ) → Memᴰ q qs → Memᴰ q (list_entities go c))
      → Keyed m
      → Keeps (visit go c call qs m)
  unfolding visit
  visit-Keyed call [] m ok from h = h
  visit-Keyed call (q ∷ qs) m ok from h = elim (Bool-cases (held (c.heap q).id m)) [
    | inl e ↦ rw e (visit-Keyed call qs m ok (λ p i. from p (Memᴰ.tail i)) h)
    | inr e ↦ rw e (
        Keeps-bind (call (c.heap q).id (put (c.heap q).id q m)) (visit go c call qs)
          (λ m' k. visit-Keyed call qs m' ok (λ p i. from p (Memᴰ.tail i)) k)
          (ok (c.heap q).id (put (c.heap q).id q m) (Keyed-put q m (from q (Memᴰ.head refl)) h)))
  ]

  collect-Keyed :
      (fuel : ℕ) (id : String) (m : Map String ℕ)
      → Keyed m
      → Keeps (collect_impacted_entities go c fuel id m)
  unfolding collect_impacted_entities
  collect-Keyed zero id m h = tt
  collect-Keyed (suc fuel) id m h =
      visit-Keyed (collect_impacted_entities go c fuel) (dependents go c id) m (collect-Keyed fuel)
        (λ q i. (dependents_in-Depends go c id q (list_entities go c) i).0) h

  -- The entity a is among those of the answer.
  abbrev pub Among : String → List ℕ → Type 0
  Among a ps = (q : ℕ) × Memᴰ q ps × ((c.heap q).id ≡ a)

  Among-values :
      (a id : String) (m : Map String ℕ)
      → Keyed m
      → Explores go c id [] (some m)
      → Among a (values m) ↔ Reaches go c a id
  Among-values a id m (d, k) x = (forth, back)
    where
      forth : Among a (values m) → Reaches go c a id
      forth (q, i, e) =
          let (j, found) = key_of_value q m d i in
          let there : held a m ≡ true =
            ground (arith, (k j q found).0, ap (λ y. get y m) (sym ((k j q found).0) ∙ e)) in
          elim (x.0.1 a there) [ inl f ↦ absurd (unfold get in ground arith) | inr r ↦ r ]

      back : Reaches go c a id → Among a (values m)
      back r = elim (Option-cases (get a m)) [
        | inl e ↦ absurd (ground (arith, Reaches-held go c a id m x r))
        | inr (q, e) ↦ (q, Mem-values-of-get a q m e, (k a q e).0)
      ]

  -- The entities over different keys have different ids.
  values-UniqueIds :
      (m : Map String ℕ)
      → Distinct m
      → ((k : String) (q : ℕ) → get k m ≡ some q → (c.heap q).id ≡ k)
      → UniqueIds (λ q. (c.heap q).id) (values m)
  unfolding get
  values-UniqueIds [] d h = tt
  values-UniqueIds ((k, v) ∷ m) (n, d) h = (
    All-of-Mem _ (values m) (λ q i p.
        let (j, g) = key_of_value q m d i in
        let same : j ≡ k = sym (later j q g) ∙ (p ∙ h k v (ground arith)) in
        absurd (ground (arith, ap (λ x. get x m) same))),
    values-UniqueIds m d later,
  )
    where
      later : (j : String) (q : ℕ) → get j m ≡ some q → (c.heap q).id ≡ j
      later j q g = h j q (ground (arith, other))
        where
          other : j ≡ k → get j m ≡ get k m
          other e = ap (λ x. get x m) e

  -- For an entity of the catalog GetImpactedEntities comes to an answer, whatever the catalog, circles of
  -- dependencies included: an id is the id of an entity of the answer exactly when its entity depends
  -- on the entity asked for, through any number of steps. The entities of the answer are registered, and
  -- no two of them have one id.
  pub get_impacted_entities_iff :
      (id : String) (p : ℕ)
      → get_entity go c id ≡ some p
      → (ps : List ℕ) × (get_impacted_entities go c id ≡ entities ps)
        × ((a : String) → Among a ps ↔ Reaches go c a (c.heap p).id)
        × ((q : ℕ) → Memᴰ q ps → Memᴰ q (list_entities go c))
        × UniqueIds (λ q. (c.heap q).id) ps
  unfolding get_impacted_entities
  get_impacted_entities_iff id p h =
      answer (collect_impacted_entities go c (length c.entities + 1) (c.heap p).id []) refl
        (collect-Keyed (length c.entities + 1) (c.heap p).id [] (tt, λ k q e. unfold get in cc))
        (collect-Explores go c (length c.entities + 1) (c.heap p).id [] enough)
    where
      enough : unheld go c (list_entities go c) [] < length c.entities + 1
      enough =
          unfold list_entities in
          omega (arith, unheld-nil go c (values c.entities), length-values c.entities)

      answer :
          (o : Option (Map String ℕ))
          → collect_impacted_entities go c (length c.entities + 1) (c.heap p).id [] ≡ o
          → Keeps o
          → Explores go c (c.heap p).id [] o
          → (ps : List ℕ) × (get_impacted_entities go c id ≡ entities ps)
            × ((a : String) → Among a ps ↔ Reaches go c a (c.heap p).id)
            × ((q : ℕ) → Memᴰ q ps → Memᴰ q (list_entities go c))
            × UniqueIds (λ q. (c.heap q).id) ps
      answer none e k x = absurd x
      answer (some m) e k x = (
        values m,
        rw (get_impacted_entities, h, e) refl,
        (λ a. Among-values a (c.heap p).id m k x),
        (λ q i. let (j, e') = key_of_value q m k.0 i in (k.1 j q e').1),
        values-UniqueIds m k.0 (λ j q e'. (k.1 j q e').0),
      )
