-- ===== src/Layer2/Registration/Detached.antt =====
-- `ForceDeregister` leaves no entity that depends on the id (layer2/registration.go).
use mathlib.Core.Path.{subst, sym}
use mathlib.Core.List.{Memᴰ}
use mathlib.Core.List.Memᴰ
use aizo.Prelude.{
  ℕ, ◌≡◌, ◌≢◌, inl, inr, refl, ap, ◌∙◌, String, none, some, List, [], ◌∷◌, get, put, values,
  if◌then◌else◌, Map, Option, not, string_eq, nat_eq, ◌==◌, arith, Bool-cases, Option-cases,
  Mem-cons, Mem-select, key_of_value,
}
use aizo.Layer2.Entity.{Go, Relationship}
use aizo.Layer2.Catalog.{Catalog, write, register, unregister, get_entity, list_entities}
use aizo.Layer2.Catalog.Indexing.{IsValid}
use aizo.Layer2.Impact.Reach.{Depends, Reaches, direct}
use aizo.Layer2.Impact.Affected.{get_impacted_entities_iff}
use aizo.Layer2.Registration.{Failure, detach, without_target, force_deregister}
use aizo.Layer2.Registration.Removal.{of_catalog-none, unregister-Depends, unregister-get}

put_same : (k : String) (v : ℕ) (m : Map String ℕ) → get k m ≡ some v → put k v m ≡ m
unfolding get put
put_same k v [] h = cc
put_same k v ((j, w) ∷ m) h = ground (arith, put_same k v m)

module _ (go : Go) where
  -- The catalog c' has the entities of c under the same ids, and no relationship that c has not.
  record Thins (c c' : Catalog go) : Type 0 where
    pub same : c'.entities ≡ c.entities
    pub ids : (q : ℕ) → (c'.heap q).id ≡ (c.heap q).id
    pub fewer :
        (q : ℕ) (r : Relationship)
        → Memᴰ r (c'.heap q).relationships
        → Memᴰ r (c.heap q).relationships

  register-entities :
      (c : Catalog go) (p : ℕ)
      → get (c.heap p).id c.entities ≡ some p
      → (register go c p).0.entities ≡ c.entities
  unfolding register
  register-entities c p h = elim (Bool-cases ((c.heap p).id == "")) [
    | inl e ↦ rw e refl
    | inr e ↦ rw (e, h) (put_same (c.heap p).id p c.entities h)
  ]

  register-heap : (c : Catalog go) (p : ℕ) → (register go c p).0.heap ≡ c.heap
  unfolding register
  register-heap c p = elim (Bool-cases ((c.heap p).id == "")) [
    | inl e ↦ rw e refl
    | inr e ↦ elim (Option-cases (get (c.heap p).id c.entities)) [
      | inl f ↦ rw (e, f) refl
      | inr (q, f) ↦ rw (e, f) refl
    ]
  ]

  -- One round of the loop.
  abbrev detached : Catalog go → String → ℕ → Catalog go
  detached c id p =
      (register go (record c { heap = write go c.heap p (without_target go id (c.heap p)) }) p).0

  detached-heap :
      (c : Catalog go) (id : String) (p q : ℕ)
      → (detached c id p).heap q ≡ (if q == p then without_target go id (c.heap p) else c.heap q)
  detached-heap c id p q =
      ap (λ h. h q)
        (register-heap (record c { heap = write go c.heap p (without_target go id (c.heap p)) }) p)

  abbrev Clean : String → Catalog go → ℕ → Type 0
  Clean id c q = (r : Relationship) → Memᴰ r (c.heap q).relationships → r.target_id ≢ id

  detached-Thins :
      (c : Catalog go) (id : String) (p : ℕ)
      → get (c.heap p).id c.entities ≡ some p
      → Thins c (detached c id p)
  detached-Thins c id p h = record {
    same =
        register-entities (record c { heap = write go c.heap p (without_target go id (c.heap p)) })
          p (ground arith);
    ids = λ q. ground (arith, detached-heap c id p q, ap (λ n. (c.heap n).id));
    fewer = λ q r m. elim (Bool-cases (q == p)) [
      | inl e ↦
          let here : q ≡ p = ground arith in
          let thin : (detached c id p).heap q ≡ without_target go id (c.heap p) =
            ground (arith, detached-heap c id p q) in
          subst (λ n. Memᴰ r (c.heap n).relationships) (sym here)
            ((Mem-select (λ x. not (x.target_id == id)) r (c.heap p).relationships).0
              (subst (λ x. Memᴰ r x.relationships) thin m)).0
      | inr e ↦
          let thin : (detached c id p).heap q ≡ c.heap q = ground (arith, detached-heap c id p q) in
          subst (λ x. Memᴰ r x.relationships) thin m
    ];
  }

  detached-Clean : (c : Catalog go) (id : String) (p : ℕ) → Clean id (detached c id p) p
  detached-Clean c id p r m =
      let thin : (detached c id p).heap p ≡ without_target go id (c.heap p) =
        ground (arith, detached-heap c id p p) in
      let kept =
        (Mem-select (λ x. not (x.target_id == id)) r (c.heap p).relationships).0
          (subst (λ x. Memᴰ r x.relationships) thin m) in
      ground (arith, kept.1)

  Thins-trans : (a b c : Catalog go) → Thins a b → Thins b c → Thins a c
  Thins-trans a b c s t = record {
    same = t.same ∙ s.same;
    ids = λ q. t.ids q ∙ s.ids q;
    fewer = λ q r m. s.fewer q r (t.fewer q r m);
  }

  Thins-refl : (c : Catalog go) → Thins c c
  Thins-refl c = record { same = refl; ids = λ q. refl; fewer = λ q r m. m }

  -- Every pointer of the list stands under the id of its entity.
  abbrev Listed : Catalog go → List ℕ → Type 0
  Listed c ps = (p : ℕ) → Memᴰ p ps → get (c.heap p).id c.entities ≡ some p

  detach-Thins :
      (c : Catalog go) (id : String) (ps : List ℕ)
      → Listed c ps
      → Thins c (detach go c id ps) × ((q : ℕ) → Memᴰ q ps → Clean id (detach go c id ps) q)
  unfolding detach
  detach-Thins c id [] at = (Thins-refl c, λ q m. absurd (Memᴰ.not-nil m))
  detach-Thins c id (p ∷ ps) at =
      let one = detached-Thins c id p (at p (Memᴰ.head refl)) in
      let (t, clean) = detach-Thins (detached c id p) id ps (λ q m.
        ap (λ i. get i (detached c id p).entities) (one.ids q)
        ∙ (ap (λ es. get (c.heap q).id es) one.same ∙ at q (Memᴰ.tail m))) in
      (
        Thins-trans c (detached c id p) (detach go (detached c id p) id ps) one t,
        λ q m r i. elim ((Mem-cons q p ps).0 m) [
          | inl e ↦
              detached-Clean c id p r
                (subst (λ n. Memᴰ r ((detached c id p).heap n).relationships) e (t.fewer q r i))
          | inr j ↦ clean q j r i
        ],
      )

  -- What a dependency on the id needs in the catalog that is left.
  Depends-Thins :
      (c c' : Catalog go) (id a : String)
      → Thins c c'
      → Depends go c' a id
      → (q : ℕ) × Memᴰ q (list_entities go c) × Depends go c (c.heap q).id id × ¬ Clean id c' q
  unfolding list_entities
  Depends-Thins c c' id a t (q, m, e, (r, i, o)) =
      let there = subst (λ es. Memᴰ q (values es)) t.same m in
      (q, there, (q, there, refl, (r, t.fewer q r i, o)), λ clean. clean r i o.1)

  module _ (c : Catalog go) where
    -- On a valid catalog ForceDeregister of a registered id, that no other call comes between, succeeds:
    -- the id is no longer registered, and no registered entity depends on it.
    pub force_deregister-frees :
        (id : String) (p : ℕ)
        → IsValid go c
        → get_entity go c id ≡ some p
        → ((force_deregister go c id).1 ≡ none)
          × (get_entity go (force_deregister go c id).0 id ≡ none)
          × ((a : String) → ¬ Depends go (force_deregister go c id).0 a id)
    unfolding force_deregister get_entity list_entities
    force_deregister-frees id p v h =
        let (ps, e, found, registered, _) = get_impacted_entities_iff go c id p h in
        let listed : (q : ℕ) → Memᴰ q (values c.entities) → get (c.heap q).id c.entities ≡ some q =
          λ q m.
            let (k, f) = key_of_value q c.entities v.distinct m in
            ap (λ i. get i c.entities) (v.keyed k q f) ∙ f in
        let (t, clean) = detach-Thins c id ps (λ q m. listed q (registered q m)) in
        let still : get id (detach go c id ps).entities ≡ some p =
          ap (λ es. get id es) t.same ∙ h in
        let (done, gone) = unregister-get go (detach go c id ps) id p still in
        let result : force_deregister go c id ≡ ((unregister go (detach go c id ps) id).0, none) =
          rw e (of_catalog-none (unregister go (detach go c id ps) id) done) in
        subst Freed (sym result) (
          refl,
          gone,
          λ a d.
              let (q, m, d', dirty) =
                Depends-Thins c (detach go c id ps) id a t
                  (unregister-Depends go (detach go c id ps) id a id p still d) in
              let (q', m', same) =
                (found (c.heap q).id).1
                  (subst (λ i. Reaches go c (c.heap q).id i) (sym (v.keyed id p h)) (direct d')) in
              let one : q' ≡ q = ground (
                arith,
                listed q m,
                listed q' (registered q' m'),
                ap (λ i. get i c.entities) same,
              ) in
              dirty (subst (λ n. Clean id (detach go c id ps) n) one (clean q' m')),
        )
      where
        Freed : Catalog go × Option Failure → Type 0
        Freed x =
            (x.1 ≡ none) × (get_entity go x.0 id ≡ none) × ((a : String) → ¬ Depends go x.0 a id)
