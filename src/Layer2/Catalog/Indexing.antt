-- ===== src/Layer2/Catalog/Indexing.antt =====
-- The indexes of the catalog (layer2/catalog.go) agree with its entities, as long as no entity is
-- changed behind the catalog's back.
use mathlib.Core.List.{Memᴰ}
use mathlib.Core.List.Memᴰ
use aizo.Prelude.{
  ℕ, ◌≡◌, ◌↔◌, inl, inr, refl, sym, ap, ◌∙◌, String, Option, none, some, List, [], ◌∷◌,
  if◌then◌else◌, Map, get, put, delete, get-put, get-delete, Distinct, put-Distinct,
  delete-Distinct, ◌==◌, string_eq, arith, Option-cases, Bool-cases, Mem-cons,
}
use aizo.Layer2.Entity.{Go, Entity}
use aizo.Layer2.Index.{
  Index, index_at, index_add, index_remove, IsIndex, index_add-IsIndex, index_remove-IsIndex,
  IsIndex-ext,
}
use aizo.Layer2.Catalog.{
  Heap, Catalog, register, unregister, get_entity, registered, list_by_state, list_by_type,
  new_entity_catalog,
}

module _ (go : Go) where
  -- The key of a field of the registered entity with an id.
  abbrev pub field_of : (Entity go → String) → Heap go → Map String ℕ → String → Option String
  field_of f heap m id = elim (get id m) [ none ↦ none | some p ↦ some (f (heap p)) ]

  pub record IsValid (c : Catalog go) : Type 0 where
    pub distinct : Distinct c.entities
    pub keyed : (id : String) (p : ℕ) → get id c.entities ≡ some p → (c.heap p).id ≡ id
    pub types : IsIndex (field_of (λ e. e.entity_type) c.heap c.entities) c.by_type
    pub states : IsIndex (field_of (λ e. e.state) c.heap c.entities) c.by_state

  module _ (f : Entity go → String) (heap : Heap go) (m : Map String ℕ) (ix : Index)
      (v : IsIndex (field_of f heap m) ix) where
    IsIndex-new :
        (p : ℕ) (id : String)
        → get id m ≡ none
        → IsIndex (field_of f heap (put id p m)) (index_add (f (heap p)) id ix)
    IsIndex-new p id h =
        IsIndex-ext _ (field_of f heap (put id p m)) _
          (index_add-IsIndex (field_of f heap m) (f (heap p)) id ix v (ground arith))
          (λ j. ground (arith, get-put id j p m))

    IsIndex-gone :
        (q : ℕ) (id : String)
        → get id m ≡ some q
        → IsIndex (field_of f heap (delete id m)) (index_remove (f (heap q)) id ix)
    IsIndex-gone q id h =
        IsIndex-ext _ (field_of f heap (delete id m)) _
          (index_remove-IsIndex (field_of f heap m) (f (heap q)) id ix v (ground arith))
          (λ j. ground (arith, get-delete id j m))

    IsIndex-replaced :
        (p q : ℕ) (id : String)
        → get id m ≡ some q
        → IsIndex
            (field_of f heap (put id p m))
            (index_add (f (heap p)) id (index_remove (f (heap q)) id ix))
    IsIndex-replaced p q id h =
        let gone = index_remove-IsIndex (field_of f heap m) (f (heap q)) id ix v (ground arith) in
        IsIndex-ext _ (field_of f heap (put id p m)) _
          (index_add-IsIndex (λ j. if j == id then none else field_of f heap m j) (f (heap p)) id _
            gone (ground arith))
          (λ j. ground (arith, get-put id j p m))

  pub new-IsValid : (heap : Heap go) → IsValid (new_entity_catalog go heap)
  unfolding get
  new-IsValid heap = record {
    distinct = tt;
    keyed = λ id p h. absurd (ground arith);
    types = record {
      mem = λ k id. (λ m. absurd (Memᴰ.not-nil m), λ e. absurd (ground arith));
      unique = λ k. tt;
    };
    states = record {
      mem = λ k id. (λ m. absurd (Memᴰ.not-nil m), λ e. absurd (ground arith));
      unique = λ k. tt;
    };
  }

  pub register-IsValid : (c : Catalog go) (p : ℕ) → IsValid c → IsValid (register go c p).0
  unfolding register
  register-IsValid c p v = elim (Bool-cases ((c.heap p).id == "")) [
    | inl blank ↦ rw (blank, register) v
    | inr named ↦ elim (Option-cases (get (c.heap p).id c.entities)) [
      | inl e ↦
          rw (named, register, e)
            (record {
              distinct = put-Distinct (c.heap p).id p c.entities v.distinct;
              keyed = keyed_put;
              types =
                  IsIndex-new (λ e. e.entity_type) c.heap c.entities c.by_type v.types p
                    (c.heap p).id e;
              states =
                  IsIndex-new (λ e. e.state) c.heap c.entities c.by_state v.states p (c.heap p).id
                    e;
            })
      | inr (q, e) ↦
          rw (named, register, e)
            (record {
              distinct = put-Distinct (c.heap p).id p c.entities v.distinct;
              keyed = keyed_put;
              types = rw (v.keyed (c.heap p).id q e) (
                  IsIndex-replaced (λ e. e.entity_type) c.heap c.entities c.by_type v.types p q
                    (c.heap p).id e);
              states = rw (v.keyed (c.heap p).id q e) (
                  IsIndex-replaced (λ e. e.state) c.heap c.entities c.by_state v.states p q
                    (c.heap p).id e);
            })
    ]
  ]
    where
      keyed_put :
          (id : String) (q : ℕ)
          → get id (put (c.heap p).id p c.entities) ≡ some q
          → (c.heap q).id ≡ id
      keyed_put id q h = ground (arith, get-put (c.heap p).id id p c.entities, v.keyed id q)

  pub unregister-IsValid :
      (c : Catalog go) (id : String) → IsValid c → IsValid (unregister go c id).0
  unfolding unregister
  unregister-IsValid c id v = elim (Option-cases (get id c.entities)) [
    | inl e ↦ rw (e, unregister) v
    | inr (p, e) ↦
        rw (e, unregister)
          (record {
            distinct = delete-Distinct id c.entities v.distinct;
            keyed = λ j q h. ground (arith, get-delete id j c.entities, v.keyed j q);
            types =
                rw (v.keyed id p e)
                  (IsIndex-gone (λ e. e.entity_type) c.heap c.entities c.by_type v.types p id e);
            states =
                rw (v.keyed id p e)
                  (IsIndex-gone (λ e. e.state) c.heap c.entities c.by_state v.states p id e);
          })
  ]

  pub Mem-registered :
      (m : Map String ℕ) (ids : List String) (p : ℕ)
      → Memᴰ p (registered go m ids) ↔ ((id : String) × Memᴰ id ids × (get id m ≡ some p))
  unfolding registered
  Mem-registered m [] p = (λ h. absurd (Memᴰ.not-nil h), λ (id, h, e). absurd (Memᴰ.not-nil h))
  Mem-registered m (j ∷ ids) p =
      let ih = Mem-registered m ids p in
      elim (Option-cases (get j m)) [
        | inl e ↦
            rw (e, registered)
              (
                λ h. let (id, at, g) = ih.0 h in (id, Memᴰ.tail at, g),
                λ (id, at, g). elim ((Mem-cons id j ids).0 at) [
                  | inl same ↦ absurd (ground (arith, ap (λ x. get x m) same))
                  | inr t ↦ ih.1 (id, t, g)
                ],
              )
        | inr (q, e) ↦
            rw (e, registered)
              (
                λ h. elim ((Mem-cons p q (registered go m ids)).0 h) [
                  | inl same ↦ (j, Memᴰ.head refl, e ∙ ap some (sym same))
                  | inr t ↦ let (id, at, g) = ih.0 t in (id, Memᴰ.tail at, g)
                ],
                λ (id, at, g). elim ((Mem-cons id j ids).0 at) [
                  | inl same ↦ Memᴰ.head (ground (arith, ap (λ x. get x m) same))
                  | inr t ↦ Memᴰ.tail (ih.1 (id, t, g))
                ],
              )
      ]

  Mem-listed :
      (f : Entity go → String) (c : Catalog go) (ix : Index) (s : String) (p : ℕ)
      → IsValid c
      → IsIndex (field_of f c.heap c.entities) ix
      → Memᴰ p (registered go c.entities (index_at s ix))
        ↔ ((get (c.heap p).id c.entities ≡ some p) × (f (c.heap p) ≡ s))
  Mem-listed f c ix s p v i =
      let spec = Mem-registered c.entities (index_at s ix) p in
      (
        λ h.
            let (id, at, g) = spec.0 h in
            let named = v.keyed id p g in (rw named g, ground (arith, (i.mem s id).0 at)),
        λ (g, e). spec.1 ((c.heap p).id, (i.mem s (c.heap p).id).1 (ground arith), g),
      )

  -- In a valid catalog `ListByState` answers exactly the registered entities in that state, and
  -- `ListByType` exactly those of that type; both are answered by id in `Get`.
  pub Mem-list_by :
      (c : Catalog go) (s : String) (p : ℕ)
      → IsValid c
      → (Memᴰ p (list_by_state go c s)
          ↔ ((get_entity go c (c.heap p).id ≡ some p) × ((c.heap p).state ≡ s)))
        × (Memᴰ p (list_by_type go c s)
            ↔ ((get_entity go c (c.heap p).id ≡ some p) × ((c.heap p).entity_type ≡ s)))
  unfolding list_by_state list_by_type get_entity
  Mem-list_by c s p v = (
    Mem-listed (λ e. e.state) c c.by_state s p v v.states,
    Mem-listed (λ e. e.entity_type) c c.by_type s p v v.types,
  )

  -- A catalog reached from the empty one by `Register` and `Unregister` alone: the entities are not
  -- changed in between.
  pub data Reached (heap : Heap go) : Catalog go → Type 0 where
    fresh : Reached heap (new_entity_catalog go heap)
    registered_at : {c : Catalog go} (p : ℕ) → Reached heap c → Reached heap (register go c p).0
    unregistered :
        {c : Catalog go} (id : String) → Reached heap c → Reached heap (unregister go c id).0

  -- As long as entities are only registered and unregistered, and not changed in between, the indexes
  -- by type and by state hold exactly the registered ids, each once and under its entity's key.
  pub Reached-IsValid : (heap : Heap go) {c : Catalog go} → Reached heap c → IsValid c
  Reached-IsValid heap fresh = new-IsValid heap
  Reached-IsValid heap (registered_at {c} p h) = register-IsValid c p (Reached-IsValid heap h)
  Reached-IsValid heap (unregistered {c} id h) = unregister-IsValid c id (Reached-IsValid heap h)
