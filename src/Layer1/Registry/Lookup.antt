-- ===== src/Layer1/Registry/Lookup.antt =====
-- The two maps of the registry (layer1/registry.go) stay in step, and what can be read after a call.
use mathlib.Core.List.{Memᴰ}
use aizo.Prelude.{
  ℕ, ◌+◌, ◌≡◌, ◌≢◌, ◌↔◌, ◌⊎◌, inl, inr, refl, ap, String, true, false, none, some, [], ◌∷◌,
  if◌then◌else◌, get, put, delete, values, is_some, ◌==◌, string_eq, Bool-cases, Option-cases,
  Distinct, get-put, get-delete, put-Distinct, delete-Distinct, length-put, key_of_value,
  Mem-values-of-get, Mem-select, arith,
}
use aizo.Layer1.Adapter.{Adapter}
use aizo.Layer1.Registry.{
  AdapterMetadata, AdapterRegistry, empty_id, already_registered, not_found, metadata_not_found, ok,
  err, new_adapter_registry, unregister, get_adapter, get_metadata, count_adapters, clear,
  note_health_check, register, list_by_type,
}

module _ {A : Type 0} (ops : Adapter A) where
  -- An id has metadata exactly when it has an adapter, which has that id, and the metadata carries it.
  pub record Agrees (r : AdapterRegistry A) (id : String) : Type 0 where
    pub together : is_some (get id r.adapters) ≡ is_some (get id r.metadata)
    pub adapter_id : (a : A) → get id r.adapters ≡ some a → (ops.get_config a).id ≡ id
    pub metadata_id : (m : AdapterMetadata) → get id r.metadata ≡ some m → m.id ≡ id

  pub record IsValid (r : AdapterRegistry A) : Type 0 where
    pub distinct : Distinct r.adapters
    pub distinct_metadata : Distinct r.metadata
    pub agrees : (id : String) → Agrees r id

  pub new-IsValid : IsValid new_adapter_registry
  unfolding get
  new-IsValid = record {
    distinct = tt;
    distinct_metadata = tt;
    agrees = λ id. record {
      together = refl;
      adapter_id = λ a h. ground arith;
      metadata_id = λ m h. ground arith;
    };
  }

  Agrees-put :
      (r : AdapterRegistry A) (k j : String) (a : A) (m : AdapterMetadata)
      → (ops.get_config a).id ≡ k
      → m.id ≡ k
      → Agrees r j
      → Agrees (record { adapters = put k a r.adapters; metadata = put k m r.metadata }) j
  Agrees-put r k j a m p q v = record {
    together = ground (arith, get-put k j a r.adapters, get-put k j m r.metadata, v.together);
    adapter_id = λ b h. ground (arith, get-put k j a r.adapters, v.adapter_id b);
    metadata_id = λ n h. ground (arith, get-put k j m r.metadata, v.metadata_id n);
  }

  Agrees-delete :
      (r : AdapterRegistry A) (k j : String)
      → Agrees r j
      → Agrees (record { adapters = delete k r.adapters; metadata = delete k r.metadata }) j
  Agrees-delete r k j v = record {
    together = ground (arith, get-delete k j r.adapters, get-delete k j r.metadata, v.together);
    adapter_id = λ b h. ground (arith, get-delete k j r.adapters, v.adapter_id b);
    metadata_id = λ n h. ground (arith, get-delete k j r.metadata, v.metadata_id n);
  }

  pub register-IsValid :
      (r : AdapterRegistry A) (now : ℕ) (a : A) → IsValid r → IsValid (register ops r now a).0
  unfolding register
  register-IsValid r now a v = elim (Bool-cases ((ops.get_config a).id == "")) [
    | inl e ↦ rw e v
    | inr e ↦ elim (Bool-cases (is_some (get (ops.get_config a).id r.adapters))) [
      | inl f ↦ rw (e, f) v
      | inr f ↦
          rw (e, f)
            (record {
              distinct = put-Distinct _ a r.adapters v.distinct;
              distinct_metadata = put-Distinct _ _ r.metadata v.distinct_metadata;
              agrees = λ j. Agrees-put r _ j a _ refl refl (v.agrees j);
            })
    ]
  ]

  pub unregister-IsValid :
      (r : AdapterRegistry A) (id : String) → IsValid r → IsValid (unregister r id).0
  unfolding unregister
  unregister-IsValid r id v = elim (Option-cases (get id r.adapters)) [
    | inl e ↦ rw (e, unregister) v
    | inr (a, e) ↦
        rw (e, unregister)
          (record {
            distinct = delete-Distinct id r.adapters v.distinct;
            distinct_metadata = delete-Distinct id r.metadata v.distinct_metadata;
            agrees = λ j. Agrees-delete r id j (v.agrees j);
          })
  ]

  pub note_health_check-IsValid :
      (r : AdapterRegistry A) (id : String) (now : ℕ)
      → IsValid r
      → IsValid (note_health_check r id now)
  unfolding note_health_check
  note_health_check-IsValid r id now v = elim (Option-cases (get id r.metadata)) [
    | inl e ↦ rw (e, note_health_check) v
    | inr (m, e) ↦ rw (e, note_health_check) (touched m e)
  ]
    where
      touched :
          (m : AdapterMetadata)
          → get id r.metadata ≡ some m
          → IsValid (record r {
            metadata = put id (record m { last_health_check = some now }) r.metadata;
          })
      touched m e =
          let m' = record m { last_health_check = some now } in
          record {
            distinct = v.distinct;
            distinct_metadata = put-Distinct id m' r.metadata v.distinct_metadata;
            agrees = λ j.
                let a = v.agrees j in
                record {
                  together = ground (arith, get-put id j m' r.metadata, a.together);
                  adapter_id = a.adapter_id;
                  metadata_id = λ n h.
                      ground (arith, get-put id j m' r.metadata, a.metadata_id n, a.metadata_id m);
                };
          }

  -- A registry reached from the empty one by any of its operations.
  pub data Reached : AdapterRegistry A → Type 0 where
    fresh : Reached new_adapter_registry
    registered :
        {r : AdapterRegistry A} (now : ℕ) (a : A) → Reached r → Reached (register ops r now a).0
    unregistered : {r : AdapterRegistry A} (id : String) → Reached r → Reached (unregister r id).0
    cleared : {r : AdapterRegistry A} → Reached r → Reached (clear r).0
    checked :
        {r : AdapterRegistry A} (id : String) (now : ℕ)
        → Reached r
        → Reached (note_health_check r id now)

  Reached-IsValid : {r : AdapterRegistry A} → Reached r → IsValid r
  unfolding clear
  Reached-IsValid fresh = new-IsValid
  Reached-IsValid (registered {r} now a h) = register-IsValid r now a (Reached-IsValid h)
  Reached-IsValid (unregistered {r} id h) = unregister-IsValid r id (Reached-IsValid h)
  Reached-IsValid (cleared h) = new-IsValid
  Reached-IsValid (checked {r} id now h) = note_health_check-IsValid r id now (Reached-IsValid h)

  -- In every registry that the operations reach, `Get` finds an adapter with an id exactly when
  -- `GetMetadata` finds metadata for it, and both carry that id.
  pub get_adapter-get_metadata :
      (r : AdapterRegistry A) (id : String)
      → Reached r
      → ((get_adapter r id ≡ err (not_found id))
          × (get_metadata r id ≡ err (metadata_not_found id)))
        ⊎ ((a : A) × (m : AdapterMetadata) × (get_adapter r id ≡ ok a)
            × (get_metadata r id ≡ ok m)
            × ((ops.get_config a).id ≡ id)
            × (m.id ≡ id))
  unfolding get_adapter get_metadata
  get_adapter-get_metadata r id h =
      let v = (Reached-IsValid h).agrees id in
      elim (Option-cases (get id r.adapters)) [
        | inl e ↦ inl (ground arith, ground (arith, v.together))
        | inr (a, e) ↦ elim (Option-cases (get id r.metadata)) [
          | inl f ↦ absurd (ground (arith, v.together))
          | inr (m, f) ↦ inr (a, m, ground arith, ground arith, v.adapter_id a e, v.metadata_id m f)
        ]
      ]

  -- `Register` refuses an adapter exactly when its id is empty or taken, and then changes nothing;
  -- otherwise `Get` reads the adapter under its id, every other id reads as before, and the count
  -- goes up by one.
  pub get_adapter-register :
      (r : AdapterRegistry A) (now : ℕ) (a : A) (j : String)
      → let id = (ops.get_config a).id in
        let (r', e) = register ops r now a in
        ((id ≡ "") × (e ≡ some empty_id) × (r' ≡ r))
        ⊎ ((id ≢ "")
            × (is_some (get id r.adapters) ≡ true)
            × (e ≡ some (already_registered id))
            × (r' ≡ r))
        ⊎ ((id ≢ "")
            × (is_some (get id r.adapters) ≡ false)
            × (e ≡ none)
            × (get_adapter r' j ≡ (if j == id then ok a else get_adapter r j))
            × (count_adapters r' ≡ count_adapters r + 1))
  unfolding register get_adapter count_adapters
  get_adapter-register r now a j =
      let id = (ops.get_config a).id in
      elim (Bool-cases (id == "")) [
        | inl e ↦ inl (ground arith, ground arith, ground arith)
        | inr e ↦ elim (Bool-cases (is_some (get id r.adapters))) [
          | inl f ↦ inr (inl (ground arith, f, ground arith, ground arith))
          | inr f ↦ inr (
              inr (
                ground arith,
                f,
                ground arith,
                ground (arith, get-put id j a r.adapters),
                ground (arith, length-put id a r.adapters),
              ))
        ]
      ]

  -- `Unregister` disconnects exactly the adapter that it removes; the id is then not found, and every
  -- other id reads as before. An id that is not registered is an error and changes nothing.
  pub get_adapter-unregister :
      (r : AdapterRegistry A) (id j : String)
      → let (r', e, disconnected) = unregister r id in
        ((get_adapter r id ≡ err (not_found id))
          × (e ≡ some (not_found id))
          × (r' ≡ r)
          × (disconnected ≡ []))
        ⊎ ((a : A) × (get_adapter r id ≡ ok a)
            × (e ≡ none)
            × (disconnected ≡ a ∷ [])
            × (get_adapter r' j ≡ (if j == id then err (not_found id) else get_adapter r j)))
  unfolding unregister get_adapter
  get_adapter-unregister r id j = elim (Option-cases (get id r.adapters)) [
    | inl e ↦ inl (ground arith, ground arith, ground arith, ground arith)
    | inr (a, e) ↦
        inr
          (a, ground arith, ground arith, ground arith, ground (arith, get-delete id j r.adapters))
  ]

  -- `ListByType` gives exactly the registered adapters of a type.
  pub Mem-list_by_type :
      (r : AdapterRegistry A) (t : String) (a : A)
      → Reached r
      → Memᴰ a (list_by_type ops r t)
        ↔ ((get_adapter r (ops.get_config a).id ≡ ok a) × (ops.get_type a ≡ t))
  unfolding list_by_type get_adapter
  Mem-list_by_type r t a h =
      let v = Reached-IsValid h in
      let in_type = Mem-select (λ b. ops.get_type b == t) a (values r.adapters) in
      (
        λ m.
            let (k, e) = key_of_value a r.adapters v.distinct (in_type.0 m).0 in
            (
              ground (
                arith,
                (v.agrees k).adapter_id a e,
                ap (λ x. get x r.adapters) ((v.agrees k).adapter_id a e),
              ),
              ground (arith, (in_type.0 m).1),
            ),
        λ (g, e).
            in_type.1
              (Mem-values-of-get (ops.get_config a).id a r.adapters (ground arith), ground arith),
      )
