-- ===== src/Layer2/Registration/Removal.antt =====
-- When `Deregister` takes an entity out of the catalog (layer2/registration.go).
use mathlib.Core.Path.{subst, sym}
use mathlib.Core.List.{Memᴰ}
use mathlib.Core.List.Memᴰ
use aizo.Prelude.{
  UniqueIds, ℕ, ◌≡◌, ◌↔◌, ◌⊎◌, inl, inr, refl, String, none, some, List, [], ◌∷◌, delete, values,
  length, Map, Option, string_eq, arith, get-delete, Mem-cons,
}
use aizo.Layer2.Entity.{Go}
use aizo.Layer2.Catalog.{
  Error, not_found, remove_from_indexes, Catalog, unregister, get_entity, list_entities,
}
use aizo.Layer2.Catalog.Indexing.{IsValid}
use aizo.Layer2.Impact.{get_impacted_entities, entities}
use aizo.Layer2.Impact.Reach.{Depends, Reaches, direct, through}
use aizo.Layer2.Impact.Affected.{Among, get_impacted_entities_iff}
use aizo.Layer2.Registration.{Failure, deregister, still_needed, of_catalog}

Mem-values-delete :
    (id : String) (q : ℕ) (m : Map String ℕ) → Memᴰ q (values (delete id m)) → Memᴰ q (values m)
unfolding delete
Mem-values-delete id q [] h = h
Mem-values-delete id q ((k, p) ∷ m) h =
    ground (
      arith,
      Mem-cons q p (values m),
      Mem-cons q p (values (delete id m)),
      Mem-values-delete id q m,
    )

pub of_catalog-none : {A : Type 0} (x : A × Option Error) → x.1 ≡ none → of_catalog x ≡ (x.0, none)
of_catalog-none (c, none) h = refl
of_catalog-none (c, some e) h = cc

module _ (go : Go) (c : Catalog go) where
  -- The first step of a chain that ends at the id.
  Reaches-last : (a id : String) → Reaches go c a id → (b : String) × Depends go c b id
  Reaches-last a id (direct d) = (a, d)
  Reaches-last a id (through d r) = Reaches-last _ id r

  -- What is left of the catalog by an Unregister that finds the id.
  pub unregister-Depends :
      (id a b : String) (p : ℕ)
      → get_entity go c id ≡ some p
      → Depends go (unregister go c id).0 a b
      → Depends go c a b
  unfolding get_entity unregister list_entities
  unregister-Depends id a b p h =
      subst (λ o. Depends go (left_by o) a b → Depends go c a b) (sym h)
        (λ (q, i, e, x). (q, Mem-values-delete id q c.entities i, e, x))
    where
      left_by : Option ℕ → Catalog go
      left_by o =
          (elim o as (λ _. Catalog go × Option Error) [
            | none ↦ (c, some (not_found id))
            | some r ↦ (
              record (remove_from_indexes go c (c.heap r)) { entities = delete id c.entities },
              none,
            )
          ]).0

  pub unregister-get :
      (id : String) (p : ℕ)
      → get_entity go c id ≡ some p
      → ((unregister go c id).1 ≡ none) × (get_entity go (unregister go c id).0 id ≡ none)
  unfolding get_entity unregister
  unregister-get id p h =
      (rw (h, unregister) refl, rw (h, unregister) (ground (arith, get-delete id id c.entities)))

  -- On a valid catalog Deregister of a registered id, that no other call comes between, does one of two
  -- things. Either some registered entity depends on the id; then it leaves the catalog and answers how
  -- many entities depend on the id through any number of steps: as many as a list of entities with
  -- different ids has, which are the ids of these. Or it succeeds, the id is no longer registered,
  -- and no registered entity depends on it.
  pub deregister_cases :
      (id : String) (p : ℕ)
      → IsValid go c
      → get_entity go c id ≡ some p
      → (((a : String) × Depends go c a id)
          × ((ps : List ℕ) × UniqueIds (λ q. (c.heap q).id) ps
              × ((a : String) → Among go c a ps ↔ Reaches go c a id)
              × (deregister go c id ≡ (c, some (still_needed (length ps))))))
        ⊎ (((deregister go c id).1 ≡ none)
            × (get_entity go (deregister go c id).0 id ≡ none)
            × ((a : String) → ¬ Depends go (deregister go c id).0 a id))
  unfolding deregister get_entity
  deregister_cases id p v h =
      let (ps, e, found, _, unique) = get_impacted_entities_iff go c id p h in
      answer ps e unique
        (λ a. subst (λ i. Among go c a ps ↔ Reaches go c a i) (v.keyed id p h) (found a))
    where
      Removed : Catalog go × Option Failure → Type 0
      Removed x =
          (x.1 ≡ none) × (get_entity go x.0 id ≡ none) × ((a : String) → ¬ Depends go x.0 a id)

      answer :
          (ps : List ℕ)
          → get_impacted_entities go c id ≡ entities ps
          → UniqueIds (λ q. (c.heap q).id) ps
          → ((a : String) → Among go c a ps ↔ Reaches go c a id)
          → (((a : String) × Depends go c a id)
              × ((ps : List ℕ) × UniqueIds (λ q. (c.heap q).id) ps
                  × ((a : String) → Among go c a ps ↔ Reaches go c a id)
                  × (deregister go c id ≡ (c, some (still_needed (length ps))))))
            ⊎ (((deregister go c id).1 ≡ none)
                × (get_entity go (deregister go c id).0 id ≡ none)
                × ((a : String) → ¬ Depends go (deregister go c id).0 a id))
      answer (q ∷ qs) e unique found = inl (
        Reaches-last (c.heap q).id id ((found (c.heap q).id).0 (q, Memᴰ.head refl, refl)),
        (q ∷ qs, unique, found, rw e refl),
      )
      answer [] e unique found = inr (
          subst Removed
            (sym (rw e (of_catalog-none (unregister go c id) (unregister-get id p h).0)))
            (
              refl,
              (unregister-get id p h).1,
              λ a d.
                  let (q, i, _) = (found a).1 (direct (unregister-Depends id a id p h d)) in
                  absurd (Memᴰ.not-nil i),
            ))
