-- ===== src/Layer2/Impact/Reach.antt =====
-- The entities that a failure affects are those that depend on the entity, however far
-- (layer2/relationship_mapper.go).
use mathlib.Core.Path.{subst}
use mathlib.Core.List.{Memᴰ}
use mathlib.Core.List.Memᴰ
use aizo.Prelude.{
  ℕ, ◌≡◌, ◌⊎◌, ◌↔◌, inl, inr, refl, sym, ap, ◌∙◌, String, true, false, ◌&&◌, List, [], ◌∷◌, ◌++◌,
  string_eq, ◌==◌, arith, Bool-cases, Mem-cons,
}
use aizo.Layer2.Entity.{Go, Relationship, depends_on}
use aizo.Layer2.Catalog.{Catalog, list_entities}
use aizo.Layer2.Impact.{candidates, dependents_in}

Mem-append : {A : Type 0} (a : A) (xs ys : List A) → Memᴰ a (xs ++ ys) ↔ (Memᴰ a xs ⊎ Memᴰ a ys)
Mem-append a [] ys = ground (arith, Memᴰ.not-nil {a = a})
Mem-append a (x ∷ xs) ys =
    ground (arith, Mem-append a xs ys, Mem-cons a x xs, Mem-cons a x (xs ++ ys))

-- A relationship that says that its entity depends on the id.
abbrev pub On : String → Relationship → Type 0
On id r = (r.relation_type ≡ depends_on) × (r.target_id ≡ id)

Mem-candidates :
    (id : String) (p q : ℕ) (rs : List Relationship)
    → Memᴰ q (candidates id p rs)
    → (q ≡ p) × ((r : Relationship) × Memᴰ r rs × On id r)
Mem-candidates id p q [] m = absurd (Memᴰ.not-nil m)
Mem-candidates id p q (r ∷ rs) m = elim (Bool-cases (r.relation_type == depends_on)) [
  | inr e ↦ later (Mem-candidates id p q rs (subst (λ x. Memᴰ q x) (skips e) m))
  | inl e ↦ elim (Bool-cases (r.target_id == id)) [
    | inr f ↦ later (Mem-candidates id p q rs (subst (λ x. Memᴰ q x) (misses e f) m))
    | inl f ↦ elim ((Mem-cons q p (candidates id p rs)).0 (subst (λ x. Memᴰ q x) (hits e f) m)) [
      | inl s ↦ (s, (r, Memᴰ.head refl, (ground arith, ground arith)))
      | inr t ↦ later (Mem-candidates id p q rs t)
    ]
  ]
]
  where
    later :
        (q ≡ p) × ((s : Relationship) × Memᴰ s rs × On id s)
        → (q ≡ p) × ((s : Relationship) × Memᴰ s (r ∷ rs) × On id s)
    later (e, (s, h, o)) = (e, (s, Memᴰ.tail h, o))

    skips : (r.relation_type == depends_on) ≡ false → candidates id p (r ∷ rs) ≡ candidates id p rs
    skips e = ground arith

    misses :
        (r.relation_type == depends_on) ≡ true
        → (r.target_id == id) ≡ false
        → candidates id p (r ∷ rs) ≡ candidates id p rs
    misses e f = ground arith

    hits :
        (r.relation_type == depends_on) ≡ true
        → (r.target_id == id) ≡ true
        → candidates id p (r ∷ rs) ≡ p ∷ candidates id p rs
    hits e f = ground arith

candidate_of :
    (id : String) (p : ℕ) (r : Relationship) (rs : List Relationship)
    → Memᴰ r rs
    → On id r
    → Memᴰ p (candidates id p rs)
candidate_of id p r [] m o = absurd (Memᴰ.not-nil m)
candidate_of id p r (s ∷ rs) m o = elim ((Mem-cons r s rs).0 m) [
  | inl e ↦ subst (λ x. Memᴰ p x) (sym (hits e)) (Memᴰ.head refl)
  | inr t ↦ elim (Bool-cases ((s.relation_type == depends_on) && (s.target_id == id))) [
    | inl b ↦ rw b (Memᴰ.head refl)
    | inr b ↦ rw b (candidate_of id p r rs t o)
  ]
]
  where
    hits : r ≡ s → candidates id p (s ∷ rs) ≡ p ∷ candidates id p rs
    hits e =
        let a : s.relation_type ≡ depends_on = ap (λ x. x.relation_type) (sym e) ∙ o.0 in
        let b : s.target_id ≡ id = ap (λ x. x.target_id) (sym e) ∙ o.1 in ground arith

module _ (go : Go) (c : Catalog go) where
  -- The registered entity a has a relationship that says that it depends on the id b.
  abbrev pub Depends : String → String → Type 0
  Depends a b =
      (p : ℕ) × Memᴰ p (list_entities go c)
      × ((c.heap p).id ≡ a)
      × ((r : Relationship) × Memᴰ r (c.heap p).relationships × On b r)

  pub dependents_in-Depends :
      (b : String) (q : ℕ) (ps : List ℕ)
      → Memᴰ q (dependents_in go c b ps)
      → Memᴰ q ps × ((r : Relationship) × Memᴰ r (c.heap q).relationships × On b r)
  unfolding dependents_in
  dependents_in-Depends b q [] m = absurd (Memᴰ.not-nil m)
  dependents_in-Depends b q (p ∷ ps) m =
      elim ((Mem-append q (candidates b p (c.heap p).relationships) (dependents_in go c b ps)).0
        m) [
          | inl h ↦
              let (e, x) = Mem-candidates b p q (c.heap p).relationships h in
              (
                Memᴰ.head e,
                subst (λ n. (r : Relationship) × Memᴰ r (c.heap n).relationships × On b r) (sym e)
                    x,
              )
          | inr t ↦ let (m', x) = dependents_in-Depends b q ps t in (Memᴰ.tail m', x)
        ]

  pub Depends-dependents_in :
      (b : String) (q : ℕ) (r : Relationship) (ps : List ℕ)
      → Memᴰ q ps
      → Memᴰ r (c.heap q).relationships
      → On b r
      → Memᴰ q (dependents_in go c b ps)
  unfolding dependents_in
  Depends-dependents_in b q r [] m h o = absurd (Memᴰ.not-nil m)
  Depends-dependents_in b q r (p ∷ ps) m h o =
      (Mem-append q (candidates b p (c.heap p).relationships) (dependents_in go c b ps)).1
        (elim ((Mem-cons q p ps).0 m) [
          | inl e ↦ inl (
              subst (λ n. Memᴰ q (candidates b n (c.heap n).relationships)) e
                (candidate_of b q r (c.heap q).relationships h o))
          | inr t ↦ inr (Depends-dependents_in b q r ps t h o)
        ])

  -- The chain of such relationships.
  pub data Reaches : String → String → Type 0 where
    direct : {a b : String} → Depends a b → Reaches a b
    through : {a b d : String} → Depends a b → Reaches b d → Reaches a d

  pub Reaches-trans : {a b d : String} → Reaches a b → Reaches b d → Reaches a d
  Reaches-trans (direct e) s = through e s
  Reaches-trans (through e r) s = through e (Reaches-trans r s)
