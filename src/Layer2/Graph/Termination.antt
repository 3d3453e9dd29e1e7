-- ===== src/Layer2/Graph/Termination.antt =====
-- The search for circular dependencies (layer2/relationship_mapper.go) ends: every nested call marks
-- one more registered id.
use mathlib.Core.List.{Memᴰ}
use mathlib.Core.List.Memᴰ
use aizo.Prelude.{
  ℕ, zero, suc, ◌+◌, ◌≤◌, ◌<◌, ◌≡◌, ◌≢◌, inl, inr, refl, ap, String, true, false, some, List, [],
  ◌∷◌, if◌then◌else◌, Map, get, put, get-put, keys, length, string_eq, arith, Option-cases,
  Bool-cases, Mem-cons, Mem-of-get,
}
use aizo.Layer2.Entity.{Go}
use aizo.Layer2.Catalog.{Catalog, get_entity, list_entities}
use aizo.Layer2.Graph.{
  Verdict-cases, Flags, flag, Verdict, out_of_fuel, clear, circular, check_targets, dependencies,
  detect_cycle, validate_loop, validate_dependencies,
}

-- How many of the keys are not marked.
unfoldable pub unvisited : List String → Flags → ℕ
unvisited [] m = 0
unvisited (k ∷ ks) m = let rest = unvisited ks m in if flag k m then rest else suc rest

unvisited-put-le :
    (id : String) (ks : List String) (m : Flags) → unvisited ks (put id true m) ≤ unvisited ks m
unfolding unvisited
unvisited-put-le id [] m = omega arith
unvisited-put-le id (k ∷ ks) m = ground (arith, unvisited-put-le id ks m, get-put id k true m)

unvisited-put-lt :
    (id : String) (ks : List String) (m : Flags)
    → Memᴰ id ks
    → flag id m ≡ false
    → unvisited ks (put id true m) < unvisited ks m
unfolding unvisited
unvisited-put-lt id [] m h f = absurd (Memᴰ.not-nil h)
unvisited-put-lt id (k ∷ ks) m h f = elim ((Mem-cons id k ks).0 h) [
  | inl e ↦ ground (arith, unvisited-put-le id ks m, get-put id k true m, ap (λ x. flag x m) e)
  | inr t ↦ ground (arith, unvisited-put-lt id ks m t f, get-put id k true m)
]

unvisited-nil : (ks : List String) → unvisited ks [] ≡ length ks
unfolding unvisited get
unvisited-nil [] = refl
unvisited-nil (k ∷ ks) = ap suc (unvisited-nil ks)

length-keys : (m : Map String ℕ) → length (keys m) ≡ length m
length-keys [] = refl
length-keys ((k, v) ∷ m) = ap suc (length-keys m)

Mem-keys : (k : String) (v : ℕ) (m : Map String ℕ) → Memᴰ (k, v) m → Memᴰ k (keys m)
Mem-keys k v [] h = absurd (Memᴰ.not-nil h)
Mem-keys k v ((j, w) ∷ m) h = elim ((Mem-cons (k, v) (j, w) m).0 h) [
  | inl e ↦ Memᴰ.head (ap (λ x. x.0) e)
  | inr t ↦ Memᴰ.tail (Mem-keys k v m t)
]

module _ (go : Go) (c : Catalog go) where
  abbrev left : Flags → ℕ
  left = unvisited (keys c.entities)

  -- The search comes to a verdict, and unmarks nothing.
  abbrev Ends : Flags → Verdict → Type 0
  Ends visited out_of_fuel = ⊥
  Ends visited (clear visited' _) = left visited' ≤ left visited
  Ends visited (circular a b) = Unit

  check_targets-Ends :
      (fuel : ℕ) (id : String) (ts : List String) (v r : Flags)
      → ((t : String) (v' r' : Flags)
          → flag t v' ≡ false
          → left v' ≤ left v
          → Ends v' (detect_cycle go c fuel t v' r'))
      → Ends v (check_targets (detect_cycle go c fuel) id ts v r)
  unfolding check_targets
  check_targets-Ends fuel id [] v r call = omega arith
  check_targets-Ends fuel id (t ∷ ts) v r call = elim (Bool-cases (flag t v)) [
    | inl seen ↦ rw (seen, check_targets) (ground (arith, check_targets-Ends fuel id ts v r call))
    | inr new ↦
        let nested = call t v r new (omega arith) in
        elim (Verdict-cases (detect_cycle go c fuel t v r)) [
          | inl e ↦ absurd (rw e at nested)
          | inr (inl (v', r', e)) ↦
              let less : left v' ≤ left v = rw e at nested in
              let later =
                check_targets-Ends fuel id ts v' r'
                  (λ u v'' r'' f h. call u v'' r'' f (omega arith)) in
              ground (arith, less, later)
          | inr (inr (a, b, e)) ↦ ground arith
        ]
  ]

  Ends-mono : (v v' : Flags) (w : Verdict) → left v' ≤ left v → Ends v' w → Ends v w
  Ends-mono v v' out_of_fuel h e = e
  Ends-mono v v' (clear _ _) h e = omega arith
  Ends-mono v v' (circular a b) h e = tt

  -- An entity that has dependencies is registered.
  pub dependencies-registered :
      (id : String) (ts : List String)
      → dependencies go c id ≡ some ts
      → (p : ℕ) × (get id c.entities ≡ some p)
  unfolding dependencies get_entity
  dependencies-registered id ts h = elim (Option-cases (get id c.entities)) [
    | inl e ↦ absurd (ground arith)
    | inr found ↦ found
  ]

  detect_cycle-Ends :
      (fuel : ℕ) (id : String) (v r : Flags)
      → flag id v ≡ false
      → left v + 1 ≤ fuel
      → Ends v (detect_cycle go c fuel id v r)
  unfolding detect_cycle
  detect_cycle-Ends zero id v r f h = absurd (omega arith)
  detect_cycle-Ends (suc fuel) id v r f h = elim (Option-cases (dependencies go c id)) [
    | inl e ↦ rw (e, detect_cycle) (unvisited-put-le id (keys c.entities) v)
    | inr (ts, e) ↦
        let (p, found) = dependencies-registered id ts e in
        let less =
          unvisited-put-lt id (keys c.entities) v
            (Mem-keys id p c.entities (Mem-of-get id p c.entities found)) f in
        rw (e, detect_cycle)
          (Ends-mono v (put id true v) _ (omega arith) (
            check_targets-Ends fuel id ts (put id true v) (put id true r)
              (λ t v' r' new le. detect_cycle-Ends fuel t v' r' new (omega arith))))
  ]

  validate_loop-ne-out_of_fuel :
      (ps : List ℕ) → validate_loop go c (suc (suc (length c.entities))) ps ≢ out_of_fuel
  unfolding validate_loop
  validate_loop-ne-out_of_fuel [] h = absurd (ground arith)
  validate_loop-ne-out_of_fuel (p ∷ ps) h =
      let ends =
        detect_cycle-Ends (suc (suc (length c.entities))) (c.heap p).id [] [] (unfold get in refl)
          (omega (arith, unvisited-nil (keys c.entities), length-keys c.entities)) in
      elim (Verdict-cases (detect_cycle go c (suc (suc (length c.entities))) (c.heap p).id [] [])) [
        | inl e ↦ rw e at ends
        | inr (inl (v, r, e)) ↦ absurd (ground (arith, validate_loop-ne-out_of_fuel ps))
        | inr (inr (a, b, e)) ↦ absurd (ground arith)
      ]

  -- `ValidateDependencies` always comes to a verdict, whatever the catalog: two calls more than there
  -- are entities is as deep as the search can go.
  pub validate_dependencies_terminates : validate_dependencies go c ≢ out_of_fuel
  unfolding validate_dependencies
  validate_dependencies_terminates = validate_loop-ne-out_of_fuel (list_entities go c)
