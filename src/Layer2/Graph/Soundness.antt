-- ===== src/Layer2/Graph/Soundness.antt =====
-- What the search for circular dependencies (layer2/relationship_mapper.go) reports is circular, if
-- every id that an entity depends on is registered.
use mathlib.Core.List.{Memᴰ}
use aizo.Prelude.{
  ℕ, zero, suc, ◌≡◌, ◌⊎◌, inl, inr, refl, String, true, false, some, List, [], ◌∷◌, get, put,
  get-put, values, ◌==◌, string_eq, arith, Bool-cases, All, length, All-of-Mem, key_of_value, map,
}
use aizo.Layer2.Catalog.Indexing.{IsValid}
use aizo.Layer2.Entity.{Go, get_relationships, depends_on}
use aizo.Layer2.Catalog.{Catalog, get_entity, list_entities}
use aizo.Layer2.Graph.{
  Verdict-cases, Flags, flag, Verdict, out_of_fuel, clear, circular, check_targets, dependencies,
  detect_cycle, validate_loop, validate_dependencies,
}
use aizo.Layer2.Graph.Dependency.{Edge, Leads, one, more, Leads-trans}

module _ (go : Go) (c : Catalog go) where
  -- Every id that some entity depends on is registered.
  abbrev pub Closed : Type 0
  Closed = (a b : String) → Edge go c a b → (ts : List String) × (dependencies go c b ≡ some ts)

  -- What is on the stack leads to `id` or is `id`.
  abbrev Ancestors : String → Flags → Type 0
  Ancestors id r = (x : String) → flag x r ≡ true → (x ≡ id) ⊎ Leads go c x id

  -- A report is circular, and a search that finds nothing leaves on the stack only what was there.
  abbrev Reports : Flags → Verdict → Type 0
  Reports r out_of_fuel = Unit
  Reports r (clear v' r') = (x : String) → flag x r' ≡ true → flag x r ≡ true
  Reports r (circular a b) = Edge go c a b × Leads go c a a

  check_targets-Reports :
      (fuel : ℕ) (id : String) (ts : List String) (v r r₀ : Flags)
      → ((b : String) → Memᴰ b ts → Edge go c id b)
      → Ancestors id r
      → ((x : String) → flag x r ≡ true → (x ≡ id) ⊎ (flag x r₀ ≡ true))
      → ((t : String) (v' r' : Flags)
          → Edge go c id t
          → Ancestors id r'
          → Reports r' (detect_cycle go c fuel t v' r'))
      → Reports r₀ (check_targets (detect_cycle go c fuel) id ts v r)
  unfolding check_targets
  check_targets-Reports fuel id [] v r r₀ edge anc below call =
      λ x on. ground (arith, get-put id x false r, below x)
  check_targets-Reports fuel id (t ∷ ts) v r r₀ edge anc below call =
      let here = edge t (Memᴰ.head refl) in
      let edges = λ (b : String) (m : Memᴰ b ts). edge b (Memᴰ.tail m) in
      elim (Bool-cases (flag t v)) [
        | inl seen ↦ elim (Bool-cases (flag t r)) [
          | inl on ↦
              rw (seen, check_targets, on)
                (
                  here,
                  elim (anc t on) [
                    | inl same ↦ one (rw same at here)
                    | inr path ↦ Leads-trans go c (one here) path
                  ],
                )
          | inr off ↦
              rw (seen, check_targets, off)
                (check_targets-Reports fuel id ts v r r₀ edges anc below call)
        ]
        | inr new ↦
            let nested = call t v r here anc in
            elim (Verdict-cases (detect_cycle go c fuel t v r)) [
              | inl e ↦ rw (new, check_targets, e) tt
              | inr (inl (v', r', e)) ↦
                  let kept : Reports r (clear v' r') = rw e at nested in
                  rw (new, check_targets, e)
                    (check_targets-Reports fuel id ts v' r' r₀ edges (λ x on. anc x (kept x on))
                      (λ x on. below x (kept x on)) call)
              | inr (inr (a, b, e)) ↦
                  let found : Reports r (circular a b) = rw e at nested in
                  rw (new, check_targets, e) found
            ]
      ]

  detect_cycle-Reports :
      (fuel : ℕ) (id : String) (v r : Flags)
      → Closed
      → (ts : List String) × (dependencies go c id ≡ some ts)
      → ((x : String) → flag x r ≡ true → Leads go c x id)
      → Reports r (detect_cycle go c fuel id v r)
  unfolding detect_cycle
  detect_cycle-Reports zero id v r closed known anc = tt
  detect_cycle-Reports (suc fuel) id v r closed (ts, e) anc =
      rw (e, detect_cycle)
        (check_targets-Reports fuel id ts (put id true v) (put id true r) r (λ b m. (ts, e, m))
          (λ x on. elim (Bool-cases (x == id)) [
            | inl same ↦ inl (ground arith)
            | inr other ↦ inr (anc x (ground (arith, get-put id x true r)))
          ])
          (λ x on. ground (arith, get-put id x true r))
          (λ t v' r' edge up.
            detect_cycle-Reports fuel t v' r' closed (closed id t edge) (λ x on. elim (up x on) [
              | inl same ↦ rw same (one edge)
              | inr path ↦ more path edge
            ])))

  validate_loop-Reports :
      (fuel : ℕ) (ps : List ℕ) (a b : String)
      → Closed
      → All (λ p. (ts : List String) × (dependencies go c (c.heap p).id ≡ some ts)) ps
      → validate_loop go c fuel ps ≡ circular a b
      → Edge go c a b × Leads go c a a
  unfolding validate_loop
  validate_loop-Reports fuel [] a b closed known h = absurd (ground arith)
  validate_loop-Reports fuel (p ∷ ps) a b closed known h =
      let report =
        detect_cycle-Reports fuel (c.heap p).id [] [] closed known.0
          (λ x on. absurd (no_mark x on)) in
      elim (Verdict-cases (detect_cycle go c fuel (c.heap p).id [] [])) [
        | inl e ↦ absurd (ground arith)
        | inr (inl (v', r', e)) ↦ validate_loop-Reports fuel ps a b closed known.1 (ground arith)
        | inr (inr (a', b', e)) ↦
            let found : Edge go c a' b' × Leads go c a' a' = rw e at report in
            let same_a : a' ≡ a = ground arith in
            let same_b : b' ≡ b = ground arith in rw (← same_a, ← same_b) found
      ]
    where
      no_mark : (x : String) → flag x [] ≡ true → ⊥
      no_mark x h = unfold get in ground arith

  -- On a valid catalog in which every id that an entity depends on is registered, what
  -- `ValidateDependencies` reports as circular is: the first id depends on the second, and on itself.
  pub validate_dependencies_sound :
      (a b : String)
      → IsValid go c
      → Closed
      → validate_dependencies go c ≡ circular a b
      → Edge go c a b × Leads go c a a
  unfolding validate_dependencies list_entities
  validate_dependencies_sound a b valid closed h =
      validate_loop-Reports (suc (suc (length c.entities))) (values c.entities) a b closed
        (All-of-Mem _ (values c.entities) (λ p m.
          let (id, found) = key_of_value p c.entities valid.distinct m in
          rw (valid.keyed id p found) (known id p found)))
        h
    where
      known :
          (id : String) (p : ℕ)
          → get id c.entities ≡ some p
          → (ts : List String) × (dependencies go c id ≡ some ts)
      known id p found = (
        map (λ r. r.target_id) (get_relationships go (c.heap p) depends_on),
        unfold dependencies get_entity in ground arith,
      )
