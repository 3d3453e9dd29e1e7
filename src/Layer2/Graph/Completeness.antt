-- ===== src/Layer2/Graph/Completeness.antt =====
-- If the search for circular dependencies (layer2/relationship_mapper.go) finds none, there is none.
use mathlib.Core.List.{Memᴰ}
use mathlib.Core.List.Memᴰ
use aizo.Prelude.{
  ℕ, zero, suc, length, ◌≡◌, ◌⊎◌, inl, inr, String, true, false, List, [], ◌∷◌, get, put, get-put,
  values, ◌==◌, string_eq, arith, Option-cases, Bool-cases, Mem-cons, Mem-values-of-get, All,
  All-Mem,
}
use aizo.Layer2.Entity.{Go}
use aizo.Layer2.Catalog.{Catalog, list_entities}
use aizo.Layer2.Catalog.Indexing.{IsValid}
use aizo.Layer2.Graph.{
  Verdict-cases, Flags, flag, Verdict, out_of_fuel, clear, circular, check_targets, dependencies,
  detect_cycle, validate_loop, validate_dependencies,
}
use aizo.Layer2.Graph.Dependency.{Edge, Leads, Safe, safe, Safe-acyclic, first_step}
use aizo.Layer2.Graph.Termination.{dependencies-registered}

module _ (go : Go) (c : Catalog go) where
  -- What is marked and no longer on the stack has been searched.
  abbrev Searched : Flags → Flags → Type 0
  Searched v r = (x : String) → flag x v ≡ true → flag x r ≡ false → Safe go c x

  abbrev Clears : String → Verdict → Type 0
  Clears id out_of_fuel = Unit
  Clears id (clear v r) = Safe go c id × Searched v r
  Clears id (circular a b) = Unit

  -- Every id that `id` depends on is safe, or among those still to be looked at.
  abbrev Pending : String → List String → Type 0
  Pending id ts = (b : String) → Edge go c id b → Safe go c b ⊎ Memᴰ b ts

  Pending-tail :
      (id t : String) (ts : List String) → Pending id (t ∷ ts) → Safe go c t → Pending id ts
  Pending-tail id t ts p s b e = elim (p b e) [
    | inl done ↦ inl done
    | inr m ↦ elim ((Mem-cons b t ts).0 m) [ inl same ↦ inl (rw same s) | inr later ↦ inr later ]
  ]

  check_targets-Clears :
      (fuel : ℕ) (id : String) (ts : List String) (v r : Flags)
      → Pending id ts
      → Searched v r
      → ((t : String) (v' r' : Flags) → Searched v' r' → Clears t (detect_cycle go c fuel t v' r'))
      → Clears id (check_targets (detect_cycle go c fuel) id ts v r)
  unfolding check_targets
  check_targets-Clears fuel id [] v r p s call =
      let done = safe (λ b e. elim (p b e) [ inl h ↦ h | inr m ↦ absurd (Memᴰ.not-nil m) ]) in
      (
        done,
        λ x marked off. elim (Bool-cases (x == id)) [
          | inl same ↦ let e : x ≡ id = ground arith in rw e done
          | inr other ↦ s x marked (ground (arith, get-put id x false r))
        ],
      )
  check_targets-Clears fuel id (t ∷ ts) v r p s call = elim (Bool-cases (flag t v)) [
    | inl seen ↦ elim (Bool-cases (flag t r)) [
      | inl on ↦ rw (seen, check_targets, on) tt
      | inr off ↦
          rw (seen, check_targets, off)
            (check_targets-Clears fuel id ts v r (Pending-tail id t ts p (s t seen off)) s call)
    ]
    | inr new ↦
        let nested = call t v r s in
        elim (Verdict-cases (detect_cycle go c fuel t v r)) [
          | inl e ↦ rw (new, check_targets, e) tt
          | inr (inl (v', r', e)) ↦
              let found : Clears t (clear v' r') = rw e at nested in
              rw (new, check_targets, e)
                (check_targets-Clears fuel id ts v' r' (Pending-tail id t ts p found.0) found.1
                  call)
          | inr (inr (a, b, e)) ↦ rw (new, check_targets, e) tt
        ]
  ]

  detect_cycle-Clears :
      (fuel : ℕ) (id : String) (v r : Flags)
      → Searched v r
      → Clears id (detect_cycle go c fuel id v r)
  unfolding detect_cycle
  detect_cycle-Clears zero id v r s = tt
  detect_cycle-Clears (suc fuel) id v r s =
      let entered : Searched (put id true v) (put id true r) = λ x marked off.
        s x (ground (arith, get-put id x true v, get-put id x true r))
          (ground (arith, get-put id x true r)) in
      elim (Option-cases (dependencies go c id)) [
        | inl e ↦ rw (e, detect_cycle) (safe (λ b (ts, f, m). absurd (ground arith)), entered)
        | inr (ts, e) ↦
            rw (e, detect_cycle)
              (check_targets-Clears fuel id ts (put id true v) (put id true r)
                (λ b (us, f, m). inr (let same : us ≡ ts = ground arith in rw same at m)) entered
                (λ t v' r' h. detect_cycle-Clears fuel t v' r' h))
      ]

  validate_loop-Safe :
      (fuel : ℕ) (ps : List ℕ) (v r : Flags)
      → validate_loop go c fuel ps ≡ clear v r
      → All (λ p. Safe go c (c.heap p).id) ps
  unfolding validate_loop
  validate_loop-Safe fuel [] v r h = tt
  validate_loop-Safe fuel (p ∷ ps) v r h =
      let one =
        detect_cycle-Clears fuel (c.heap p).id [] [] (λ x marked. absurd (no_mark x marked)) in
      elim (Verdict-cases (detect_cycle go c fuel (c.heap p).id [] [])) [
        | inl e ↦ absurd (ground arith)
        | inr (inl (v', r', e)) ↦
            let found : Clears (c.heap p).id (clear v' r') = rw e at one in
            (found.0, validate_loop-Safe fuel ps v r (ground arith))
        | inr (inr (a, b, e)) ↦ absurd (ground arith)
      ]
    where
      no_mark : (x : String) → flag x [] ≡ true → ⊥
      no_mark x h = unfold get in ground arith

  -- If `ValidateDependencies` reports nothing on a valid catalog, no id depends on itself, however far.
  pub validate_dependencies_complete :
      (v r : Flags) (id : String)
      → IsValid go c
      → validate_dependencies go c ≡ clear v r
      → ¬ Leads go c id id
  unfolding validate_dependencies list_entities
  validate_dependencies_complete v r id valid h p =
      let (d, (ts, e, m), _) = first_step go c p in
      let (q, found) = dependencies-registered go c id ts e in
      let all = validate_loop-Safe (suc (suc (length c.entities))) (values c.entities) v r h in
      let mine =
        All-Mem (λ p. Safe go c (c.heap p).id) q (values c.entities) all
          (Mem-values-of-get id q c.entities found) in
      Safe-acyclic go c (rw (valid.keyed id q found) at mine) p
