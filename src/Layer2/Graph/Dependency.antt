-- ===== src/Layer2/Graph/Dependency.antt =====
-- What a circular dependency is, apart from the search (layer2/relationship_mapper.go): a path of
-- dependencies from an id to itself.
use mathlib.Core.List.{Memᴰ}
use aizo.Prelude.{◌⊎◌, inl, inr, ◌≡◌, refl, String, some, List}
use aizo.Layer2.Entity.{Go}
use aizo.Layer2.Catalog.{Catalog}
use aizo.Layer2.Graph.{dependencies}

module _ (go : Go) (c : Catalog go) where
  abbrev pub Edge : String → String → Type 0
  Edge a b = (ts : List String) × (dependencies go c a ≡ some ts) × Memᴰ b ts

  pub data Leads (a : String) : String → Type 0 where
    one : {b : String} → Edge a b → Leads a b
    more : {b d : String} → Leads a b → Edge b d → Leads a d

  pub Leads-trans : {a b d : String} → Leads a b → Leads b d → Leads a d
  Leads-trans p (one e) = more p e
  Leads-trans p (more q e) = more (Leads-trans p q) e

  -- Nothing that the id depends on, however far, depends on itself.
  pub data Safe : String → Type 0 where
    safe : {a : String} → ((b : String) → Edge a b → Safe b) → Safe a

  pub Safe-Edge : {a b : String} → Safe a → Edge a b → Safe b
  Safe-Edge (safe h) e = h _ e

  pub Safe-Leads : {a b : String} → Safe a → Leads a b → Safe b
  Safe-Leads s (one e) = Safe-Edge s e
  Safe-Leads s (more p e) = Safe-Edge (Safe-Leads s p) e

  -- A path's first step leads to an id on a path to its end, or to its end.
  pub first_step : {a b : String} → Leads a b → (d : String) × Edge a d × ((d ≡ b) ⊎ Leads d b)
  first_step (one {b} e) = (b, e, inl refl)
  first_step (more {b} p e) =
      let (d, f, q) = first_step p in
      (d, f, inr (elim q [ inl same ↦ one (rw same e) | inr r ↦ more r e ]))

  pub Safe-acyclic : {a : String} → Safe a → ¬ Leads a a
  Safe-acyclic {a} (safe h) p =
      let (d, e, q) = first_step p in
      Safe-acyclic (h d e) (elim q [ inl same ↦ rw same p | inr r ↦ Leads-trans r (one e) ])
