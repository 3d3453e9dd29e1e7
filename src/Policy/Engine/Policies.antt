-- ===== src/Policy/Engine/Policies.antt =====
-- Adding and removing policies (policy/engine.go). `sort.Slice` is not stable: all that is known of
-- it is that it rearranges the policies, and that they stand by falling priority afterwards.
use mathlib.Core.List.{Memᴰ, Permᴰ}
use mathlib.Core.List.Permᴰ
use aizo.Prelude.{
  ◌≡◌, ◌≢◌, ◌⊎◌, inl, inr, ◌↔◌, String, List, [], ◌∷◌, ◌==◌, string_eq, All-Mem, All-of-Mem,
  Mem-Perm, Bool-cases, replace_or_append, remove_first, UniqueIds, Mem-replace_or_append,
  Mem-remove_first, replace_or_append-UniqueIds, remove_first-UniqueIds, UniqueIds-Perm,
}
use aizo.Prelude.Int.{◌≤ℤ◌}
use aizo.Policy.Engine.{Policy, Engine, add_policy, remove_policy}
use aizo.Policy.Engine.Decision.{Descending}

-- What the documentation of `sort.Slice` says of the call in `sortPolicies`.
pub record Sorts (sort : List Policy → List Policy) : Type 0 where
  pub permutes : (ps : List Policy) → Permᴰ (sort ps) ps
  pub descends : (ps : List Policy) → Descending (sort ps)

-- Every id stands once, and the policies stand by falling priority.
pub record IsValid (e : Engine) : Type 0 where
  pub unique : UniqueIds (λ (p : Policy). p.id) e.policies
  pub sorted : Descending e.policies

module _ (sort : List Policy → List Policy) (sorts : Sorts sort) where
  pub add_policy-IsValid : (e : Engine) (p : Policy) → IsValid e → IsValid (add_policy sort e p)
  unfolding add_policy
  add_policy-IsValid e p v =
      let added = replace_or_append (λ q. q.id) p e.policies in
      record {
        unique =
            UniqueIds-Perm (λ q. q.id) (Permᴰ.symm (sorts.permutes added))
              (replace_or_append-UniqueIds (λ q. q.id) p e.policies v.unique);
        sorted = sorts.descends added;
      }

  -- Adding a policy to a valid engine keeps it valid; the policies are then the added one and those
  -- that had another id, whatever the order in which sorting leaves equal priorities.
  pub Mem-add_policy :
      (e : Engine) (p q : Policy)
      → IsValid e
      → IsValid (add_policy sort e p)
        × (Memᴰ q (add_policy sort e p).policies ↔ ((q ≡ p) ⊎ Memᴰ q e.policies × (q.id ≢ p.id)))
  unfolding add_policy
  Mem-add_policy e p q v =
      let added = replace_or_append (λ q. q.id) p e.policies in
      let perm = sorts.permutes added in
      let spec = Mem-replace_or_append (λ q. q.id) p q e.policies v.unique in
      (
        add_policy-IsValid e p v,
        (λ m. spec.0 (Mem-Perm q perm m), λ c. Mem-Perm q (Permᴰ.symm perm) (spec.1 c)),
      )

-- Removing from a list in falling order leaves one.
remove_first-Descending :
    (id : String) (ps : List Policy)
    → UniqueIds (λ (p : Policy). p.id) ps
    → Descending ps
    → Descending (remove_first (λ p. p.id) id ps)
unfolding remove_first
remove_first-Descending id [] u d = tt
remove_first-Descending id (r ∷ rs) u d = elim (Bool-cases (r.id == id)) [
  | inl e ↦ rw e d.1
  | inr n ↦ rw n (
    All-of-Mem (λ q. q.priority ≤ℤ r.priority) (remove_first (λ p. p.id) id rs)
        (λ q m.
          All-Mem (λ q. q.priority ≤ℤ r.priority) q rs d.0
            ((Mem-remove_first (λ p. p.id) id q rs u.1).0 m).0),
    remove_first-Descending id rs u.1 d.1,
  )
]

-- Removing an id from a valid engine keeps it valid, and takes away exactly the policy with that id.
pub Mem-remove_policy :
    (e : Engine) (id : String) (q : Policy)
    → IsValid e
    → IsValid (remove_policy e id)
      × (Memᴰ q (remove_policy e id).policies ↔ (Memᴰ q e.policies × (q.id ≢ id)))
unfolding remove_policy
Mem-remove_policy e id q v = (
  record {
    unique = remove_first-UniqueIds (λ p. p.id) id e.policies v.unique;
    sorted = remove_first-Descending id e.policies v.unique v.sorted;
  },
  Mem-remove_first (λ p. p.id) id q e.policies v.unique,
)
