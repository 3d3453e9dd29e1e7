-- ===== src/Tests/Policy.antt =====
-- Runs of the rate limiter and of the policy engine (policy). The policies are sorted by insertion,
-- and a glob matches only itself.
use mathlib.Core.List.{Permᴰ}
use mathlib.Core.List.Permᴰ
use aizo.Prelude.{
  ℕ, ◌≤◌, ◌≡◌, ◌⊎◌, refl, inl, inr, String, true, false, none, some, List, [], ◌∷◌, if◌then◌else◌,
  ◌==◌, string_eq, get, put, String_discrete, All, All-of-Mem, All-Mem, Mem-Perm, Bool-cases, arith,
}
use aizo.Prelude.Int.{ℤ, pos, leb_ℤ, ◌≤ℤ◌}
use aizo.Policy.RateLimiter.{
  RateLimitConfig, RateLimiter, new_rate_limiter, set_limit, allow, bucket_key,
}
use aizo.Policy.RateLimiter.Window.{Request, allowed, allowed-le}
use aizo.Policy.Engine.{
  Rule, Policy, EvalRequest, Engine, Text, rate_limited, no_match, rule_result, evaluate,
}
use aizo.Policy.Engine.Decision.{Descending, Silent, Decides, evaluate_cases}
use aizo.Policy.Engine.Policies.{Sorts, IsValid}

abbrev two_a_minute : RateLimitConfig
two_a_minute = record { action = "read"; max_per_min = pos 2; max_per_hour = pos 100 }

abbrev limiter : RateLimiter
limiter = set_limit new_rate_limiter two_a_minute

abbrev asks : ℕ → Request
asks at = record { at = at; actor = "ann"; action = "read" }

limit_is_set : get "read" limiter.limits ≡ some two_a_minute
unfolding set_limit get put String_discrete
limit_is_set = refl

no_bucket : get (bucket_key "ann" "read") limiter.buckets ≡ none
unfolding set_limit get
no_bucket = refl

allowed-le_example : allowed "ann" "read" limiter (asks 1 ∷ asks 2 ∷ asks 3 ∷ []) ≤ 2
allowed-le_example =
    allowed-le 1 2 "ann" "read" limiter (asks 1 ∷ asks 2 ∷ asks 3 ∷ []) two_a_minute limit_is_set
      refl (omega arith)
      (omega arith, omega arith, (omega arith, omega arith, (omega arith, omega arith, tt)))
      no_bucket

abbrev text : Text
text = record {
  glob = λ p v. p == v;
  equal_fold = λ p v. p == v;
  split_comma = λ s. s ∷ [];
  trim_space = λ s. s;
}

abbrev reads : Rule
reads = record {
  actions = "read" ∷ [];
  resources = [];
  actors = [];
  effect = "allow";
  conditions = record { field = "load"; operator = "gt"; value = "90" } ∷ [];
}

abbrev policy_of : String → ℤ → List Rule → Policy
policy_of id priority rules = record {
  id = id;
  name = id;
  description = "";
  rules = rules;
  effect = "deny";
  priority = priority;
  enabled = true;
  tenant_id = "";
}

abbrev engine : Engine
engine = record { policies = policy_of "low" (pos 1) (reads ∷ []) ∷ []; limiter = limiter }

abbrev request : EvalRequest
request = record { actor = "ann"; action = "read"; resource = "db"; context = ("load", "10") ∷ [] }

evaluate_cases_example :
    let (e', result) = evaluate text engine 5 request in
    let ok = (allow limiter 5 "ann" "read").1 in
    (e'.policies ≡ engine.policies)
    × (((ok ≡ false) × (result ≡ record no_match { reason = rate_limited }))
        ⊎ ((ok ≡ true) × All (Silent text request) engine.policies × (result ≡ no_match))
        ⊎ ((p : Policy) × (i : ℕ) × (rule : Rule) × (ok ≡ true)
            × Decides text request engine.policies p i rule
            × (result ≡ rule_result p i rule)))
evaluate_cases_example = evaluate_cases text request engine 5 (tt, tt)

abbrev insert : Policy → List Policy → List Policy
insert p [] = p ∷ []
insert p (q ∷ qs) = if leb_ℤ q.priority p.priority then p ∷ q ∷ qs else q ∷ insert p qs

abbrev sort : List Policy → List Policy
sort [] = []
sort (p ∷ ps) = insert p (sort ps)

insert-Perm : (p : Policy) (ps : List Policy) → Permᴰ (insert p ps) (p ∷ ps)
insert-Perm p [] = Permᴰ.refl _
insert-Perm p (q ∷ qs) = elim (Bool-cases (leb_ℤ q.priority p.priority)) [
  | inl e ↦ rw (e) (Permᴰ.refl _)
  | inr e ↦ rw (e) (Permᴰ.trans (Permᴰ.cons refl (insert-Perm p qs)) (Permᴰ.swap refl refl))
]

sort-Perm : (ps : List Policy) → Permᴰ (sort ps) ps
sort-Perm [] = Permᴰ.nil
sort-Perm (p ∷ ps) = Permᴰ.trans (insert-Perm p (sort ps)) (Permᴰ.cons refl (sort-Perm ps))

insert-All :
    (z : ℤ) (p : Policy) (ps : List Policy)
    → p.priority ≤ℤ z
    → All (λ q. q.priority ≤ℤ z) ps
    → All (λ q. q.priority ≤ℤ z) (insert p ps)
insert-All z p ps h all =
    All-of-Mem _ (insert p ps)
      (λ a m. All-Mem (λ q. q.priority ≤ℤ z) a (p ∷ ps) (h, all) (Mem-Perm a (insert-Perm p ps) m))

insert-Descending : (p : Policy) (ps : List Policy) → Descending ps → Descending (insert p ps)
insert-Descending p [] d = (tt, tt)
insert-Descending p (q ∷ qs) d = elim (Bool-cases (leb_ℤ q.priority p.priority)) [
  | inl e ↦
      let h : q.priority ≤ℤ p.priority = ground arith in
      rw (e) (
        (
          h,
          All-of-Mem _ qs (λ a m.
              let g = All-Mem (λ r. r.priority ≤ℤ q.priority) a qs d.0 m in omega (arith, g, h)),
        ),
        d,
      )
  | inr e ↦ rw (e) (insert-All q.priority p qs (ground arith) d.0, insert-Descending p qs d.1)
]

sort-Descending : (ps : List Policy) → Descending (sort ps)
sort-Descending [] = tt
sort-Descending (p ∷ ps) = insert-Descending p (sort ps) (sort-Descending ps)

sort-Sorts : Sorts sort
sort-Sorts = record { permutes = sort-Perm; descends = sort-Descending }

engine-IsValid : IsValid engine
engine-IsValid = record { unique = (tt, tt); sorted = (tt, tt) }

abbrev high : Policy
high = policy_of "high" (pos 9) []
