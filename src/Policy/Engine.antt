-- ===== src/Policy/Engine.antt =====
-- policy/engine.go and the types of policy/types.go. What the engine calls of Go's library is a
-- parameter: `Text` holds `filepath.Match`, `strings.EqualFold`, `strings.Split` at a comma and
-- `strings.TrimSpace`, and `sort` is the `sort.Slice` of the policies by falling priority.
-- `Evaluate` reads the policies under the lock and changes only the limiter.
pub mod Decision
pub mod Conditions
pub mod Policies
use aizo.Prelude.{
  ℕ, zero, suc, ◌+◌, ◌≡◌, String, Bool, true, false, not, ◌&&◌, ◌||◌, Option, none, some, List, [],
  ◌∷◌, ◌++◌, if◌then◌else◌, Map, get, ◌==◌, string_eq, is_some, some_of, replace_or_append,
  remove_first,
}
use aizo.Prelude.Int.{ℤ}
use aizo.Policy.RateLimiter.{RateLimiter, RateLimitConfig, new_rate_limiter, set_limit, allow}

abbrev pub effect_allow : String
effect_allow = "allow"

abbrev pub effect_deny : String
effect_deny = "deny"

pub record Condition : Type 0 where
  pub field : String
  pub operator : String
  pub value : String

pub record Rule : Type 0 where
  pub actions : List String
  pub resources : List String
  pub actors : List String
  pub effect : String
  pub conditions : List Condition

pub record Policy : Type 0 where
  pub id : String
  pub name : String
  pub description : String
  pub rules : List Rule
  pub effect : String
  pub priority : ℤ
  pub enabled : Bool
  pub tenant_id : String

pub record EvalRequest : Type 0 where
  pub actor : String
  pub action : String
  pub resource : String
  pub context : Map String String

-- What a decision rests on; the source writes it as the texts of `Reason`.
pub data Reason : Type 0 where
  rate_limited : Reason
  rule_matched : String → Reason
  default_deny : Reason

pub record EvalResult : Type 0 where
  pub allowed : Bool
  pub effect : String
  pub policy_id : String
  pub rule_idx : ℕ
  pub reason : Reason

pub record Engine : Type 0 where
  pub policies : List Policy
  pub limiter : RateLimiter

abbrev pub new_engine : Engine
new_engine = record { policies = []; limiter = new_rate_limiter }

pub record Text : Type 0 where
  pub glob : String → String → Bool
  pub equal_fold : String → String → Bool
  pub split_comma : String → List String
  pub trim_space : String → String

-- `AddPolicy`: the first policy with the id is replaced, and a new one is appended; then all are
-- sorted.
unfoldable pub add_policy : (List Policy → List Policy) → Engine → Policy → Engine
add_policy sort e p = record e { policies = sort (replace_or_append (λ q. q.id) p e.policies) }

unfoldable pub remove_policy : Engine → String → Engine
remove_policy e id = record e { policies = remove_first (λ q. q.id) id e.policies }

unfoldable pub set_rate_limit : Engine → RateLimitConfig → Engine
set_rate_limit e config = record e { limiter = set_limit e.limiter config }

-- `req.Context["tenant_id"]`, which is "" for a missing key.
abbrev pub tenant_of : EvalRequest → String
tenant_of req = elim (get "tenant_id" req.context) [ none ↦ "" | some t ↦ t ]

-- The guards before the loop over a policy's rules.
abbrev pub applies : Policy → EvalRequest → Bool
applies p req =
    p.enabled
    && not (
        not (p.tenant_id == "")
        && (not (tenant_of req == "") && not (p.tenant_id == tenant_of req)))

abbrev pub no_match : EvalResult
no_match = record {
  allowed = false;
  effect = effect_deny;
  policy_id = "";
  rule_idx = 0;
  reason = default_deny;
}

abbrev pub rule_result : Policy → ℕ → Rule → EvalResult
rule_result p idx rule = record {
  allowed = rule.effect == effect_allow;
  effect = rule.effect;
  policy_id = p.id;
  rule_idx = idx;
  reason = rule_matched p.name;
}

module _ (text : Text) where
  unfoldable pub match_any : List String → String → Bool
  match_any patterns value =
      some_of (λ p. p == "*" || (text.glob p value || text.equal_fold p value)) patterns

  abbrev pub match_list : List String → String → Bool
  match_list [] value = true
  match_list (p ∷ ps) value = match_any (p ∷ ps) value

  unfoldable pub match_rule : Rule → EvalRequest → Bool
  unfolding match_any
  match_rule rule req =
      match_list rule.actions req.action
      && (match_list rule.resources req.resource && match_list rule.actors req.actor)

  -- The switch over the operator: an operator without a case rejects nothing.
  unfoldable pub condition_holds : Condition → String → Bool
  condition_holds c val =
      if c.operator == "eq"
      then val == c.value
      else if c.operator == "ne"
      then not (val == c.value)
      else if c.operator == "in"
      then some_of (λ v. text.trim_space v == val) (text.split_comma c.value)
      else true

  unfoldable pub match_conditions : List Condition → Map String String → Bool
  unfolding condition_holds
  match_conditions [] ctx = true
  match_conditions (c ∷ cs) ctx = elim (get c.field ctx) [
    | none ↦ false
    | some val ↦ condition_holds c val && match_conditions cs ctx
  ]

  unfoldable pub rule_fires : Rule → EvalRequest → Bool
  unfolding match_rule match_conditions
  rule_fires rule req = match_rule rule req && match_conditions rule.conditions req.context

  -- The loop over the rules of a policy, from `idx` on.
  unfoldable pub eval_rules : Policy → EvalRequest → ℕ → List Rule → Option EvalResult
  unfolding rule_fires
  eval_rules p req idx [] = none
  eval_rules p req idx (rule ∷ rules) =
      let rest = eval_rules p req (suc idx) rules in
      if rule_fires rule req then some (rule_result p idx rule) else rest

  unfoldable pub eval_policies : EvalRequest → List Policy → EvalResult
  unfolding eval_rules
  eval_policies req [] = no_match
  eval_policies req (p ∷ ps) =
      let rest = eval_policies req ps in
      if applies p req then elim (eval_rules p req 0 p.rules) [ none ↦ rest | some r ↦ r ] else rest

  unfoldable pub evaluate : Engine → ℕ → EvalRequest → Engine × EvalResult
  unfolding eval_policies
  evaluate e now req =
      let (limiter, ok) = allow e.limiter now req.actor req.action in
      let e' = record e { limiter = limiter } in
      if ok
      then (e', eval_policies req e.policies)
      else (e', record no_match { reason = rate_limited })
