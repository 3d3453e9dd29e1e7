-- ===== src/Policy/Engine/Conditions.antt =====
-- Which operators the conditions of a rule (policy/engine.go) look at.
use aizo.Prelude.{
  ◌≡◌, refl, String, Bool, true, ◌&&◌, List, [], ◌∷◌, if◌then◌else◌, Map, get, ◌==◌, string_eq,
  is_some, some_of, arith,
}
use aizo.Policy.Engine.{Condition, Text, match_conditions}

abbrev pub is_known : String → Bool
is_known op = some_of (λ o. op == o) ("eq" ∷ "ne" ∷ "in" ∷ [])

-- The conditions that have one of the three operators.
abbrev pub known : List Condition → List Condition
known [] = []
known (c ∷ cs) = let rest = known cs in if is_known c.operator then c ∷ rest else rest

-- Whether every field that the conditions name is in the context.
abbrev pub present : List Condition → Map String String → Bool
present [] ctx = true
present (c ∷ cs) ctx = is_some (get c.field ctx) && present cs ctx

-- A condition whose operator is not "eq", "ne" or "in" restricts nothing but that its field is there:
-- a rule's conditions hold exactly when all their fields are in the context and the conditions with
-- one of the three operators hold. So "gt" and "lt", which the type's comment names, are ignored.
pub match_conditions-known :
    (text : Text) (cs : List Condition) (ctx : Map String String)
    → match_conditions text cs ctx ≡ (present cs ctx && match_conditions text (known cs) ctx)
unfolding match_conditions
match_conditions-known text [] ctx = refl
match_conditions-known text (c ∷ cs) ctx = ground (arith, match_conditions-known text cs ctx)
