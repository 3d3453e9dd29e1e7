-- ===== src/Layer6/Go.antt =====
-- What layer6 uses of Go and its library, and the model takes as given: float64 with its order and
-- arithmetic, the tests on texts, the formatted texts, and the values of an `interface{}`.
use aizo.Prelude.{ℕ, String, Bool}

pub record Go : Type 1 where
  pub Float : Type 0
  pub of_int : ℕ → Float
  pub literal : String → Float
  pub div : Float → Float → Float
  pub lt : Float → Float → Bool
  pub le : Float → Float → Bool
  pub eq : Float → Float → Bool
  pub contains : String → String → Bool
  pub to_lower : String → String
  pub Value : Type 0
  pub text_value : String → Value
  -- the two calls of `fmt.Sprintf` in `buildProposal`: name, confidence, successes and total; and the
  -- type and entity of the event, added to what stands before
  pub matched_text : String → Float → ℕ → ℕ → String
  pub event_text : String → String → String → String
