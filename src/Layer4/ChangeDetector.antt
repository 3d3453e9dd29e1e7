-- ===== src/Layer4/ChangeDetector.antt =====
-- layer4/change_detector.go: `DetectDrift` and the severity of a difference. A state is a Go map that
-- may be nil. `text` is `fmt.Sprintf("%v", ...)`, by which values are compared, and `percent a b` is
-- `float64(a) / float64(b) * 100.0`, of the type `F` of float64 with its `zero`.
pub mod Drift
use aizo.Prelude.{
  ℕ, ◌+◌, String, Bool, true, false, ◌||◌, Option, none, some, List, [], ◌∷◌, ◌++◌, Map, get,
  length, ltb, ◌==◌, string_eq, if◌then◌else◌, is_some,
}

pub record StateDifference (V : Type 0) : Type 0 where
  pub field_name : String
  pub desired_value : Option V
  pub actual_value : Option V
  pub severity : String

-- `drifting` is the local variable `driftingFields`.
pub record StateDrift (V : Type 0) (F : Type 0) : Type 0 where
  pub has_drift : Bool
  pub detected_at : ℕ
  pub differences : List (StateDifference V)
  pub drift_score : F
  pub drifting : ℕ

abbrev is_one_of : String → List String → Bool
is_one_of x [] = false
is_one_of x (y ∷ ys) = (x == y) || is_one_of x ys

abbrev critical_fields : List String
critical_fields = "version" ∷ "security_group" ∷ "firewall_rules" ∷ "encryption" ∷ []

abbrev high_fields : List String
high_fields = "port" ∷ "protocol" ∷ "endpoint" ∷ "credentials" ∷ []

abbrev medium_fields : List String
medium_fields = "timeout" ∷ "retry_count" ∷ "buffer_size" ∷ []

unfoldable pub calculate_severity : String → String
calculate_severity x =
    if is_one_of x critical_fields
    then "critical"
    else (if is_one_of x high_fields
        then "high"
        else if is_one_of x medium_fields
        then "medium"
        else "low")

-- The fields of a map: ranging over nil is ranging over nothing.
abbrev pub fields : {V : Type 0} → Option (Map String V) → Map String V
fields none = []
fields (some m) = m

module _ {V : Type 0} {F : Type 0} (text : V → String) (zero_score : F) (percent : ℕ → ℕ → F) where
  abbrev pub values_equal : V → V → Bool
  values_equal a b = text a == text b

  abbrev pub add_difference :
      StateDrift V F → String → Option V → Option V → String → StateDrift V F
  add_difference d name desired actual severity = record d {
    has_drift = true;
    differences =
        d.differences
        ++ (record {
          field_name = name;
          desired_value = desired;
          actual_value = actual;
          severity = severity;
        }
            ∷ []);
    drifting = d.drifting + 1;
  }

  -- What the loop over the desired fields does at one of them.
  unfoldable pub check_field : Map String V → String → V → StateDrift V F → StateDrift V F
  unfolding calculate_severity
  check_field actual k v d = elim (get k actual) [
    | none ↦ add_difference d k (some v) none "high"
    | some w ↦
        if values_equal v w then d else add_difference d k (some v) (some w) (calculate_severity k)
  ]

  unfoldable pub check_desired : Map String V → Map String V → StateDrift V F → StateDrift V F
  unfolding check_field
  check_desired [] actual d = d
  check_desired ((k, v) ∷ desired) actual d =
      check_desired desired actual (check_field actual k v d)

  unfoldable pub check_extra : Map String V → Map String V → StateDrift V F → StateDrift V F
  check_extra [] desired d = d
  check_extra ((k, w) ∷ actual) desired d =
      let d' = if is_some (get k desired) then d else add_difference d k none (some w) "low" in
      check_extra actual desired d'

  abbrev no_drift : ℕ → StateDrift V F
  no_drift now = record {
    has_drift = false;
    detected_at = now;
    differences = [];
    drift_score = zero_score;
    drifting = 0;
  }

  abbrev scored : ℕ → StateDrift V F → StateDrift V F
  scored total d = if ltb 0 total then record d { drift_score = percent d.drifting total } else d

  unfoldable pub detect_drift : ℕ → Option (Map String V) → Option (Map String V) → StateDrift V F
  unfolding check_desired check_extra
  detect_drift now none actual = no_drift now
  detect_drift now (some desired) none = no_drift now
  detect_drift now (some desired) (some actual) =
      scored (length desired)
        (check_extra actual desired (check_desired desired actual (no_drift now)))
