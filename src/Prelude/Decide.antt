-- ===== src/Prelude/Decide.antt =====
-- Equality tests: one operator for every type with a decision, as Go's `==`.
use Prim.Native.Nat.{ℕ}
use Prim.Native.String.{String}
use mathlib.Core.Path.{◌≡◌, refl}
use mathlib.Core.Logic.{◌↔◌, ◌≢◌}
use native.Mathlib.Omega.{arith}
use mathlib.Core.Bool.{Bool, true, false}
use native.Mathlib.Decide.{ℕ_discrete}
use text.Mathlib.Text.{◌==◌ as str_eq}
use text.Mathlib.TextEquality.{eq_iff}

pub record Eq {ℓ} (A : Type ℓ) : Type ℓ where
  pub dec : Discrete A

dec_of_test {ℓ} : {P : Type ℓ} (b : Bool) → (b ≡ true) ↔ P → Dec P
dec_of_test true e = yes (e.0 refl)
dec_of_test false e = no (λ p. cc (e.1 p))

unfoldable pub String_discrete : Discrete String
unfolding dec_of_test
String_discrete s t = dec_of_test (str_eq s t) (eq_iff s t)

infix 50 ◌==◌
abbrev pub ◌==◌ {ℓ} : {A : Type ℓ} ⦃e : Eq A⦄ → A → A → Bool
◌==◌ ⦃e⦄ a b = elim (e.dec a b) [ yes _ ↦ true | no _ ↦ false ]

instance abbrev pub string_eq : Eq String
string_eq = record { dec = String_discrete }

instance abbrev pub nat_eq : Eq ℕ
nat_eq = record { dec = ℕ_discrete }

-- Two texts that the test tells apart differ: at literals the premise is `refl`.
pub ne_of_test {ℓ} : {A : Type ℓ} ⦃e : Eq A⦄ (a b : A) → (a == b) ≡ false → a ≢ b
ne_of_test ⦃e⦄ a b h = ground arith
