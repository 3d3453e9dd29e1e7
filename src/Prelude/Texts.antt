-- ===== src/Prelude/Texts.antt =====
-- The order of Go's strings. The order of the bytes of UTF-8 is that of the code points.
use Prim.Native.Nat.{ℕ, compare as compare_ℕ}
use Prim.Native.Char.{code}
use Prim.Native.String.{String, [], ◌∷◌}
use mathlib.Core.Path.{◌≡◌, refl, ap, ◌∙◌}
use mathlib.Core.Bool.{Bool, true, false}
use native.Mathlib.Omega.{arith}
use text.Mathlib.TextEquality.{codes_equal}
use text.Mathlib.TextPositions.{compare_self}
use aizo.Prelude.Tests.{ltb, if◌then◌else◌}
use aizo.Prelude.Decide.{◌==◌, nat_eq}

-- `a <= b` on strings.
unfoldable pub leb_string : String → String → Bool
leb_string [] t = true
leb_string (c ∷ s) [] = false
leb_string (c ∷ s) (d ∷ t) =
    let rest = leb_string s t in if code c == code d then rest else ltb (code c) (code d)

pub leb_string_antisym : (s t : String) → leb_string s t ≡ true → leb_string t s ≡ true → s ≡ t
unfolding leb_string
leb_string_antisym [] [] h g = refl
leb_string_antisym [] (d ∷ t) h g = cc
leb_string_antisym (c ∷ s) [] h g = cc
leb_string_antisym (c ∷ s) (d ∷ t) h g =
    λ i. codes_equal c d same i ∷ leb_string_antisym s t (ground arith) (ground arith) i
  where
    eq_codes : code c ≡ code d
    eq_codes = ground arith

    same : compare_ℕ (code c) (code d) ≡ Prim.Native.Nat.Ordering.eq
    same = ap (λ n. compare_ℕ n (code d)) eq_codes ∙ compare_self (code d)

pub leb_string_refl : (s : String) → leb_string s s ≡ true
unfolding leb_string
leb_string_refl [] = refl
leb_string_refl (c ∷ s) = ground (arith, leb_string_refl s)

pub leb_string_trans :
    (s t u : String) → leb_string s t ≡ true → leb_string t u ≡ true → leb_string s u ≡ true
unfolding leb_string
leb_string_trans [] t u h g = refl
leb_string_trans (c ∷ s) [] u h g = cc
leb_string_trans (c ∷ s) (d ∷ t) [] h g = cc
leb_string_trans (c ∷ s) (d ∷ t) (e ∷ u) h g = ground (arith, leb_string_trans s t u)

pub leb_string_total : (s t : String) → leb_string s t ≡ false → leb_string t s ≡ true
unfolding leb_string
leb_string_total [] t h = cc
leb_string_total (c ∷ s) [] h = refl
leb_string_total (c ∷ s) (d ∷ t) h = ground (arith, leb_string_total s t)
