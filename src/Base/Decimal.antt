-- ===== src/Base/Decimal.antt =====
-- `toString()` of a number: its decimal digits.
use Prim.Native.Nat.{ℕ, zero, suc, ◌+◌, ◌-◌, ◌*◌, ◌<◌, ◌/◌, ◌%◌}
use mathlib.Core.List.{[], ◌∷◌, ◌++◌}
use mathlib.Core.Path.{◌≡◌, refl}
use mathlib.Core.Logic.{inl, inr}
use native.Mathlib.Omega.{arith}
use proyecto_verde_auth.Base.Strings.{Text}
use proyecto_verde_auth.Base.Tests.{ltb, Bool-cases, if◌then◌else◌}

-- Each step leaves a tenth of the number: as much fuel as the number and one more is enough.
unfoldable pub decimal_digits : ℕ → ℕ → Text
decimal_digits zero n = []
decimal_digits (suc fuel) n =
    let rest = decimal_digits fuel (n / 10) in
    if ltb n 10 then (48 + n) ∷ [] else rest ++ (48 + n % 10) ∷ []

unfoldable pub to_decimal : ℕ → Text
unfolding decimal_digits
to_decimal n = decimal_digits (suc n) n

-- The number that digits stand for, read from the left.
unfoldable pub read_digits : ℕ → Text → ℕ
read_digits n [] = n
read_digits n (c ∷ t) = read_digits (n * 10 + (c - 48)) t

read_digits-append :
    (n : ℕ) (t : Text) (c : ℕ) → read_digits n (t ++ c ∷ []) ≡ read_digits n t * 10 + (c - 48)
unfolding read_digits
read_digits-append n [] c = refl
read_digits-append n (d ∷ t) c = read_digits-append (n * 10 + (d - 48)) t c

read-decimal_digits : (fuel n : ℕ) → n < fuel → read_digits 0 (decimal_digits fuel n) ≡ n
unfolding decimal_digits read_digits
read-decimal_digits zero n h = ground arith
read-decimal_digits (suc fuel) n h = elim (Bool-cases (ltb n 10)) [
  | inl small ↦ ground arith
  | inr large ↦
      rw
        (
          large,
          read_digits-append 0 (decimal_digits fuel (n / 10)) (48 + n % 10),
          read-decimal_digits fuel (n / 10) (ground arith),
        )
        (omega arith)
]

-- The fuel is enough: the digits are those of the number.
pub read-to_decimal : (n : ℕ) → read_digits 0 (to_decimal n) ≡ n
unfolding to_decimal
read-to_decimal n = read-decimal_digits (suc n) n (omega arith)
