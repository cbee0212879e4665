-- ===== src/Base/Strings.antt =====
-- JavaScript strings as lists of code units. A literal is `codes "…"`, whose characters lie in the
-- basic plane, where a code unit is a code point.
use Prim.Native.Char.{code}
use Prim.Native.Nat.{ℕ, ◌+◌, ◌-◌}
use Prim.Native.String.{String}
use mathlib.Core.Bool.{Bool, true, false, ◌&&◌, ◌||◌}
use mathlib.Core.List.{List, [], ◌∷◌, map}
use mathlib.Core.Logic.{◌↔◌}
use mathlib.Core.Option.{Option, none, some}
use mathlib.Core.Path.{◌≡◌, refl}
use native.Mathlib.Omega.{arith}
use proyecto_verde_auth.Base.Tests.{leb, ◌==◌, if◌then◌else◌}

abbrev pub Text : Type 0
Text = List ℕ

abbrev pub codes : String → Text
codes String.[] = []
codes (String.◌∷◌ c s) = code c ∷ codes s

-- `===` on two strings.
unfoldable pub same : Text → Text → Bool
same [] [] = true
same (a ∷ s) (b ∷ t) = (a == b) && same s t
same _ _ = false

pub same_iff : (s t : Text) → (same s t ≡ true) ↔ (s ≡ t)
unfolding same
same_iff [] [] = ground arith
same_iff [] (b ∷ t) = ground arith
same_iff (a ∷ s) [] = ground arith
same_iff (a ∷ s) (b ∷ t) = ground (arith, same_iff s t)

pub same_refl : (s : Text) → same s s ≡ true
same_refl s = (same_iff s s).1 refl

-- `===` against a string, of a column that may be null.
abbrev pub holds : Option Text → Text → Bool
holds none t = false
holds (some s) t = same s t

-- `toLowerCase` and `toUpperCase` on ASCII letters; other units are left as they are.
unfoldable pub lower_unit : ℕ → ℕ
lower_unit c = if leb b'A' c && leb c b'Z' then c + 32 else c

unfoldable pub upper_unit : ℕ → ℕ
upper_unit c = if leb b'a' c && leb c b'z' then c - 32 else c

unfoldable pub to_lower_case : Text → Text
unfolding lower_unit
to_lower_case = map lower_unit

unfoldable pub to_upper_case : Text → Text
unfolding upper_unit
to_upper_case = map upper_unit

unfoldable pub starts_with : Text → Text → Bool
starts_with s [] = true
starts_with [] (b ∷ t) = false
starts_with (a ∷ s) (b ∷ t) = (a == b) && starts_with s t

unfoldable pub includes : Text → Text → Bool
unfolding starts_with
includes [] t = starts_with [] t
includes (a ∷ s) t = starts_with (a ∷ s) t || includes s t

-- `x || d` on a string that may be null: the empty string is falsy too.
abbrev pub or_else : Option Text → Text → Text
or_else none d = d
or_else (some []) d = d
or_else (some (c ∷ t)) d = c ∷ t
