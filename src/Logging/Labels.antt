-- ===== src/Logging/Labels.antt =====
-- The labels that the Loki transport posts.
use proyecto_verde_auth.Base.{
  ℕ, ◌≤◌, ◌≡◌, refl, true, List, [], ◌∷◌, Text, All, length, take, arith, ap, suc, zero,
}
use proyecto_verde_auth.Logging.Loki.{is_label_unit, replace_units, sanitize_label, label_limit}

replace_units-All : (t : Text) → All (λ c. is_label_unit c ≡ true) (replace_units t)
unfolding replace_units is_label_unit
replace_units-All [] = tt
replace_units-All (c ∷ t) = ground (arith, replace_units-All t)

replace_same : (t : Text) → All (λ c. is_label_unit c ≡ true) t → replace_units t ≡ t
unfolding replace_units
replace_same [] h = refl
replace_same (c ∷ t) h = ground (arith, replace_same t h.1)

take-All : {A : Type 0} (P : A → Type 0) (n : ℕ) (xs : List A) → All P xs → All P (take n xs)
take-All P zero xs h = tt
take-All P (suc n) [] h = tt
take-All P (suc n) (x ∷ xs) h = (h.0, take-All P n xs h.1)

length-take_le : (n : ℕ) (t : Text) → length (take n t) ≤ n
length-take_le zero t = omega arith
length-take_le (suc n) [] = omega arith
length-take_le (suc n) (c ∷ t) = omega (arith, length-take_le n t)

take_all : (n : ℕ) (t : Text) → length t ≤ n → take n t ≡ t
take_all zero [] h = refl
take_all zero (c ∷ t) h = absurd (omega arith)
take_all (suc n) [] h = refl
take_all (suc n) (c ∷ t) h = ap (◌∷◌ c) (take_all n t (omega arith))

-- A text that Loki takes for a label's value.
abbrev pub IsLabel : Text → Type 0
IsLabel t = All (λ c. is_label_unit c ≡ true) t × (length t ≤ label_limit)

-- `sanitizeLabel` gives a text of letters, digits, `_`, `.` and `-`, at most 128 of them.
sanitize_label-IsLabel : (value : Text) → IsLabel (sanitize_label value)
unfolding sanitize_label
sanitize_label-IsLabel value = (
  take-All (λ c. is_label_unit c ≡ true) label_limit (replace_units value)
      (replace_units-All value),
  length-take_le label_limit (replace_units value),
)

sanitize_label-fixed : (value : Text) → IsLabel value → sanitize_label value ≡ value
unfolding sanitize_label
sanitize_label-fixed value h = rw (replace_same value h.0) (take_all label_limit value h.1)

-- `sanitizeLabel` gives, for every text, one of letters, digits, `_`, `.` and `-`, at most 128 of them, and
-- leaves such a text as it is.
pub sanitize_label-onto :
    (value : Text)
    → IsLabel (sanitize_label value)
      × (sanitize_label (sanitize_label value) ≡ sanitize_label value)
sanitize_label-onto value = (
  sanitize_label-IsLabel value,
  sanitize_label-fixed (sanitize_label value) (sanitize_label-IsLabel value),
)
