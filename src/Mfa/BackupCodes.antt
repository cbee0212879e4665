-- ===== src/Mfa/BackupCodes.antt =====
-- src/auth/mfa/backup-codes.service.ts
use proyecto_verde_auth.Base.{
  ℕ, zero, suc, ◌+◌, ◌-◌, Bool, true, false, not, ◌&&◌, List, [], ◌∷◌, Option, none, some, Text,
  same, take, length, select, to_upper_case, ltb, if◌then◌else◌,
}
use Prim.Native.Nat.{◌/◌, ◌%◌}
use proyecto_verde_auth.Mfa.Code.{BackupCode, syntax_error, array, not_array}
use proyecto_verde_auth.Platform.{Json}
use proyecto_verde_auth.Exec.{Result, ok, throws, type_error}

abbrev pub code_length : ℕ
code_length = 8

abbrev pub code_count : ℕ
code_count = 8

-- `toString('hex')`: two lower-case digits for each byte.
unfoldable pub hex_digit : ℕ → ℕ
hex_digit n = if ltb n 10 then b'0' + n else b'a' + (n - 10)

unfoldable pub to_hex : List ℕ → Text
unfolding hex_digit
to_hex [] = []
to_hex (b ∷ bytes) = hex_digit (b / 16) ∷ hex_digit (b % 16) ∷ to_hex bytes

unfoldable pub code_of : List ℕ → Text
unfolding to_hex to_upper_case
code_of bytes = to_upper_case (take code_length (to_hex bytes))

-- The loop: `draw i` is what the `i`-th call of `randomBytes` returns.
unfoldable pub codes_from : (ℕ → List ℕ) → ℕ → ℕ → List Text
unfolding code_of
codes_from draw i zero = []
codes_from draw i (suc left) = code_of (draw i) ∷ codes_from draw (i + 1) left

unfoldable pub generate_backup_codes : (ℕ → List ℕ) → List Text
unfolding codes_from
generate_backup_codes draw = codes_from draw 0 code_count

-- `backupCodes.map((code) => ({ code, used: false }))`
abbrev pub unused : Text → BackupCode
unused t = record { code = t; used = false; used_at = none }

-- What `validateBackupCode` returns.
pub record Validation : Type 0 where
  pub valid : Bool
  pub remaining_codes : List BackupCode

-- The test of `findIndex`.
abbrev pub is_usable : Text → BackupCode → Bool
is_usable t c = same c.code t && not c.used

unfoldable pub has_usable : Text → List BackupCode → Bool
has_usable t [] = false
has_usable t (c ∷ l) = if is_usable t c then true else has_usable t l

-- The write at the index found: the first usable code with this text is marked.
unfoldable pub spend : ℕ → Text → List BackupCode → List BackupCode
spend now t [] = []
spend now t (c ∷ l) =
    if is_usable t c then record c { used = true; used_at = some now } ∷ l else c ∷ spend now t l

unfoldable pub validate_codes : ℕ → Text → List BackupCode → Validation
unfolding has_usable spend to_upper_case
validate_codes now input l =
    let t = to_upper_case input in
    if has_usable t l
    then record { valid = true; remaining_codes = spend now t l }
    else record { valid = false; remaining_codes = l }

unfoldable pub count_unused : List BackupCode → ℕ
unfolding select
count_unused l = length (select (λ c. not c.used) l)

module _ (j : Json) where
  -- The array that was stored, or an empty one for a text that is no JSON; `none` for any other value,
  -- as for `JSON.parse(null)`.
  unfoldable pub parse_backup_codes : Option Text → Option (List BackupCode)
  parse_backup_codes none = none
  parse_backup_codes (some stored) = elim (j.parse stored) [
    | syntax_error ↦ some []
    | array l ↦ some l
    | not_array ↦ none
  ]

  -- What is no array has no `findIndex`.
  unfoldable pub validate_parsed : ℕ → Text → Option (List BackupCode) → Result Validation
  unfolding validate_codes
  validate_parsed now input (some l) = ok (validate_codes now input l)
  validate_parsed now input none = throws type_error

  unfoldable pub validate_backup_code : ℕ → Option Text → Text → Result Validation
  unfolding parse_backup_codes validate_parsed
  validate_backup_code now stored input = validate_parsed now input (parse_backup_codes stored)

  abbrev count_parsed : Option (List BackupCode) → Result ℕ
  count_parsed (some l) = ok (count_unused l)
  count_parsed none = throws type_error

  unfoldable pub count_remaining_codes : Option Text → Result ℕ
  unfolding parse_backup_codes count_unused
  count_remaining_codes stored = count_parsed (parse_backup_codes stored)
