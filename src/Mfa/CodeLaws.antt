-- ===== src/Mfa/CodeLaws.antt =====
-- The form of the backup codes of src/auth/mfa/backup-codes.service.ts, and their use.
use Prim.Native.Nat.{◌/◌, ◌%◌}
use proyecto_verde_auth.Base.{
  ℕ, zero, suc, ◌+◌, ◌≤◌, ◌<◌, ◌≡◌, ◌↔◌, ◌⊎◌, refl, true, false, not, List, [], ◌∷◌, some, Text,
  All, length, arith, same, same_iff, Distinct, select, take, to_upper_case, upper_unit,
  if◌then◌else◌,
}
use proyecto_verde_auth.Exec.{ok}
use proyecto_verde_auth.Mfa.BackupCodes.{
  hex_digit, to_hex, code_of, codes_from, generate_backup_codes, Validation, has_usable, spend,
  validate_codes, count_unused, validate_backup_code, count_remaining_codes, code_length,
  code_count, parse_backup_codes,
}
use proyecto_verde_auth.Mfa.Code.{BackupCode}
use proyecto_verde_auth.Platform.{Json, JsonLaws}

-- A digit or a letter from A to F.
abbrev pub IsHex : ℕ → Type 0
IsHex c = ((b'0' ≤ c) × (c ≤ b'9')) ⊎ ((b'A' ≤ c) × (c ≤ b'F'))

-- What `randomBytes(8)` returns.
abbrev pub IsBytes : List ℕ → Type 0
IsBytes bytes = (length bytes ≡ code_length) × All (λ b. b < 256) bytes

upper_unit-hex_digit : (n : ℕ) → n < 16 → IsHex (upper_unit (hex_digit n))
unfolding upper_unit hex_digit
upper_unit-hex_digit n h = ground arith

take-IsHex :
    (n : ℕ) (bytes : List ℕ)
    → n ≤ length bytes + length bytes
    → All (λ b. b < 256) bytes
    → (length (to_upper_case (take n (to_hex bytes))) ≡ n)
      × All IsHex (to_upper_case (take n (to_hex bytes)))
unfolding to_hex to_upper_case
take-IsHex zero bytes h k = (refl, tt)
take-IsHex (suc n) [] h k = absurd (omega arith)
take-IsHex (suc zero) (b ∷ bytes) h k = (refl, (upper_unit-hex_digit (b / 16) (omega arith), tt))
take-IsHex (suc (suc n)) (b ∷ bytes) h k =
    let (len, rest) = take-IsHex n bytes (omega arith) k.1 in
    (
      omega arith,
      (
        upper_unit-hex_digit (b / 16) (omega arith),
        (upper_unit-hex_digit (b % 16) (omega arith), rest),
      ),
    )

abbrev pub IsCode : Text → Type 0
IsCode t = (length t ≡ code_length) × All IsHex t

codes_from-IsCode :
    (draw : ℕ → List ℕ) (i n : ℕ)
    → ((k : ℕ) → IsBytes (draw k))
    → (length (codes_from draw i n) ≡ n) × All IsCode (codes_from draw i n)
unfolding codes_from code_of
codes_from-IsCode draw i zero h = (refl, tt)
codes_from-IsCode draw i (suc n) h =
    let (len, rest) = codes_from-IsCode draw (i + 1) n h in
    let (size, bytes) = h i in (omega arith, (take-IsHex 8 (draw i) (omega arith) bytes, rest))

-- Eight codes are generated, and each has eight characters from 0-9 and A-F, if each call of
-- `randomBytes(8)` returns eight bytes.
pub generate_backup_codes-IsCode :
    (draw : ℕ → List ℕ)
    → ((k : ℕ) → IsBytes (draw k))
    → (length (generate_backup_codes draw) ≡ code_count) × All IsCode (generate_backup_codes draw)
unfolding generate_backup_codes
generate_backup_codes-IsCode draw h = codes_from-IsCode draw 0 8 h

-- The text is the code of an entry that has not been used.
abbrev pub Usable : Text → List BackupCode → Type 0
Usable t [] = ⊥
Usable t (c ∷ l) = ((c.code ≡ t) × (c.used ≡ false)) ⊎ Usable t l

has_usable→Usable : (t : Text) (l : List BackupCode) → has_usable t l ≡ true → Usable t l
unfolding has_usable
has_usable→Usable t [] h = cc
has_usable→Usable t (c ∷ l) h = ground (arith, same_iff c.code t, has_usable→Usable t l)

has_usable-Usable : (t : Text) (l : List BackupCode) → Usable t l → has_usable t l ≡ true
unfolding has_usable
has_usable-Usable t [] h = absurd h
has_usable-Usable t (c ∷ l) h = ground (arith, same_iff c.code t, has_usable-Usable t l)

-- Marking a usable code takes one from the number of unused codes.
count_unused-spend :
    (now : ℕ) (t : Text) (l : List BackupCode)
    → has_usable t l ≡ true
    → count_unused (spend now t l) + 1 ≡ count_unused l
unfolding has_usable spend count_unused
count_unused-spend now t [] h = cc
count_unused-spend now t (c ∷ l) h = ground (arith, count_unused-spend now t l)

-- No other entry has the code.
abbrev NoneWith : Text → List BackupCode → Type 0
NoneWith t = All (λ c. same t c.code ≡ false)

none_usable : (t u : Text) (l : List BackupCode) → u ≡ t → NoneWith u l → has_usable t l ≡ false
unfolding has_usable
none_usable t u [] e h = refl
none_usable t u (c ∷ l) e h =
    ground (arith, same_iff c.code t, same_iff u c.code, none_usable t u l e h.1)

has_usable-spend :
    (now : ℕ) (t : Text) (l : List BackupCode)
    → Distinct (λ (c : BackupCode). c.code) l
    → has_usable t (spend now t l) ≡ false
unfolding has_usable spend
has_usable-spend now t [] d = refl
has_usable-spend now t (c ∷ l) d =
    ground (arith, same_iff c.code t, has_usable-spend now t l d.1, none_usable t c.code l)

module _ (j : Json) (laws : JsonLaws j) where
  parse_stored : (l : List BackupCode) → parse_backup_codes j (some (j.stringify l)) ≡ some l
  unfolding parse_backup_codes
  parse_stored l = ground (arith, laws.parse-stringify l)

  validate_stored :
      (now : ℕ) (input : Text) (l : List BackupCode)
      → validate_backup_code j now (some (j.stringify l)) input ≡ ok (validate_codes now input l)
  unfolding validate_backup_code
  validate_stored now input l = ground (arith, parse_stored l)

module _ (j : Json) (laws : JsonLaws j) (now : ℕ) (input : Text) (l : List BackupCode) where
  -- For a JSON library that reads back what it wrote, the outcome on stored codes is valid exactly for
  -- the code, in any case of its letters, of an unused entry; then exactly one entry fewer is unused,
  -- and otherwise the entries are as they were.
  pub validate_backup_code_lem :
      (v : Validation) × (validate_backup_code j now (some (j.stringify l)) input ≡ ok v)
      × ((v.valid ≡ true) ↔ Usable (to_upper_case input) l)
      × (count_unused v.remaining_codes + (if v.valid then 1 else 0) ≡ count_unused l)
      × ((v.valid ≡ true) ⊎ (v.remaining_codes ≡ l))
  unfolding validate_codes
  validate_backup_code_lem = (
    validate_codes now input l,
    validate_stored j laws now input l,
    (
      λ h. has_usable→Usable (to_upper_case input) l (ground arith),
      λ h. ground (arith, has_usable-Usable (to_upper_case input) l h),
    ),
    ground (arith, count_unused-spend now (to_upper_case input) l),
    ground arith,
  )

  -- For a JSON library that reads back what it wrote, and stored entries no two of which have one code:
  -- a code that was accepted is refused, at any instant, by the entries that are stored afterwards,
  -- and leaves them as they are.
  pub spent_code_refused :
      Distinct (λ (c : BackupCode). c.code) l
      → (v : Validation) → validate_backup_code j now (some (j.stringify l)) input ≡ ok v
      → v.valid ≡ true
      → (later : ℕ)
      → validate_backup_code j later (some (j.stringify v.remaining_codes)) input
        ≡ ok (record { valid = false; remaining_codes = v.remaining_codes })
  unfolding validate_codes
  spent_code_refused d v e h later = ground (
    arith,
    validate_stored j laws now input l,
    validate_stored j laws later input v.remaining_codes,
    has_usable-spend now (to_upper_case input) l d,
  )

  -- `countRemainingCodes` counts the unused entries that were stored.
  pub count_remaining_codes_lem :
      count_remaining_codes j (some (j.stringify l)) ≡ ok (length (select (λ c. not c.used) l))
  unfolding count_remaining_codes
  count_remaining_codes_lem = ground (arith, parse_stored j laws l)
