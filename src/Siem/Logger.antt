-- ===== src/Siem/Logger.antt =====
-- src/common/logging/siem-logger.service.ts: the chain of entries that `log` writes, one file a day,
-- `initializeFromLastLog` and `verifyChainIntegrity`. The forwarding to Loki is in
-- Siem/Forward; the console messages and `hashCache`, which nothing reads, are left out.
use proyecto_verde_auth.Base.{
  ℕ, zero, suc, ◌++◌, List, [], ◌∷◌, Option, none, some, Text, codes, same, ltb, ◌==◌,
  if◌then◌else◌,
}

-- `device`, `geo` and `metadata` are values of JSON, which the code only passes on.
pub record StandardLogFormat (Value : Type 0) : Type 0 where
  pub timestamp : Option Text
  pub service : Text
  pub user : Text
  pub action : Text
  pub result : Text
  pub ip : Text
  pub device : Option Value
  pub geo : Option Value
  pub metadata : Option Value

pub record LogEntry (Value : Type 0) : Type 0 where
  pub format : StandardLogFormat Value
  pub hash : Text
  pub hash_algorithm : Text
  pub previous_hash : Text
  pub log_sequence_number : ℕ

-- A file of a day, by its lines; the days number the dates of the file names.
pub record LogFile : Type 0 where
  pub day : ℕ
  pub lines : List Text

-- The fields of the service, and its directory, by day: what `readdirSync` and `sort` give.
pub record Siem : Type 0 where
  pub last_hash : Text
  pub sequence_number : ℕ
  pub files : List LogFile

-- SHA-256 in hexadecimal digits, and JSON: of what is hashed, and of an entry, as a line.
pub record LogLibrary (Value : Type 0) : Type 0 where
  pub sha256 : Text → Text
  pub stringify : StandardLogFormat Value → Text
  pub line_of : LogEntry Value → Text
  pub parse : Text → Option (LogEntry Value)

abbrev pub genesis_hash : Text
genesis_hash = codes "GENESIS"

abbrev pub fresh : List LogFile → Siem
fresh files = record { last_hash = genesis_hash; sequence_number = 0; files = files }

-- `a || b` on strings and on numbers
unfoldable pub or_text : Text → Text → Text
or_text [] b = b
or_text (c ∷ a) b = c ∷ a

unfoldable pub or_number : Option ℕ → ℕ → ℕ
or_number none b = b
or_number (some zero) b = b
or_number (some (suc n)) b = suc n

unfoldable pub or_now : Option Text → Text → Text
unfolding or_text
or_now none b = b
or_now (some a) b = or_text a b

-- `writeLog`: the line goes to the end of the day's file, which is made where there is none.
unfoldable pub write_log : ℕ → Text → List LogFile → List LogFile
write_log day line [] = record { day = day; lines = line ∷ [] } ∷ []
write_log day line (f ∷ rest) =
    if day == f.day
    then record f { lines = f.lines ++ (line ∷ []) } ∷ rest
    else if ltb day f.day
    then record { day = day; lines = line ∷ [] } ∷ f ∷ rest
    else f ∷ write_log day line rest

-- `files[files.length - 1]` and `lines[lines.length - 1]`
unfoldable pub last : {A : Type 0} → List A → Option A
last [] = none
last (a ∷ []) = some a
last (a ∷ b ∷ rest) = last (b ∷ rest)

pub data Outcome : Type 0 where
  go_on : Text → Outcome
  broken_chain : ℕ → Text → Text → Outcome
  hash_mismatch : ℕ → Text → Text → Outcome
  verification_error : Outcome

abbrev pub and_then : Outcome → (Text → Outcome) → Outcome
and_then (go_on h) f = f h
and_then (broken_chain n a b) f = broken_chain n a b
and_then (hash_mismatch n a b) f = hash_mismatch n a b
and_then verification_error f = verification_error

module _ {Value : Type 0} (lib : LogLibrary Value) where
  unfoldable pub compute_hash : Text → StandardLogFormat Value → Text
  compute_hash previous entry = lib.sha256 (previous ++ lib.stringify entry)

  unfoldable pub log : Text → ℕ → StandardLogFormat Value → Siem → LogEntry Value × Siem
  unfolding compute_hash or_now write_log
  log now day format s =
      let sequence = suc s.sequence_number in
      let without_hash : StandardLogFormat Value = record format {
        timestamp = some (or_now format.timestamp now);
      } in
      let hash = compute_hash s.last_hash without_hash in
      let entry : LogEntry Value = record {
        format = without_hash;
        hash = hash;
        hash_algorithm = codes "SHA-256";
        previous_hash = s.last_hash;
        log_sequence_number = sequence;
      } in
      (
        entry,
        record {
          last_hash = hash;
          sequence_number = sequence;
          files = write_log day (lib.line_of entry) s.files;
        },
      )

  -- `initializeFromLastLog` on a new service with this directory
  unfoldable pub initialize_from_last_log : List LogFile → Siem
  unfolding last or_text
  initialize_from_last_log files = elim (last files) [
    | none ↦ fresh files
    | some f ↦ elim (last f.lines) [
      | none ↦ fresh files
      | some line ↦ elim (lib.parse line) [
        | none ↦ fresh files
        | some e ↦ record {
          last_hash = or_text e.hash genesis_hash;
          sequence_number = e.log_sequence_number;
          files = files;
        }
      ]
    ]
  ]

  -- One entry between `start` and `end`, whose link to the hash before and whose own hash are checked.
  unfoldable pub check_entry : Text → LogEntry Value → Outcome
  unfolding compute_hash
  check_entry expected e =
      let computed = compute_hash e.previous_hash e.format in
      if same e.previous_hash expected
      then if same computed e.hash
        then go_on e.hash
        else hash_mismatch e.log_sequence_number computed e.hash
      else broken_chain e.log_sequence_number expected e.previous_hash

  -- The loop over the lines of a file: `break` leaves this loop only.
  unfoldable pub check_lines : ℕ → ℕ → Text → List Text → Outcome
  check_lines start end expected [] = go_on expected
  check_lines start end expected (line ∷ rest) = elim (lib.parse line) [
    | none ↦ verification_error
    | some e ↦
        if ltb e.log_sequence_number start
        then check_lines start end e.hash rest
        else if ltb end e.log_sequence_number
        then go_on expected
        else and_then (check_entry expected e) λ h. check_lines start end h rest
  ]

  unfoldable pub check_files : ℕ → ℕ → Text → List LogFile → Outcome
  check_files start end expected [] = go_on expected
  check_files start end expected (f ∷ rest) =
      and_then (check_lines start end expected f.lines) λ h. check_files start end h rest

  unfoldable pub verify_chain_integrity : Option ℕ → Option ℕ → Siem → Outcome
  unfolding check_files or_number
  verify_chain_integrity start_seq end_seq s =
      check_files (or_number start_seq 1) (or_number end_seq s.sequence_number) genesis_hash s.files
