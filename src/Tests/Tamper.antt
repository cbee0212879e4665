-- ===== src/Tests/Tamper.antt =====
-- A log of two entries whose digests have 64 hexadecimal digits, and its directory with the entries in one
-- file and other numbers and algorithms, which are not hashed.
use proyecto_verde_auth.Base.{
  ℕ, ◌≡◌, ◌≢◌, ◌⊎◌, refl, [], ◌∷◌, ◌++◌, Bool, true, false, List, none, some, Text, codes, ap,
  arith, not, All, same,
}
use proyecto_verde_auth.Siem.Chain.{LogLaws, Run, start, entry}
use proyecto_verde_auth.Siem.Contents.{DigestLaws, AreWithin, Collision, hashed_texts, contents}
use proyecto_verde_auth.Siem.Digest.{sha256_regex, every, is_hex_unit}
use proyecto_verde_auth.Siem.Logger.{
  StandardLogFormat, LogEntry, LogFile, LogLibrary, Siem, fresh, log, verify_chain_integrity, go_on,
  check_files, check_lines, check_entry, compute_hash, or_number,
}
use proyecto_verde_auth.Siem.Tamper.{verify-binds}
use proyecto_verde_auth.Tests.Siem.{login_format, put_format, put_entry, get_entry, get_entry-put}

abbrev pub is_even : Text → Bool
is_even [] = true
is_even (c ∷ t) = not (is_even t)

abbrev pub digits : Bool → Text
digits true = codes "0123456789abcdef0123456789abcdef0123456789abcdef0123456789abcdef"
digits false = codes "fedcba9876543210fedcba9876543210fedcba9876543210fedcba9876543210"

abbrev pub hex_lib : LogLibrary ℕ
hex_lib = record {
  sha256 = λ t. digits (is_even t);
  stringify = λ f. b'{' ∷ put_format f [];
  line_of = put_entry;
  parse = λ t. some (get_entry t);
}

pub digits-sha256_regex : (b : Bool) → sha256_regex (digits b) ≡ true
unfolding sha256_regex every is_hex_unit
digits-sha256_regex true = refl
digits-sha256_regex false = refl

digits-nonempty : (b : Bool) → digits b ≢ []
digits-nonempty true h = cc h
digits-nonempty false h = cc h

pub hex_lib-LogLaws : LogLaws hex_lib
hex_lib-LogLaws = record {
  sha256_digits = λ t. digits-nonempty (is_even t);
  parse-line_of = λ e. ap some (get_entry-put e);
}

hex_lib-DigestLaws : DigestLaws hex_lib
hex_lib-DigestLaws = record {
  sha256_hex = λ t. digits-sha256_regex (is_even t);
  stringify_object = λ f. (put_format f [], refl);
}

abbrev two_logged : Siem
two_logged =
    (log hex_lib (codes "t2") 4 login_format
      (log hex_lib (codes "t1") 3 login_format (fresh [])).1).1

two_logged-Run : Run hex_lib 4 two_logged
two_logged-Run =
    entry (codes "t2") 4 login_format (entry (codes "t1") 3 login_format start (omega arith))
      (omega arith)

abbrev stamped : Text → StandardLogFormat ℕ
stamped timestamp = record login_format { timestamp = some timestamp }

abbrev digest_after : Text → Text → Text
digest_after previous timestamp = hex_lib.sha256 (previous ++ hex_lib.stringify (stamped timestamp))

abbrev relabelled : Text → Text → LogEntry ℕ
relabelled timestamp previous = record {
  format = stamped timestamp;
  hash = digest_after previous timestamp;
  hash_algorithm = codes "MD5";
  previous_hash = previous;
  log_sequence_number = 2;
}

abbrev first_entry : LogEntry ℕ
first_entry = relabelled (codes "t1") (codes "GENESIS")

abbrev second_entry : LogEntry ℕ
second_entry = relabelled (codes "t2") (digest_after (codes "GENESIS") (codes "t1"))

abbrev one_file : List LogFile
one_file = record { day = 9; lines = put_entry first_entry ∷ put_entry second_entry ∷ [] } ∷ []

one_file-passes :
    verify_chain_integrity hex_lib none none (record two_logged { files = one_file })
    ≡ go_on two_logged.last_hash
unfolding verify_chain_integrity check_files check_lines check_entry log compute_hash or_number same
one_file-passes = rw (get_entry-put first_entry, get_entry-put second_entry) refl

two_logged-number : two_logged.sequence_number ≡ 2
unfolding log
two_logged-number = refl

one_file-AreWithin : All (λ f. AreWithin hex_lib two_logged.sequence_number f.lines) one_file
one_file-AreWithin = (
  (
    (
      first_entry,
      hex_lib-LogLaws.parse-line_of first_entry,
      omega arith,
      omega (arith, two_logged-number),
    ),
    (
      (
        second_entry,
        hex_lib-LogLaws.parse-line_of second_entry,
        omega arith,
        omega (arith, two_logged-number),
      ),
      tt,
    ),
  ),
  tt,
)

verify-binds_example :
    Collision hex_lib (hashed_texts hex_lib one_file) (hashed_texts hex_lib two_logged.files)
    ⊎ (contents hex_lib one_file ≡ contents hex_lib two_logged.files)
verify-binds_example =
    verify-binds hex_lib hex_lib-DigestLaws hex_lib-LogLaws one_file two_logged-Run
      one_file-AreWithin one_file-passes
