-- ===== src/Siem/Chain.antt =====
-- The chain of src/common/logging/siem-logger.service.ts over the life of the service: entries and restarts.
use proyecto_verde_auth.Base.{
  ℕ, suc, ◌≤◌, ◌<◌, ◌≡◌, ◌≢◌, refl, List, [], ◌∷◌, none, some, Text, arith, same, same_iff, false,
  subst, sym,
}
use proyecto_verde_auth.Siem.Logger.{
  StandardLogFormat, LogEntry, LogFile, LogLibrary, Siem, go_on, genesis_hash, fresh, log,
  write_log, initialize_from_last_log, last, check_lines, check_files, check_entry,
  verify_chain_integrity, compute_hash, or_text, or_number, broken_chain,
}
use proyecto_verde_auth.Siem.Files.{All-mono, last-write_log, write_log-All}
use proyecto_verde_auth.Siem.Walk.{
  IsUpTo, IsUpTo-later, write_log-IsUpTo, AreNumbered, IsNumbered, check_files-write_log,
  check_lines_after, check_lines_check,
}

-- What is documented of SHA-256 and JSON: a digest has digits, and an entry that was written is read back.
pub record LogLaws {Value : Type 0} (lib : LogLibrary Value) : Type 0 where
  pub sha256_digits : (t : Text) → lib.sha256 t ≢ []
  pub parse-line_of : (e : LogEntry Value) → lib.parse (lib.line_of e) ≡ some e

-- The states of a service that starts on an empty directory, with the day of its last entry: entries on
-- days that never go back, and restarts.
pub data Run {Value : Type 0} (lib : LogLibrary Value) : ℕ → Siem → Type 0 where
  start : Run lib 0 (fresh [])
  entry :
      {day : ℕ} {s : Siem} (now : Text) (later : ℕ) (format : StandardLogFormat Value)
      → Run lib day s
      → day ≤ later
      → Run lib later (log lib now later format s).1
  restart :
      {day : ℕ} {s : Siem} → Run lib day s → Run lib day (initialize_from_last_log lib s.files)

module _ {Value : Type 0} (lib : LogLibrary Value) where
  -- The directory has the service's chain: the check gets through it, and a restart finds its end.
  record IsChained (day : ℕ) (s : Siem) : Type 0 where
    up_to : IsUpTo day s.files
    numbered : AreNumbered lib s.sequence_number s.files
    linked :
        (end : ℕ)
        → s.sequence_number ≤ end
        → check_files lib 1 end genesis_hash s.files ≡ go_on s.last_hash
    found : initialize_from_last_log lib s.files ≡ s

  up_to_end :
      (end : ℕ) (s : Siem)
      → AreNumbered lib s.sequence_number s.files
      → s.sequence_number ≤ end
      → AreNumbered lib end s.files
  up_to_end end s h l =
      All-mono _ _ s.files
        (λ f.
          All-mono (IsNumbered lib s.sequence_number) (IsNumbered lib end) f.lines
            λ line (e, parsed, small). (e, parsed, omega arith))
        h

  -- A line written at the end of a chained directory is checked against the last hash.
  check-write_log :
      (day later end : ℕ) (s : Siem) (line : Text)
      → IsChained day s
      → day ≤ later
      → s.sequence_number ≤ end
      → check_files lib 1 end genesis_hash (write_log later line s.files)
        ≡ check_lines lib 1 end s.last_hash (line ∷ [])
  check-write_log day later end s line c h l =
      rw
        (
          check_files-write_log lib 1 end later genesis_hash line s.files
              (IsUpTo-later day later s.files h c.up_to) (up_to_end end s c.numbered l),
          c.linked end l,
        )
        refl

  module _ (laws : LogLaws lib) where
    own_entry :
        (h : Text) (e : LogEntry Value)
        → e.previous_hash ≡ h
        → compute_hash lib e.previous_hash e.format ≡ e.hash
        → check_entry lib h e ≡ go_on e.hash
    unfolding check_entry
    own_entry h e p q =
        rw
          (
            (same_iff e.previous_hash h).1 p,
            (same_iff (compute_hash lib e.previous_hash e.format) e.hash).1 q,
          )
          refl

    or_text-digits : (t : Text) → t ≢ [] → or_text t genesis_hash ≡ t
    unfolding or_text
    or_text-digits [] h = absurd (h refl)
    or_text-digits (c ∷ t) h = refl

    or_digits : (t : Text) → or_text (lib.sha256 t) genesis_hash ≡ lib.sha256 t
    or_digits t = or_text-digits (lib.sha256 t) (laws.sha256_digits t)

    restart_finds :
        (files : List LogFile) (f : LogFile) (e : LogEntry Value)
        → last files ≡ some f
        → last f.lines ≡ some (lib.line_of e)
        → initialize_from_last_log lib files ≡ record {
          last_hash = or_text e.hash genesis_hash;
          sequence_number = e.log_sequence_number;
          files = files;
        }
    unfolding initialize_from_last_log
    restart_finds files f e h k = ground (arith, h, k, laws.parse-line_of e)

    entry-IsChained :
        (day later : ℕ) (now : Text) (format : StandardLogFormat Value) (s : Siem)
        → IsChained day s
        → day ≤ later
        → IsChained later (log lib now later format s).1
    unfolding log check_lines
    entry-IsChained day later now format s c h =
        let (e, s') = log lib now later format s in
        let parsed = laws.parse-line_of e in
        let up = IsUpTo-later day later s.files h c.up_to in
        let (f, at_end, in_it) = last-write_log later (lib.line_of e) s.files up in
        record {
          up_to = write_log-IsUpTo later (lib.line_of e) s.files up;
          numbered =
              write_log-All (IsNumbered lib (suc s.sequence_number)) later (lib.line_of e) s.files
                (e, parsed, omega arith)
                (up_to_end (suc s.sequence_number) s c.numbered (omega arith)) up;
          linked = λ end l.
              rw
                (
                  check-write_log day later end s (lib.line_of e) c h (omega arith),
                  check_lines_check lib 1 end s.last_hash (lib.line_of e) [] e parsed (omega arith)
                      l,
                  own_entry s.last_hash e refl refl,
                )
                refl;
          found = rw (restart_finds s'.files f e at_end in_it, or_digits _) refl;
        }

    Run-IsChained : {day : ℕ} {s : Siem} → Run lib day s → IsChained day s
    unfolding check_files initialize_from_last_log last
    Run-IsChained start = record { up_to = tt; numbered = tt; linked = λ end h. refl; found = refl }
    Run-IsChained (entry {day} {s} now later format r h) =
        entry-IsChained day later now format s (Run-IsChained r) h
    Run-IsChained (restart {day} {s} r) =
        subst (IsChained day) (sym (Run-IsChained r).found) (Run-IsChained r)

    pub Run-IsUpTo : {day : ℕ} {s : Siem} → Run lib day s → IsUpTo day s.files
    Run-IsUpTo r = (Run-IsChained r).up_to

    appended_tables :
        (day later : ℕ) (s : Siem) (line : Text)
        → Run lib day s
        → day ≤ later
        → verify_chain_integrity lib none none (record s { files = write_log later line s.files })
          ≡ check_lines lib 1 s.sequence_number s.last_hash (line ∷ [])
    unfolding verify_chain_integrity or_number
    appended_tables day later s line r h =
        check-write_log day later s.sequence_number s line (Run-IsChained r) h (omega arith)

    -- In every state that the service reaches from an empty directory by `log`, on days that never go back,
    -- and by restarts, `verifyChainIntegrity()` finds the chain whole up to `lastHash`, and a restart reads
    -- back the same last hash and sequence number. SHA-256 digests are not empty and JSON reads back what
    -- it wrote.
    pub Run-IsWhole :
        {day : ℕ} {s : Siem}
        → Run lib day s
        → (verify_chain_integrity lib none none s ≡ go_on s.last_hash)
          × (initialize_from_last_log lib s.files ≡ s)
    unfolding verify_chain_integrity or_number
    Run-IsWhole {day} {s} r =
        let c = Run-IsChained r in (c.linked s.sequence_number (omega arith), c.found)

    -- In every state that the service reaches from an empty directory by `log`, on days that never go back,
    -- and by restarts: an entry that someone else appends to the last day's file or to a later one, with a
    -- number from 1 to the service's own and a previous hash other than the last one, is reported by
    -- `verifyChainIntegrity()` as the place where the chain is broken. SHA-256 digests are not empty
    -- and JSON reads back what it wrote.
    pub verify-finds_forged :
        {day : ℕ} {s : Siem}
        → (later : ℕ) (line : Text) (e : LogEntry Value) → Run lib day s
        → day ≤ later
        → lib.parse line ≡ some e
        → 1 ≤ e.log_sequence_number
        → e.log_sequence_number ≤ s.sequence_number
        → same e.previous_hash s.last_hash ≡ false
        → verify_chain_integrity lib none none (record s { files = write_log later line s.files })
          ≡ broken_chain e.log_sequence_number s.last_hash e.previous_hash
    unfolding check_entry
    verify-finds_forged {day} {s} later line e r h parsed from to differs =
        rw
          (
            appended_tables day later s line r h,
            check_lines_check lib 1 s.sequence_number s.last_hash line [] e parsed from to,
          )
          (ground (arith, differs))

    -- In every state that the service reaches from an empty directory by `log`, on days that never go back,
    -- and by restarts: an entry that someone else appends to the last day's file or to a later one, with a
    -- number after the service's own, is not looked at: `verifyChainIntegrity()` answers as without it,
    -- whatever the entry's hashes are. SHA-256 digests are not empty and JSON reads back what it wrote.
    pub verify-misses_later :
        {day : ℕ} {s : Siem}
        → (later : ℕ) (line : Text) (e : LogEntry Value) → Run lib day s
        → day ≤ later
        → lib.parse line ≡ some e
        → s.sequence_number < e.log_sequence_number
        → verify_chain_integrity lib none none (record s { files = write_log later line s.files })
          ≡ verify_chain_integrity lib none none s
    verify-misses_later {day} {s} later line e r h parsed after =
        rw
          (
            appended_tables day later s line r h,
            check_lines_after lib 1 s.sequence_number s.last_hash line [] e parsed (omega arith)
                after,
            (Run-IsWhole r).0,
          )
          refl

    -- Let the service reach a state from an empty directory by `log`, on days that never go back, and by
    -- restarts. In any state of the service whose sequence number is not lower, as all later ones are, with
    -- the directory put back to that of the first state, `verifyChainIntegrity()` finds no error, and ends
    -- with the first state's last hash: entries that were removed at the end are not missed. SHA-256
    -- digests are not empty and JSON reads back what it wrote.
    pub verify-misses_truncated :
        {day : ℕ} {s : Siem}
        → (t : Siem) → Run lib day s
        → s.sequence_number ≤ t.sequence_number
        → verify_chain_integrity lib none none (record t { files = s.files }) ≡ go_on s.last_hash
    unfolding verify_chain_integrity or_number
    verify-misses_truncated t r h = (Run-IsChained r).linked t.sequence_number h
