-- ===== src/Siem/Tamper.antt =====
-- What `verifyChainIntegrity` of src/common/logging/siem-logger.service.ts says of a directory that someone
-- else has rewritten.
use proyecto_verde_auth.Base.{
  ℕ, ◌≡◌, ◌⊎◌, refl, List, [], ◌∷◌, ◌++◌, none, some, Text, arith, same_iff, All, sym, subst, ◌∙◌,
}
use proyecto_verde_auth.Siem.Logger.{
  LogEntry, LogFile, LogLibrary, Outcome, Siem, go_on, broken_chain, hash_mismatch,
  verification_error, and_then, genesis_hash, check_lines, check_files, check_entry,
  verify_chain_integrity, compute_hash, or_number, log,
}
use proyecto_verde_auth.Siem.Chain.{LogLaws, Run, start, entry, restart, Run-IsWhole, Run-IsUpTo}
use proyecto_verde_auth.Siem.Walk.{IsUpTo-later, check_lines_check}
use proyecto_verde_auth.Siem.Files.{all_lines, all_lines-write_log}
use proyecto_verde_auth.Siem.Contents.{
  DigestLaws, entries_onto, read_onto, hashed, hashed_texts, contents, Collision, Ends, AreWithin,
  Ends-agree,
}

module _ {Value : Type 0} (lib : LogLibrary Value) where
  module _ (laws : DigestLaws lib) where
    went_on :
        (o : Outcome) (f : Text → Outcome) (k : Text)
        → and_then o f ≡ go_on k
        → (m : Text) × (o ≡ go_on m) × (f m ≡ go_on k)
    went_on (go_on m) f k r = (m, refl, r)
    went_on (broken_chain n a b) f k r = cc r
    went_on (hash_mismatch n a b) f k r = cc r
    went_on verification_error f k r = cc r

    entry_passed :
        (h m : Text) (e : LogEntry Value)
        → check_entry lib h e ≡ go_on m
        → (e.previous_hash ≡ h) × (lib.sha256 (hashed lib e) ≡ e.hash) × (m ≡ e.hash)
    unfolding check_entry compute_hash
    entry_passed h m e r =
        ground (arith, same_iff e.previous_hash h, same_iff (lib.sha256 (hashed lib e)) e.hash, r)

    entries_onto-parsed :
        (es : List (LogEntry Value)) (line : Text) (rest : List Text) (e : LogEntry Value)
        → lib.parse line ≡ some e
        → entries_onto lib es (line ∷ rest) ≡ entries_onto lib (e ∷ es) rest
    unfolding entries_onto
    entries_onto-parsed es line rest e h = ground (arith, h)

    entries_onto-append :
        (es : List (LogEntry Value)) (xs ys : List Text)
        → entries_onto lib es (xs ++ ys) ≡ entries_onto lib (entries_onto lib es xs) ys
    unfolding entries_onto
    entries_onto-append es [] ys = refl
    entries_onto-append es (x ∷ xs) ys = entries_onto-append (read_onto lib (lib.parse x) es) xs ys

    -- What the check of lines reads is linked to what was read before.
    lines-Ends :
        (end : ℕ) (es : List (LogEntry Value)) (h k : Text) (lines : List Text)
        → Ends lib es h
        → AreWithin lib end lines
        → check_lines lib 1 end h lines ≡ go_on k
        → Ends lib (entries_onto lib es lines) k
    unfolding entries_onto check_lines
    lines-Ends end es h k [] p w r = let hk : h ≡ k = cc r in subst (Ends lib es) hk p
    lines-Ends end es h k (line ∷ rest) p ((e, parsed, from, to), w) r =
        let (m, checked, next) =
          went_on _ _ k (sym (check_lines_check lib 1 end h line rest e parsed from to) ∙ r) in
        let (prev, digest, at) = entry_passed h m e checked in
        rw (entries_onto-parsed es line rest e parsed)
          (lines-Ends end (e ∷ es) m k rest (at, digest, subst (Ends lib es) (sym prev) p) w next)

    files-Ends :
        (end : ℕ) (es : List (LogEntry Value)) (h k : Text) (files : List LogFile)
        → Ends lib es h
        → All (λ f. AreWithin lib end f.lines) files
        → check_files lib 1 end h files ≡ go_on k
        → Ends lib (entries_onto lib es (all_lines files)) k
    unfolding check_files all_lines entries_onto
    files-Ends end es h k [] p w r = let hk : h ≡ k = cc r in subst (Ends lib es) hk p
    files-Ends end es h k (f ∷ rest) p (w, ws) r =
        let (m, checked, next) = went_on _ _ k r in
        rw (entries_onto-append es f.lines (all_lines rest)) (
          files-Ends end (entries_onto lib es f.lines) m k rest
            (lines-Ends end es h m f.lines p w checked) ws next)

    module _ (json : LogLaws lib) where
      Run-Ends :
          {day : ℕ} {s : Siem}
          → Run lib day s
          → Ends lib (entries_onto lib [] (all_lines s.files)) s.last_hash
      unfolding all_lines entries_onto log compute_hash
      Run-Ends start = refl
      Run-Ends (entry {day} {s} now later format r h) =
          let (e, s') = log lib now later format s in
          let up = IsUpTo-later day later s.files h (Run-IsUpTo lib json r) in
          rw
            (
              all_lines-write_log later (lib.line_of e) s.files up,
              entries_onto-append [] (all_lines s.files) (lib.line_of e ∷ []),
              entries_onto-parsed (entries_onto lib [] (all_lines s.files)) (lib.line_of e) [] e
                  (json.parse-line_of e),
            )
            (refl, refl, Run-Ends r)
      Run-Ends (restart {day} {s} r) =
          subst (λ t. Ends lib (entries_onto lib [] (all_lines t.files)) t.last_hash)
            (sym (Run-IsWhole lib json r).1) (Run-Ends r)

      -- In every state that the service reaches from an empty directory by `log`, on days that never go
      -- back, and by restarts: if someone else rewrites the directory, with lines that are all entries with
      -- numbers from 1 to the service's own, and `verifyChainIntegrity()` goes through it without an error
      -- up to the service's last hash, then it has the same entries in the same order, each with the same
      -- JSON of what is hashed of it, or two different texts, one hashed for an entry of it and one for an
      -- entry of the service, have one SHA-256 digest. A digest is 64 hexadecimal digits, the JSON of an
      -- object opens with a brace, and JSON reads back what it wrote.
      pub verify-binds :
          {day : ℕ} {s : Siem}
          → (files : List LogFile) → Run lib day s
          → All (λ f. AreWithin lib s.sequence_number f.lines) files
          → verify_chain_integrity lib none none (record s { files = files }) ≡ go_on s.last_hash
          → Collision lib (hashed_texts lib files) (hashed_texts lib s.files)
            ⊎ (contents lib files ≡ contents lib s.files)
      unfolding verify_chain_integrity or_number
      verify-binds {day} {s} files r w passed =
          Ends-agree lib laws _ _ s.last_hash
            (files-Ends s.sequence_number [] genesis_hash s.last_hash files refl w passed)
            (Run-Ends r)
