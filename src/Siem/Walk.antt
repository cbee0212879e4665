-- ===== src/Siem/Walk.antt =====
-- How the check of the log's files meets a line that is written at their end.
use proyecto_verde_auth.Base.{
  ℕ, ◌≤◌, ◌<◌, ◌≡◌, refl, List, [], ◌∷◌, ◌++◌, some, Text, ltb, All, arith, Bool-cases, lt→ltb,
  le→ltb_false, ltb_false→le, true, inl, inr,
}
use proyecto_verde_auth.Siem.Logger.{
  LogEntry, LogFile, LogLibrary, Outcome, go_on, broken_chain, hash_mismatch, verification_error,
  and_then, write_log, check_lines, check_files, check_entry,
}

-- The directory's days rise, and none is after this one.
abbrev pub IsUpTo : ℕ → List LogFile → Type 0
IsUpTo day [] = Unit
IsUpTo day (f ∷ []) = f.day ≤ day
IsUpTo day (f ∷ g ∷ rest) = (f.day < g.day) × IsUpTo day (g ∷ rest)

pub IsUpTo-later :
    (day later : ℕ) (files : List LogFile) → day ≤ later → IsUpTo day files → IsUpTo later files
IsUpTo-later day later [] h up = tt
IsUpTo-later day later (f ∷ []) h up = omega arith
IsUpTo-later day later (f ∷ g ∷ rest) h up = (up.0, IsUpTo-later day later (g ∷ rest) h up.1)

pub IsUpTo-first :
    (day : ℕ) (f : LogFile) (rest : List LogFile) → IsUpTo day (f ∷ rest) → f.day ≤ day
IsUpTo-first day f [] up = up
IsUpTo-first day f (g ∷ rest) up = let h = IsUpTo-first day g rest up.1 in omega arith

pub write_log-IsUpTo :
    (day : ℕ) (line : Text) (files : List LogFile)
    → IsUpTo day files
    → IsUpTo day (write_log day line files)
unfolding write_log
write_log-IsUpTo day line [] up = ground arith
write_log-IsUpTo day line (f ∷ []) up = ground arith
write_log-IsUpTo day line (f ∷ g ∷ rest) up =
    ground (arith, IsUpTo-first day g rest up.1, write_log-IsUpTo day line (g ∷ rest) up.1)

-- Two ways to go on that agree everywhere, after the same first check.
and_then_snoc :
    (o : Outcome) (f g k : Text → Outcome)
    → ((h : Text) → f h ≡ and_then (g h) k)
    → and_then o f ≡ and_then (and_then o g) k
and_then_snoc (go_on h) f g k agree = agree h
and_then_snoc (broken_chain n a b) f g k agree = refl
and_then_snoc (hash_mismatch n a b) f g k agree = refl
and_then_snoc verification_error f g k agree = refl

pub write_log-later :
    (day : ℕ) (line : Text) (f : LogFile) (rest : List LogFile)
    → f.day < day
    → write_log day line (f ∷ rest) ≡ f ∷ write_log day line rest
unfolding write_log
write_log-later day line f rest h = ground arith

module _ {Value : Type 0} (lib : LogLibrary Value) where
  abbrev pub IsNumbered : ℕ → Text → Type 0
  IsNumbered n line = (e : LogEntry Value) × (lib.parse line ≡ some e) × (e.log_sequence_number ≤ n)

  abbrev pub AreNumbered : ℕ → List LogFile → Type 0
  AreNumbered n = All (λ f. All (IsNumbered n) f.lines)

  module _ (start end : ℕ) (expected x : Text) (xs : List Text) (e : LogEntry Value)
      (parsed : lib.parse x ≡ some e) where
    check_lines_skip :
        ltb e.log_sequence_number start ≡ true
        → check_lines lib start end expected (x ∷ xs) ≡ check_lines lib start end e.hash xs
    unfolding check_lines
    check_lines_skip h = ground (arith, parsed, h)

    pub check_lines_after :
        start ≤ e.log_sequence_number
        → end < e.log_sequence_number
        → check_lines lib start end expected (x ∷ xs) ≡ go_on expected
    unfolding check_lines
    check_lines_after h l = ground (
      arith,
      parsed,
      le→ltb_false e.log_sequence_number start h,
      lt→ltb end e.log_sequence_number l,
    )

    pub check_lines_check :
        start ≤ e.log_sequence_number
        → e.log_sequence_number ≤ end
        → check_lines lib start end expected (x ∷ xs)
          ≡ and_then (check_entry lib expected e) λ h. check_lines lib start end h xs
    unfolding check_lines
    check_lines_check h l = ground (
      arith,
      parsed,
      le→ltb_false e.log_sequence_number start h,
      le→ltb_false end e.log_sequence_number l,
    )

  snoc_next :
      (start end : ℕ) (expected line x : Text) (xs : List Text)
      → All (IsNumbered end) (x ∷ xs)
      → ((a : Text)
          → check_lines lib start end a (xs ++ (line ∷ []))
            ≡ and_then
                (check_lines lib start end a xs)
                λ h. check_lines lib start end h (line ∷ []))
      → check_lines lib start end expected (x ∷ xs ++ (line ∷ []))
        ≡ and_then
            (check_lines lib start end expected (x ∷ xs))
            λ h. check_lines lib start end h (line ∷ [])
  snoc_next start end expected line x xs h step =
      let (e, parsed, small) = h.0 in
      elim (Bool-cases (ltb e.log_sequence_number start)) [
        | inl before ↦
            rw
              (
                check_lines_skip start end expected x xs e parsed before,
                check_lines_skip start end expected x (xs ++ (line ∷ [])) e parsed before,
              )
              (step e.hash)
        | inr later ↦
            let from = ltb_false→le e.log_sequence_number start later in
            rw
              (
                check_lines_check start end expected x xs e parsed from small,
                check_lines_check start end expected x (xs ++ (line ∷ [])) e parsed from small,
              )
              (and_then_snoc (check_entry lib expected e) _ _ _ step)
      ]

  pub check_lines-snoc :
      (start end : ℕ) (expected line : Text) (lines : List Text)
      → All (IsNumbered end) lines
      → check_lines lib start end expected (lines ++ (line ∷ []))
        ≡ and_then
            (check_lines lib start end expected lines)
            λ h. check_lines lib start end h (line ∷ [])
  unfolding check_lines
  check_lines-snoc start end expected line [] h = refl
  check_lines-snoc start end expected line (x ∷ xs) h =
      snoc_next start end expected line x xs h (λ a. check_lines-snoc start end a line xs h.1)

  pub check_files-write_log :
      (start end day : ℕ) (expected line : Text) (files : List LogFile)
      → IsUpTo day files
      → AreNumbered end files
      → check_files lib start end expected (write_log day line files)
        ≡ and_then
            (check_files lib start end expected files)
            λ h. check_lines lib start end h (line ∷ [])
  unfolding check_files write_log
  check_files-write_log start end day expected line [] up h = ground arith
  check_files-write_log start end day expected line (f ∷ []) up h =
      ground (arith, check_lines-snoc start end expected line f.lines h.0)
  check_files-write_log start end day expected line (f ∷ g ∷ rest) up h =
      let next = IsUpTo-first day g rest up.1 in
      rw (write_log-later day line f (g ∷ rest) (omega arith)) (
        and_then_snoc (check_lines lib start end expected f.lines) _ _ _
          λ a. check_files-write_log start end day a line (g ∷ rest) up.1 h.1)
