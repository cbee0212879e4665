-- ===== src/Siem/Files.antt =====
-- The directory of the log after a line is written.
use proyecto_verde_auth.Base.{
  ℕ, ◌≤◌, ◌<◌, ◌≡◌, refl, List, [], ◌∷◌, ◌++◌, some, Text, All, arith, ◌⊎◌, inl, inr, sym,
}
use proyecto_verde_auth.Logging.Delivery.{append-nil, append_assoc}
use proyecto_verde_auth.Siem.Logger.{LogFile, write_log, last}
use proyecto_verde_auth.Siem.Walk.{IsUpTo, IsUpTo-first, write_log-later}

last-snoc : {A : Type 0} (xs : List A) (x : A) → last (xs ++ (x ∷ [])) ≡ some x
unfolding last
last-snoc [] x = refl
last-snoc (y ∷ []) x = refl
last-snoc (y ∷ z ∷ xs) x = last-snoc (z ∷ xs) x

last-cons : {A : Type 0} (x y : A) (xs : List A) → last xs ≡ some y → last (x ∷ xs) ≡ some y
unfolding last
last-cons x y [] h = ground arith
last-cons x y (z ∷ xs) h = h

All-snoc :
    {A : Type 0} (P : A → Type 0) (xs : List A) (x : A) → All P xs → P x → All P (xs ++ (x ∷ []))
All-snoc P [] x h q = (q, tt)
All-snoc P (y ∷ xs) x h q = (h.0, All-snoc P xs x h.1 q)

pub All-mono :
    {A : Type 0} (P Q : A → Type 0) (xs : List A) → ((x : A) → P x → Q x) → All P xs → All Q xs
All-mono P Q [] f h = tt
All-mono P Q (x ∷ xs) f h = (f x h.0, All-mono P Q xs f h.1)

same_day :
    (day : ℕ) (line : Text) (f : LogFile) (rest : List LogFile)
    → f.day ≡ day
    → write_log day line (f ∷ rest) ≡ record f { lines = f.lines ++ (line ∷ []) } ∷ rest
unfolding write_log
same_day day line f rest h = ground arith

le_cases : (a b : ℕ) → a ≤ b → (a < b) ⊎ (a ≡ b)
le_cases a b h = ground arith

-- On a day that no file is after, the line is the last of the last file.
pub last-write_log :
    (day : ℕ) (line : Text) (files : List LogFile)
    → IsUpTo day files
    → (f : LogFile) × (last (write_log day line files) ≡ some f) × (last f.lines ≡ some line)
unfolding write_log last
last-write_log day line [] up = (record { day = day; lines = line ∷ [] }, refl, refl)
last-write_log day line (f ∷ []) up = elim (le_cases f.day day up) [
  | inl before ↦ (
    record { day = day; lines = line ∷ [] },
    rw (write_log-later day line f [] before) refl,
    refl,
  )
  | inr equal ↦ (
    record f { lines = f.lines ++ (line ∷ []) },
    rw (same_day day line f [] equal) refl,
    last-snoc f.lines line,
  )
]
last-write_log day line (f ∷ g ∷ rest) up =
    let (h, at_end, in_it) = last-write_log day line (g ∷ rest) up.1 in
    let next = IsUpTo-first day g rest up.1 in
    (
      h,
      rw (write_log-later day line f (g ∷ rest) (omega arith))
          (last-cons f h (write_log day line (g ∷ rest)) at_end),
      in_it,
    )

pub write_log-All :
    (P : Text → Type 0) (day : ℕ) (line : Text) (files : List LogFile)
    → P line
    → All (λ f. All P f.lines) files
    → IsUpTo day files
    → All (λ f. All P f.lines) (write_log day line files)
unfolding write_log
write_log-All P day line [] q h up = ((q, tt), tt)
write_log-All P day line (f ∷ []) q h up = elim (le_cases f.day day up) [
  | inl before ↦ rw (write_log-later day line f [] before) (h.0, ((q, tt), tt))
  | inr equal ↦ rw (same_day day line f [] equal) (All-snoc P f.lines line h.0 q, tt)
]
write_log-All P day line (f ∷ g ∷ rest) q h up =
    let next = IsUpTo-first day g rest up.1 in
    rw (write_log-later day line f (g ∷ rest) (omega arith))
      (h.0, write_log-All P day line (g ∷ rest) q h.1 up.1)

-- The lines of a directory, in the order of the days.
unfoldable pub all_lines : List LogFile → List Text
all_lines [] = []
all_lines (f ∷ rest) = f.lines ++ all_lines rest

-- On a day that no file is after, the line comes after all the others.
pub all_lines-write_log :
    (day : ℕ) (line : Text) (files : List LogFile)
    → IsUpTo day files
    → all_lines (write_log day line files) ≡ all_lines files ++ line ∷ []
unfolding write_log all_lines
all_lines-write_log day line [] up = refl
all_lines-write_log day line (f ∷ []) up = elim (le_cases f.day day up) [
  | inl before ↦ rw (write_log-later day line f [] before, append-nil f.lines) refl
  | inr equal ↦
      rw (same_day day line f [] equal, append-nil f.lines) (append-nil (f.lines ++ line ∷ []))
]
all_lines-write_log day line (f ∷ g ∷ rest) up =
    let next = IsUpTo-first day g rest up.1 in
    rw
      (
        write_log-later day line f (g ∷ rest) (omega arith),
        all_lines-write_log day line (g ∷ rest) up.1,
      )
      (sym (append_assoc f.lines (all_lines (g ∷ rest)) (line ∷ [])))
