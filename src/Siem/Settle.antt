-- ===== src/Siem/Settle.antt =====
-- Lines of src/common/logging/siem-logger.service.ts on their way to the files.
use proyecto_verde_auth.Base.{
  ℕ, ◌≡◌, inl, inr, refl, false, List, [], some, Text, arith, ap, ◌∷◌, ◌++◌, ◌==◌, ◌∙◌, Bool-cases,
}
use proyecto_verde_auth.Siem.Logger.{LogFile, write_log, Siem}
use proyecto_verde_auth.Siem.Stream.{SiemService, Queue, first_of, without_first}

-- The files when all lines that wait are written.
unfoldable pub settle : Queue → List LogFile → List LogFile
unfolding write_log
settle [] files = files
settle ((day, line) ∷ rest) files = settle rest (write_log day line files)

unfoldable pub settled : SiemService → Siem
unfolding settle
settled s = record s.chain { files = settle s.queued s.chain.files }

pub settle-written :
    (queue : Queue) (day : ℕ) (line : Text) (files : List LogFile)
    → settle (queue ++ (day, line) ∷ []) files ≡ write_log day line (settle queue files)
unfolding settle
settle-written [] day line files = refl
settle-written ((d, l) ∷ rest) day line files = settle-written rest day line (write_log d l files)

-- Lines for different files may be written in any order.
write_log_comm :
    (d : ℕ) (l : Text) (day : ℕ) (line : Text) (files : List LogFile)
    → (d == day) ≡ false
    → write_log d l (write_log day line files) ≡ write_log day line (write_log d l files)
unfolding write_log
write_log_comm d l day line [] h = ground arith
write_log_comm d l day line (f ∷ rest) h = ground (arith, write_log_comm d l day line rest h)

pub settle-without_first :
    (day : ℕ) (line : Text) (queue : Queue) (files : List LogFile)
    → first_of day queue ≡ some line
    → settle (without_first day queue) (write_log day line files) ≡ settle queue files
unfolding settle first_of without_first
settle-without_first day line [] files h = ground arith
settle-without_first day line ((d, l) ∷ rest) files h = elim (Bool-cases (d == day)) [
  | inl same_day ↦
      let day_is : d ≡ day = ground arith in
      let line_is : l ≡ line = ground (arith, same_day) in rw same_day (rw (day_is, line_is) refl)
  | inr other ↦
      let later : first_of day rest ≡ some line = ground (arith, other) in
      rw other (
        ap (settle (without_first day rest)) (write_log_comm d l day line files other)
        ∙ settle-without_first day line rest (write_log d l files) later)
]
