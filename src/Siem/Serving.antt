-- ===== src/Siem/Serving.antt =====
-- The streams of src/common/logging/siem-logger.service.ts over the life of the service, beside its chain.
use proyecto_verde_auth.Base.{
  ℕ, ◌≤◌, ◌≡◌, ◌⊎◌, inl, inr, refl, true, false, List, [], Option, none, some, Text, arith, ap, sym,
  Option-cases, subst, Bool-cases,
}
use proyecto_verde_auth.Siem.Chain.{LogLaws, Run, start, entry, restart, Run-IsWhole}
use proyecto_verde_auth.Siem.Logger.{
  StandardLogFormat, LogFile, LogLibrary, log, initialize_from_last_log, go_on, last,
  verify_chain_integrity,
}
use proyecto_verde_auth.Siem.Settle.{settle, settled, settle-written, settle-without_first}
use proyecto_verde_auth.Siem.Stream.{
  SiemService, cached, is_current, switch_file, written, close, log_entry, on_module_init, first_of,
  stream_writes, get_last_hash, get_current_sequence,
}

module _ {Value : Type 0} (lib : LogLibrary Value) where
  -- A service that starts on an empty directory: calls of `log`, on days that never go back, writes of its
  -- streams at any time, and new processes on the directory that the one before left when it was closed and its
  -- streams had written what they had been given.
  pub data Serves : ℕ → SiemService → Type 0 where
    begins : Serves 0 (on_module_init lib [])
    logs :
        {day : ℕ} {s : SiemService} (now : Text) (later : ℕ) (format : StandardLogFormat Value)
        → Serves day s
        → day ≤ later
        → Serves later (log_entry lib now later format s).1
    writes :
        {day : ℕ} {s : SiemService} (file : ℕ) → Serves day s → Serves day (stream_writes file s)
    begins_again :
        {day : ℕ} {s : SiemService}
        → Serves day s
        → Serves day (on_module_init lib (settled (close s)).files)

  -- The stream is open on the current file, or there is none yet.
  abbrev IsWriting : SiemService → Type 0
  IsWriting s =
      (s.current_log_file ≡ none)
      ⊎ ((day : ℕ) × (s.current_log_file ≡ some day)
          × (s.write_stream ≡ some (record { day = day; ended = false })))

  is_current_day : (day : ℕ) (o : Option ℕ) → is_current day o ≡ true → o ≡ some day
  unfolding is_current
  is_current_day day none h = cc h
  is_current_day day (some file) h = let same_file : file ≡ day = ground arith in ap some same_file

  switch_file-current :
      (day : ℕ) (s : SiemService) → (switch_file day s).current_log_file ≡ some day
  unfolding switch_file
  switch_file-current day s = elim (Bool-cases (is_current day s.current_log_file)) [
    | inl current ↦ rw current (is_current_day day s.current_log_file current)
    | inr other ↦ rw other refl
  ]

  switch_file-opened :
      (day : ℕ) (s : SiemService)
      → IsWriting s
      → (switch_file day s).write_stream ≡ some (record { day = day; ended = false })
  unfolding switch_file is_current
  switch_file-opened day s (inl nothing) = ground (arith, nothing)
  switch_file-opened day s (inr (file, current, stream)) =
      elim (Bool-cases (is_current day s.current_log_file)) [
        | inl still ↦
            let same_file : file ≡ day =
              cc (current, is_current_day day s.current_log_file still) in
            rw (still, stream, same_file) refl
        | inr other ↦ rw other refl
      ]

  log_entry-log :
      (now : Text) (day : ℕ) (format : StandardLogFormat Value) (s : SiemService)
      → IsWriting s
      → settled (log_entry lib now day format s).1 ≡ (log lib now day format (settled s)).1
  unfolding settled log_entry log written
  log_entry-log now day format s h = rw (switch_file-opened day s h, settle-written) refl

  -- What a stream writes changes nothing but what still waits.
  stream_writes-settled : (file : ℕ) (s : SiemService) → settled (stream_writes file s) ≡ settled s
  unfolding settled stream_writes
  stream_writes-settled file s = elim (Option-cases (first_of file s.queued)) [
    | inl nothing ↦ rw (nothing, stream_writes) refl
    | inr (line, waits) ↦
        rw (waits, stream_writes)
          (ap (λ files. record s.chain { files = files })
            (settle-without_first file line s.queued s.chain.files waits))
  ]

  stream_writes-IsWriting :
      (file : ℕ) (s : SiemService) → IsWriting s → IsWriting (stream_writes file s)
  unfolding stream_writes
  stream_writes-IsWriting file s h = elim (Option-cases (first_of file s.queued)) [
    | inl nothing ↦ rw (nothing, stream_writes) h
    | inr (line, waits) ↦ rw (waits, stream_writes) h
  ]

  log_entry-IsWriting :
      (now : Text) (day : ℕ) (format : StandardLogFormat Value) (s : SiemService)
      → IsWriting s
      → IsWriting (log_entry lib now day format s).1
  unfolding log_entry
  log_entry-IsWriting now day format s h =
      inr (day, switch_file-current day s, switch_file-opened day s h)

  log_entry-entry :
      (now : Text) (day : ℕ) (format : StandardLogFormat Value) (s : SiemService)
      → (log_entry lib now day format s).0 ≡ (log lib now day format (settled s)).0
  unfolding log_entry log settled
  log_entry-entry now day format s = refl

  log_entry-cached :
      (now : Text) (day : ℕ) (format : StandardLogFormat Value) (s : SiemService)
      → cached
          (log_entry lib now day format s).1.chain.sequence_number
          (log_entry lib now day format s).1.hash_cache
        ≡ some (log_entry lib now day format s).1.chain.last_hash
  unfolding log_entry log cached
  log_entry-cached now day format s = ground arith

  module _ (laws : LogLaws lib) where
    record Agrees (day : ℕ) (s : SiemService) : Type 0 where
      runs : Run lib day (settled s)
      writing : IsWriting s

    initialized-Agrees :
        (day : ℕ) (files : List LogFile)
        → Run lib day (initialize_from_last_log lib files)
        → Agrees day (on_module_init lib files)
    unfolding on_module_init settled settle initialize_from_last_log last
    initialized-Agrees day files r = record { runs = r; writing = inl refl }

    Serves-Agrees : {day : ℕ} {s : SiemService} → Serves day s → Agrees day s
    unfolding close initialize_from_last_log last settled
    Serves-Agrees begins = initialized-Agrees 0 [] start
    Serves-Agrees (logs {day} {s} now later format r h) =
        let a = Serves-Agrees r in
        record {
          runs =
              subst (Run lib later) (sym (log_entry-log now later format s a.writing))
                (entry now later format a.runs h);
          writing = log_entry-IsWriting now later format s a.writing;
        }
    Serves-Agrees (writes {day} {s} file r) =
        let a = Serves-Agrees r in
        record {
          runs = subst (Run lib day) (sym (stream_writes-settled file s)) a.runs;
          writing = stream_writes-IsWriting file s a.writing;
        }
    Serves-Agrees (begins_again {day} {s} r) =
        initialized-Agrees day (settled s).files (restart (Serves-Agrees r).runs)

    -- In every state of the service with its streams that processes reach from an empty directory on, by
    -- calls of `log` on days that never go back and writes of the streams at any time, where a new process
    -- begins when the one before is closed and its streams have written what they were given:
    -- once the lines that wait are written, `verifyChainIntegrity()` finds the chain in the files whole up to
    -- what `getLastHash()` gives, and after the next call of `log` the files are those that the chain without
    -- streams has after it; the call returns the same entry, and then `hashCache` has the hash that
    -- `getLastHash()` gives under the number that `getCurrentSequence()` gives. SHA-256 digests are not empty
    -- and JSON reads back what it wrote.
    pub Serves-refines :
        {day : ℕ} {s : SiemService} (r : Serves day s) (now : Text) (later : ℕ)
        (format : StandardLogFormat Value)
        → let (e, s') = log_entry lib now later format s in
          (verify_chain_integrity lib none none (settled s) ≡ go_on (get_last_hash s))
          × (e ≡ (log lib now later format (settled s)).0)
          × (settled s' ≡ (log lib now later format (settled s)).1)
          × (cached (get_current_sequence s') s'.hash_cache ≡ some (get_last_hash s'))
    unfolding get_last_hash get_current_sequence settled
    Serves-refines {day} {s} r now later format =
        let a = Serves-Agrees r in
        (
          (Run-IsWhole lib laws a.runs).0,
          log_entry-entry now later format s,
          log_entry-log now later format s a.writing,
          log_entry-cached now later format s,
        )

  -- After `close`, what is logged on the same day goes nowhere, while the chain moves on.
  close-loses :
      (now : Text) (day : ℕ) (format : StandardLogFormat Value) (s : SiemService)
      → s.current_log_file ≡ some day
      → s.write_stream ≡ some (record { day = day; ended = false })
      → (settled (log_entry lib now day format (close s)).1).files ≡ (settled s).files
  unfolding settled log_entry close switch_file is_current written
  close-loses now day format s current stream = ground (arith, current, stream)
