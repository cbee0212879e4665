-- ===== src/Siem/Stream.antt =====
-- The service of src/common/logging/siem-logger.service.ts with the fields that Siem/Logger leaves out: the
-- file that it writes to, the stream on it, and `hashCache`. A stream keeps the lines that it is given until it has
-- written them, in their order; the streams of different files write at their own pace.
use proyecto_verde_auth.Base.{
  ℕ, Bool, true, false, List, [], ◌∷◌, ◌++◌, Option, none, some, Text, ◌==◌, if◌then◌else◌,
}
use proyecto_verde_auth.Siem.Logger.{
  StandardLogFormat, LogEntry, LogFile, LogLibrary, Siem, log, write_log, initialize_from_last_log,
}

-- A stream that appends to the file of a day; after `end()` it takes no more lines.
pub record WriteStream : Type 0 where
  pub day : ℕ
  pub ended : Bool

-- Lines that streams were given and have not written, by the day of the file, oldest first.
abbrev pub Queue : Type 0
Queue = List (ℕ × Text)

-- `chain.files` is what has been written.
pub record SiemService : Type 0 where
  pub chain : Siem
  pub queued : Queue
  pub hash_cache : List (ℕ × Text)
  pub current_log_file : Option ℕ
  pub write_stream : Option WriteStream

-- `hashCache.get(n)`; `set` puts an entry before the others, which hides one with its key.
unfoldable pub cached : ℕ → List (ℕ × Text) → Option Text
cached n [] = none
cached n ((k, hash) ∷ rest) = if k == n then some hash else cached n rest

unfoldable pub is_current : ℕ → Option ℕ → Bool
is_current day none = false
is_current day (some file) = file == day

-- The file and the stream after the first part of `writeLog`: another day's stream is ended and a new one
-- opened.
unfoldable pub switch_file : ℕ → SiemService → SiemService
unfolding is_current
switch_file day s = if is_current day s.current_log_file then s else record s {
  current_log_file = some day;
  write_stream = some (record { day = day; ended = false });
}

-- `writeStream.write`: what is written after `end()` goes nowhere.
unfoldable pub written : Option WriteStream → Text → Queue → Queue
written none line queue = queue
written (some stream) line queue = if stream.ended then queue else queue ++ (stream.day, line) ∷ []

-- The first line that waits for the file of a day, and the queue without it.
unfoldable pub first_of : ℕ → Queue → Option Text
first_of day [] = none
first_of day ((d, line) ∷ rest) = if d == day then some line else first_of day rest

unfoldable pub without_first : ℕ → Queue → Queue
without_first day [] = []
without_first day ((d, line) ∷ rest) =
    let others = without_first day rest in if d == day then rest else (d, line) ∷ others

-- A stream writes the first of its lines.
unfoldable pub stream_writes : ℕ → SiemService → SiemService
unfolding first_of without_first write_log
stream_writes day s = elim (first_of day s.queued) [
  | none ↦ s
  | some line ↦ record s {
    chain = record s.chain { files = write_log day line s.chain.files };
    queued = without_first day s.queued;
  }
]

-- `close()`: the stream stays in its field.
unfoldable pub close : SiemService → SiemService
close s = record s {
  write_stream = elim s.write_stream [
    | none ↦ none
    | some stream ↦ some (record stream { ended = true })
  ];
}

unfoldable pub get_last_hash : SiemService → Text
get_last_hash s = s.chain.last_hash

unfoldable pub get_current_sequence : SiemService → ℕ
get_current_sequence s = s.chain.sequence_number

module _ {Value : Type 0} (lib : LogLibrary Value) where
  -- The whole of `log`, but for the forwarding.
  unfoldable pub log_entry :
      Text → ℕ → StandardLogFormat Value → SiemService → LogEntry Value × SiemService
  unfolding log switch_file written
  log_entry now day format s =
      let (e, after) = log lib now day format s.chain in
      let opened = switch_file day s in
      (
        e,
        record opened {
          chain = record after { files = s.chain.files };
          queued = written opened.write_stream (lib.line_of e) s.queued;
          hash_cache = (e.log_sequence_number, e.hash) ∷ s.hash_cache;
        },
      )

  -- A new service on a directory, after `onModuleInit`.
  unfoldable pub on_module_init : List LogFile → SiemService
  unfolding initialize_from_last_log
  on_module_init files = record {
    chain = initialize_from_last_log lib files;
    queued = [];
    hash_cache = [];
    current_log_file = none;
    write_stream = none;
  }
