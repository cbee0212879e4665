-- ===== src/Tests/Siem.antt =====
-- A log of two entries, whole, and with a third line written by someone else.
use proyecto_verde_auth.Base.{
  ℕ, ◌≤◌, ◌≡◌, refl, [], ◌∷◌, none, some, Text, codes, ap, same, false, arith,
}
use proyecto_verde_auth.Tests.Written.{
  put_text, put_mark, put_option, get_text, get_mark, get_option, get_text-put, get_mark-put,
  get_option-put,
}
use proyecto_verde_auth.Siem.Chain.{
  LogLaws, Run, start, entry, Run-IsWhole, verify-finds_forged, verify-misses_truncated,
}
use proyecto_verde_auth.Siem.Logger.{
  StandardLogFormat, LogEntry, LogLibrary, Siem, fresh, log, write_log, initialize_from_last_log,
  verify_chain_integrity, go_on, broken_chain, compute_hash,
}

-- A format that stands for JSON.
abbrev pub put_format : StandardLogFormat ℕ → Text → Text
put_format f rest = put_option f.timestamp (
    put_text f.service (
      put_text f.user (
        put_text f.action (
          put_text f.result
            (put_text f.ip (put_mark f.device (put_mark f.geo (put_mark f.metadata rest))))))))

get_format : Text → StandardLogFormat ℕ × Text
get_format s =
    let (timestamp, s1) = get_option s in
    let (service, s2) = get_text s1 in
    let (user, s3) = get_text s2 in
    let (action, s4) = get_text s3 in
    let (result, s5) = get_text s4 in
    let (ip, s6) = get_text s5 in
    let (device, s7) = get_mark s6 in
    let (geo, s8) = get_mark s7 in
    let (metadata, s9) = get_mark s8 in
    (
      record {
        timestamp = timestamp;
        service = service;
        user = user;
        action = action;
        result = result;
        ip = ip;
        device = device;
        geo = geo;
        metadata = metadata;
      },
      s9,
    )

abbrev pub put_entry : LogEntry ℕ → Text
put_entry e = put_format e.format (
    put_text e.hash
      (put_text e.hash_algorithm (put_text e.previous_hash (e.log_sequence_number ∷ []))))

first_number : Text → ℕ
first_number [] = 0
first_number (n ∷ r) = n

pub get_entry : Text → LogEntry ℕ
get_entry s =
    let (format, s1) = get_format s in
    let (hash, s2) = get_text s1 in
    let (hash_algorithm, s3) = get_text s2 in
    let (previous_hash, s4) = get_text s3 in
    record {
      format = format;
      hash = hash;
      hash_algorithm = hash_algorithm;
      previous_hash = previous_hash;
      log_sequence_number = first_number s4;
    }

get_format-put :
    (f : StandardLogFormat ℕ) (rest : Text) → get_format (put_format f rest) ≡ (f, rest)
unfolding get_format
get_format-put f rest =
    let r7 = put_mark f.metadata rest in
    let r6 = put_mark f.geo r7 in
    let r5 = put_mark f.device r6 in
    let r4 = put_text f.ip r5 in
    let r3 = put_text f.result r4 in
    let r2 = put_text f.action r3 in
    let r1 = put_text f.user r2 in
    rw
      (
        get_option-put f.timestamp (put_text f.service r1),
        get_text-put f.service r1,
        get_text-put f.user r2,
        get_text-put f.action r3,
        get_text-put f.result r4,
        get_text-put f.ip r5,
        get_mark-put f.device r6,
        get_mark-put f.geo r7,
        get_mark-put f.metadata rest,
      )
      refl

pub get_entry-put : (e : LogEntry ℕ) → get_entry (put_entry e) ≡ e
unfolding get_entry first_number
get_entry-put e =
    let r3 = e.log_sequence_number ∷ [] in
    let r2 = put_text e.previous_hash r3 in
    let r1 = put_text e.hash_algorithm r2 in
    rw
      (
        get_format-put e.format (put_text e.hash r1),
        get_text-put e.hash r1,
        get_text-put e.hash_algorithm r2,
        get_text-put e.previous_hash r3,
      )
      refl

-- A digest that keeps what it is given.
abbrev pub lib : LogLibrary ℕ
lib = record {
  sha256 = λ t. 49 ∷ t;
  stringify = λ f. put_format f [];
  line_of = put_entry;
  parse = λ t. some (get_entry t);
}

lib-LogLaws : LogLaws lib
lib-LogLaws = record {
  sha256_digits = λ t. λ h. cc;
  parse-line_of = λ e. ap some (get_entry-put e);
}

abbrev pub login_format : StandardLogFormat ℕ
login_format = record {
  timestamp = none;
  service = codes "auth";
  user = codes "1";
  action = codes "LOGIN";
  result = codes "SUCCESS";
  ip = codes "::1";
  device = none;
  geo = none;
  metadata = some 4;
}

abbrev two_entries : Siem
two_entries =
    (log lib (codes "t2") 4 login_format (log lib (codes "t1") 3 login_format (fresh [])).1).1

two_entries-Run : Run lib 4 two_entries
two_entries-Run =
    entry (codes "t2") 4 login_format (entry (codes "t1") 3 login_format start (omega arith))
      (omega arith)

Run-IsWhole_example :
    (verify_chain_integrity lib none none two_entries ≡ go_on two_entries.last_hash)
    × (initialize_from_last_log lib two_entries.files ≡ two_entries)
Run-IsWhole_example = Run-IsWhole lib lib-LogLaws two_entries-Run

-- An entry with its own number 2 again, after the wrong hash.
abbrev forged : LogEntry ℕ
forged = record {
  format = login_format;
  hash = codes "h";
  hash_algorithm = codes "SHA-256";
  previous_hash = codes "x";
  log_sequence_number = 2;
}

forged_differs : same forged.previous_hash two_entries.last_hash ≡ false
unfolding log compute_hash same
forged_differs = refl

number_of_two : two_entries.sequence_number ≡ 2
unfolding log
number_of_two = refl

verify-finds_forged_example :
    verify_chain_integrity lib none none
      (record two_entries { files = write_log 5 (put_entry forged) two_entries.files })
    ≡ broken_chain 2 two_entries.last_hash (codes "x")
verify-finds_forged_example =
    verify-finds_forged lib lib-LogLaws 5 (put_entry forged) forged two_entries-Run (omega arith)
      (lib-LogLaws.parse-line_of forged) (omega arith) (omega (arith, number_of_two)) forged_differs

abbrev one_entry : Siem
one_entry = (log lib (codes "t1") 3 login_format (fresh [])).1

one_entry-below : one_entry.sequence_number ≤ two_entries.sequence_number
unfolding log
one_entry-below = omega arith

verify-misses_truncated_example :
    verify_chain_integrity lib none none (record two_entries { files = one_entry.files })
    ≡ go_on one_entry.last_hash
verify-misses_truncated_example =
    verify-misses_truncated lib lib-LogLaws two_entries
      (entry (codes "t1") 3 login_format start (omega arith)) one_entry-below
