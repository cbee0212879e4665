-- ===== src/Siem/Shipped.antt =====
-- The files of src/common/logging/siem-logger.service.ts beside what
-- src/common/logging/loki-transport.service.ts posts of the same entries.
use proyecto_verde_auth.Base.{
  ℕ, ◌≤◌, ◌≡◌, refl, List, [], ◌∷◌, ◌++◌, Option, none, some, Text, codes, map, or_else, ◌∙◌, ap,
  sym,
}
use proyecto_verde_auth.Logging.Delivery.{
  idle_transport, all_streams, total, total-push, flushed, append-nil, map-snoc,
}
use proyecto_verde_auth.Logging.Info.{Winston, WinstonLaws, info, loki_format, extract_log_data}
use proyecto_verde_auth.Logging.Loki.{LokiEntry, Transport, stream_of, push_entry, flush_logs}
use proyecto_verde_auth.Siem.EventType.{get_event_type}
use proyecto_verde_auth.Siem.Files.{all_lines, all_lines-write_log}
use proyecto_verde_auth.Siem.Forward.{
  log_forwarding, forward_to_loki, message_of, device_name_of, metadata_of,
}
use proyecto_verde_auth.Siem.Logger.{StandardLogFormat, LogEntry, LogLibrary, Siem, fresh, log}
use proyecto_verde_auth.Siem.Walk.{IsUpTo, IsUpTo-later, write_log-IsUpTo}

-- An entry with the instant at which it was logged.
pub record Logged (Value : Type 0) : Type 0 where
  pub entry : LogEntry Value
  pub at : Text

or_else-same : (t : Text) → or_else (some t) t ≡ t
or_else-same [] = refl
or_else-same (c ∷ t) = refl

or_else-message :
    (action result d : Text)
    → or_else (some (action ++ codes " - " ++ result)) d ≡ action ++ codes " - " ++ result
or_else-message [] result d = refl
or_else-message (c ∷ action) result d = refl

module _ {Value : Type 0} (name_of : Value → Option Text) (w : Winston) (lib : LogLibrary Value)
    (nano_time : Text → Text) (env : Text) where
  -- What Loki is to get of a logged entry.
  abbrev pub forwarded : Logged Value → LokiEntry
  forwarded l = record {
    timestamp = l.at;
    level = codes "info";
    message = message_of name_of l.entry.format;
    user_id = some l.entry.format.user;
    user_email = none;
    action = some l.entry.format.action;
    event_type = some (get_event_type l.entry.format.action l.entry.format.result);
    ip = some l.entry.format.ip;
    device_name = device_name_of name_of l.entry.format.device;
    success = some l.entry.format.result;
    session_id = none;
  }

  -- A service that starts on an empty directory: calls of `log`, on days that never go back, and flushes of the
  -- timer, with the entries that the calls returned.
  pub data Shipped : ℕ → Siem → Transport → List (Logged Value) → Type 0 where
    begin : Shipped 0 (fresh []) idle_transport []
    logs :
        {day : ℕ} {s : Siem} {t : Transport} {entries : List (Logged Value)} (now : Text)
        (later : ℕ) (format : StandardLogFormat Value)
        → Shipped day s t entries
        → day ≤ later
        → Shipped later
            (log_forwarding name_of w lib now later format (s, t)).1.0
            (log_forwarding name_of w lib now later format (s, t)).1.1
            (entries
              ++ record {
                entry = (log_forwarding name_of w lib now later format (s, t)).0;
                at = now;
              }
                ∷ [])
    flushes :
        {day : ℕ} {s : Siem} {t : Transport} {entries : List (Logged Value)}
        → Shipped day s t entries
        → Shipped day s (flush_logs nano_time env t) entries

  forward-push :
      WinstonLaws w
      → (now : Text) (e : LogEntry Value) (t : Transport)
      → forward_to_loki name_of w now e t
        ≡ push_entry (forwarded (record { entry = e; at = now })) t
  unfolding forward_to_loki info loki_format extract_log_data metadata_of
  forward-push laws now e t =
      rw
        (
          laws.info_of_lem now (message_of name_of e.format) (metadata_of name_of e),
          or_else-same now,
          or_else-message e.format.action e.format.result _,
        )
        refl

  -- The directory has the lines of the entries, and Loki's side their streams.
  abbrev Agrees : ℕ → Siem → Transport → List (Logged Value) → Type 0
  Agrees day s t entries =
      IsUpTo day s.files
      × (all_lines s.files ≡ map (λ l. lib.line_of l.entry) entries)
      × (total nano_time env t ≡ map (λ l. stream_of nano_time env (forwarded l)) entries)

  log-Agrees :
      WinstonLaws w
      → (day later : ℕ) (s : Siem) (t : Transport) (entries : List (Logged Value)) (now : Text)
        (format : StandardLogFormat Value)
      → day ≤ later
      → Agrees day s t entries
      → Agrees later
          (log_forwarding name_of w lib now later format (s, t)).1.0
          (log_forwarding name_of w lib now later format (s, t)).1.1
          (entries
            ++ record { entry = (log_forwarding name_of w lib now later format (s, t)).0; at = now }
              ∷ [])
  unfolding log_forwarding log
  log-Agrees laws day later s t entries now format h (up, lines, streams) =
      let e = (log lib now later format s).0 in
      let up' = IsUpTo-later day later s.files h up in
      (
        write_log-IsUpTo later (lib.line_of e) s.files up',
        rw
            (
              all_lines-write_log later (lib.line_of e) s.files up',
              lines,
              map-snoc (λ (l : Logged Value). lib.line_of l.entry) entries
                  (record { entry = e; at = now }),
            )
            refl,
        ap (total nano_time env) (forward-push laws now e t)
            ∙ total-push nano_time env (forwarded (record { entry = e; at = now })) t
            ∙ rw
                (
                  streams,
                  map-snoc (λ (l : Logged Value). stream_of nano_time env (forwarded l)) entries
                      (record { entry = e; at = now }),
                )
                refl,
      )

  Shipped-Agrees :
      WinstonLaws w
      → {day : ℕ} {s : Siem} {t : Transport} {entries : List (Logged Value)}
      → Shipped day s t entries
      → Agrees day s t entries
  unfolding all_streams all_lines
  Shipped-Agrees laws begin = (tt, refl, refl)
  Shipped-Agrees laws (logs {day} {s} {t} {entries} now later format r h) =
      log-Agrees laws day later s t entries now format h (Shipped-Agrees laws r)
  Shipped-Agrees laws (flushes {day} {s} {t} {entries} r) =
      let (up, lines, streams) = Shipped-Agrees laws r in
      (up, lines, flushed nano_time env t ∙ streams)

  -- For winston as documented, after any calls of `log` from an empty directory on, on days that never go back,
  -- with flushes in between: the lines of all files, in the order of the days, are those of the entries that
  -- the calls returned, each once and in order, and once the buffer is flushed the streams that were posted to
  -- Loki are those of the same entries, each once and in the same order.
  pub Shipped-matches :
      WinstonLaws w
      → {day : ℕ} {s : Siem} {t : Transport} {entries : List (Logged Value)}
      → Shipped day s t entries
      → (all_lines s.files ≡ map (λ l. lib.line_of l.entry) entries)
        × (all_streams (flush_logs nano_time env t).posted
            ≡ map (λ l. stream_of nano_time env (forwarded l)) entries)
  unfolding flush_logs
  Shipped-matches laws {day} {s} {t} {entries} r =
      let (up, lines, streams) = Shipped-Agrees laws (flushes r) in
      (lines, sym (append-nil _) ∙ streams)
