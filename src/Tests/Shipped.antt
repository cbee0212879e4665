-- ===== src/Tests/Shipped.antt =====
-- Entries of the security log, forwarded to Loki.
use proyecto_verde_auth.Base.{
  ℕ, ◌≡◌, refl, [], ◌∷◌, Option, none, some, Text, codes, arith, List, map,
}
use proyecto_verde_auth.Logging.Delivery.{all_streams, idle_transport}
use proyecto_verde_auth.Logging.Info.{Winston, WinstonLaws}
use proyecto_verde_auth.Logging.Loki.{Transport, stream_of, flush_logs}
use proyecto_verde_auth.Siem.Files.{all_lines}
use proyecto_verde_auth.Siem.Forward.{log_forwarding}
use proyecto_verde_auth.Siem.Shipped.{Logged, begin, logs, flushes, forwarded, Shipped-matches}
use proyecto_verde_auth.Siem.Logger.{LogEntry, Siem, fresh}
use proyecto_verde_auth.Tests.Siem.{lib, login_format, put_entry}

-- Both entries forwarded, with a flush between them.
abbrev winston : Winston
winston = record {
  info_of = λ now message details. record {
    timestamp = some now;
    level = some (codes "info");
    message = some message;
    metadata = details;
  };
  stringify = λ x. [];
}

winston-WinstonLaws : WinstonLaws winston
winston-WinstonLaws = record { info_of_lem = λ now message details. refl }

abbrev no_name : ℕ → Option Text
no_name n = none

abbrev one_shipped : LogEntry ℕ × (Siem × Transport)
one_shipped =
    log_forwarding no_name winston lib (codes "t1") 3 login_format (fresh [], idle_transport)

abbrev two_shipped : LogEntry ℕ × (Siem × Transport)
two_shipped =
    log_forwarding no_name winston lib (codes "t2") 4 login_format
      (one_shipped.1.0, flush_logs (λ s. s) (codes "test") one_shipped.1.1)

abbrev shipped : List (Logged ℕ)
shipped =
    record { entry = one_shipped.0; at = codes "t1" }
    ∷ record { entry = two_shipped.0; at = codes "t2" }
    ∷ []

Shipped-matches_example :
    (all_lines two_shipped.1.0.files ≡ map (λ l. put_entry l.entry) shipped)
    × (all_streams (flush_logs (λ s. s) (codes "test") two_shipped.1.1).posted
        ≡ map
            (λ l.
              stream_of
                (λ s. s)
                (codes "test")
                (forwarded no_name winston lib (λ s. s) (codes "test") l))
            shipped)
Shipped-matches_example =
    Shipped-matches no_name winston lib (λ s. s) (codes "test") winston-WinstonLaws
      (logs (codes "t2") 4 login_format
        (flushes (logs (codes "t1") 3 login_format begin (omega arith))) (omega arith))
