-- ===== src/Tests/Logging.antt =====
-- Labels, buffered entries and checked entries.
use proyecto_verde_auth.Base.{
  ◌≡◌, ◌↔◌, refl, List, true, false, [], ◌∷◌, none, some, map, codes, String, same,
}
use proyecto_verde_auth.Logging.Delivery.{
  Event, logged, timer, closed, IsTimed, idle_transport, after, entries_of, all_streams,
  flush-after,
}
use proyecto_verde_auth.Logging.Format.{validate_log_entry}
use proyecto_verde_auth.Logging.Json.{Json, string, object, Members, no_members, member}
use proyecto_verde_auth.Logging.Loki.{
  LokiEntry, sanitize_label, push_entry, fire, close_loki_logger, stream_of,
}
use proyecto_verde_auth.Logging.Schema.{IsWellFormed, validate_log_entry-IsWellFormed}

spaces_replaced : sanitize_label (codes "a b@c.d-1") ≡ codes "a_b_c.d-1"
unfolding sanitize_label
spaces_replaced = refl

abbrev a_login : LokiEntry
a_login = record {
  timestamp = codes "t";
  level = codes "info";
  message = codes "LOGIN - SUCCESS";
  user_id = some (codes "1");
  user_email = none;
  action = some (codes "LOGIN");
  event_type = some (codes "login_success");
  ip = some (codes "::1");
  device_name = none;
  success = some (codes "true");
  session_id = none;
}

abbrev some_events : List Event
some_events = logged a_login ∷ timer ∷ closed ∷ timer ∷ logged a_login ∷ []

flush-after_example :
    let t = after (λ s. s) (codes "test") some_events idle_transport in
    let t' = close_loki_logger (λ s. s) (codes "test") t in
    IsTimed (λ s. s) (codes "test") t
    × (t'.log_buffer ≡ [])
    × (t'.flush_timer ≡ false)
    × (all_streams t'.posted ≡ map (stream_of (λ s. s) (codes "test")) (entries_of some_events))
flush-after_example = flush-after (λ s. s) (codes "test") some_events

second_waits : (after (λ s. s) (codes "test") some_events idle_transport).log_buffer ≡ a_login ∷ []
unfolding after push_entry fire close_loki_logger
second_waits = refl

abbrev text_field : String → String → Members → Members
text_field name t = member (codes name) (string (codes t))

abbrev of_service : String → Json
of_service service = object (
    text_field "timestamp" "t" (
      text_field "service" service (
        text_field "action" "LOGIN" (
          text_field "result" "FAILED"
            (text_field "hash" "h" (text_field "hashAlgorithm" "SHA-256" no_members))))))

good_valid : validate_log_entry (of_service "iam-service") ≡ record { valid = true; errors = none }
unfolding validate_log_entry same
good_valid = refl

other_service_invalid : validate_log_entry (of_service "auth") ≡ record {
  valid = false;
  errors = some (
      codes
        "service must be one of: api-gateway, core-bancario, motor-fraude, app-movil, iam-service"
      ∷ []);
}
unfolding validate_log_entry same
other_service_invalid = refl

validate_log_entry-IsWellFormed_example :
    ((validate_log_entry (of_service "iam-service")).valid ≡ true)
    ↔ IsWellFormed (of_service "iam-service")
validate_log_entry-IsWellFormed_example = validate_log_entry-IsWellFormed (of_service "iam-service")
