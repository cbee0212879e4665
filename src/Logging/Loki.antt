-- ===== src/Logging/Loki.antt =====
-- src/common/logging/loki-transport.service.ts: the buffer of the transport, and the streams that it posts.
-- The console and the HTTP request are left out; the timer is a flag, which says whether it runs.
use proyecto_verde_auth.Base.{
  ℕ, Bool, true, false, List, [], ◌∷◌, ◌++◌, Option, none, some, Text, codes, leb, ◌==◌, ◌||◌, ◌&&◌,
  if◌then◌else◌, take, map,
}

-- `LogEntry`: absent fields are `none`.
pub record LokiEntry : Type 0 where
  pub timestamp : Text
  pub level : Text
  pub message : Text
  pub user_id : Option Text
  pub user_email : Option Text
  pub action : Option Text
  pub event_type : Option Text
  pub ip : Option Text
  pub device_name : Option Text
  pub success : Option Text
  pub session_id : Option Text

pub record Label : Type 0 where
  pub name : Text
  pub value : Text

-- One stream: its labels, and its only value, an instant and a message.
pub record Stream : Type 0 where
  pub labels : List Label
  pub time : Text
  pub message : Text

-- `[a-zA-Z0-9_.-]`
unfoldable pub is_label_unit : ℕ → Bool
is_label_unit c =
    leb 97 c && leb c 122
    || leb 65 c && leb c 90
    || leb 48 c && leb c 57
    || c == 95
    || c == 46
    || c == 45

-- `replace(/[^a-zA-Z0-9_.-]/g, '_')`
unfoldable pub replace_units : Text → Text
unfolding is_label_unit
replace_units [] = []
replace_units (c ∷ t) = (if is_label_unit c then c else 95) ∷ replace_units t

abbrev pub label_limit : ℕ
label_limit = 128

unfoldable pub sanitize_label : Text → Text
unfolding replace_units
sanitize_label value = take label_limit (replace_units value)

-- `if (value) labels[name] = f(value)`: the empty string is falsy.
unfoldable pub labelled : Text → (Text → Text) → Option Text → List Label
labelled name f none = []
labelled name f (some []) = []
labelled name f (some (c ∷ t)) = record { name = name; value = f (c ∷ t) } ∷ []

-- The labels of an entry, in the order in which they are set; `env` is NODE_ENV or its default.
unfoldable pub labels_of : Text → LokiEntry → List Label
unfolding sanitize_label labelled
labels_of env e =
    record { name = codes "service"; value = codes "banco-verde-iam" }
      ∷ record { name = codes "env"; value = sanitize_label env }
      ∷ record { name = codes "level"; value = e.level }
      ∷ labelled (codes "userId") sanitize_label e.user_id
    ++ labelled (codes "userEmail") sanitize_label e.user_email
    ++ labelled (codes "eventType") sanitize_label e.event_type
    ++ labelled (codes "action") sanitize_label e.action
    ++ labelled (codes "ip") sanitize_label e.ip
    ++ labelled (codes "deviceName") sanitize_label e.device_name
    ++ labelled (codes "success") (λ value. value) e.success
    ++ labelled (codes "sessionId") sanitize_label e.session_id

-- `nano_time` reads a date and multiplies; it is a parameter.
unfoldable pub stream_of : (Text → Text) → Text → LokiEntry → Stream
unfolding labels_of
stream_of nano_time env e = record {
  labels = labels_of env e;
  time = nano_time e.timestamp;
  message = e.message;
}

-- The buffer, whether the timer runs, and the payloads posted, oldest first.
pub record Transport : Type 0 where
  pub log_buffer : List LokiEntry
  pub flush_timer : Bool
  pub posted : List (List Stream)

unfoldable pub start_flush_timer : Transport → Transport
start_flush_timer t = record t { flush_timer = true }

-- What `lokiFormat` does with an entry.
unfoldable pub push_entry : LokiEntry → Transport → Transport
unfolding start_flush_timer
push_entry e t = record (start_flush_timer t) { log_buffer = t.log_buffer ++ (e ∷ []) }

abbrev post_all : (Text → Text) → Text → List LokiEntry → List (List Stream) → List (List Stream)
post_all nano_time env [] posted = posted
post_all nano_time env (e ∷ entries) posted =
    posted ++ (map (stream_of nano_time env) (e ∷ entries) ∷ [])

unfoldable pub flush_logs : (Text → Text) → Text → Transport → Transport
flush_logs nano_time env t = record t {
  log_buffer = [];
  posted = post_all nano_time env t.log_buffer t.posted;
}

-- The interval of `setInterval` has passed: only a timer that runs calls `flushLogs`.
unfoldable pub fire : (Text → Text) → Text → Transport → Transport
unfolding flush_logs
fire nano_time env t = if t.flush_timer then flush_logs nano_time env t else t

unfoldable pub close_loki_logger : (Text → Text) → Text → Transport → Transport
unfolding flush_logs
close_loki_logger nano_time env t = flush_logs nano_time env (record t { flush_timer = false })
