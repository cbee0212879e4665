-- ===== src/Logging/Info.antt =====
-- src/common/logging/loki-transport.service.ts: what the logger's format takes over from a call of `info`.
use proyecto_verde_auth.Base.{◌≡◌, Option, some, Text, codes, or_else}
use proyecto_verde_auth.Logging.Loki.{LokiEntry, Transport, push_entry}

-- The second argument of `info`, as far as the program's callers fill it in.
pub record Metadata : Type 0 where
  pub user_id : Option Text
  pub user_email : Option Text
  pub action : Option Text
  pub event_type : Option Text
  pub ip : Option Text
  pub device : Option Text
  pub device_name : Option Text
  pub success : Option Text
  pub session_id : Option Text
  pub hash : Option Text

-- `winston.Logform.TransformableInfo`
pub record Info : Type 0 where
  pub timestamp : Option Text
  pub level : Option Text
  pub message : Option Text
  pub metadata : Metadata

-- winston: what a call of `info`, at an instant, hands to the formats after `timestamp()`, and
-- `JSON.stringify`.
pub record Winston : Type 0 where
  pub info_of : Text → Text → Metadata → Info
  pub stringify : Info → Text

-- What winston documents: the level, the message and the metadata of the call, and the instant as timestamp.
pub record WinstonLaws (w : Winston) : Type 0 where
  pub info_of_lem :
      (now message : Text) (details : Metadata)
      → w.info_of now message details ≡ record {
        timestamp = some now;
        level = some (codes "info");
        message = some message;
        metadata = details;
      }

module _ (w : Winston) where
  unfoldable pub extract_log_data : Text → Info → LokiEntry
  extract_log_data now info = record {
    timestamp = or_else info.timestamp now;
    level = or_else info.level (codes "info");
    message = or_else info.message (w.stringify info);
    user_id = info.metadata.user_id;
    user_email = info.metadata.user_email;
    action = info.metadata.action;
    event_type = info.metadata.event_type;
    ip = info.metadata.ip;
    device_name = info.metadata.device_name;
    success = info.metadata.success;
    session_id = info.metadata.session_id;
  }

  -- `lokiFormat`, without the timer.
  unfoldable pub loki_format : Text → Info → Transport → Transport
  unfolding extract_log_data push_entry
  loki_format now info t = push_entry (extract_log_data now info) t

  -- A call of a logger's `info`; every logger has the one buffer of the module.
  unfoldable pub info : Text → Text → Metadata → Transport → Transport
  unfolding loki_format
  info now message details t = loki_format now (w.info_of now message details) t
