-- ===== src/Siem/Forward.antt =====
-- `forwardToLoki` of src/common/logging/siem-logger.service.ts, and `log` with it. The record `lokiEntry`,
-- which the method builds and does not use, is left out.
use proyecto_verde_auth.Base.{ℕ, ◌++◌, Option, none, some, Text, codes}
use proyecto_verde_auth.Logging.Info.{Winston, Metadata, info}
use proyecto_verde_auth.Logging.Loki.{Transport}
use proyecto_verde_auth.Siem.EventType.{get_event_type}
use proyecto_verde_auth.Siem.Logger.{StandardLogFormat, LogEntry, LogLibrary, Siem, log}

-- `name_of` reads the name of a device, where it has one.
module _ {Value : Type 0} (name_of : Value → Option Text) where
  -- `entry.device?.name`
  unfoldable pub device_name_of : Option Value → Option Text
  device_name_of none = none
  device_name_of (some device) = name_of device

  abbrev pub message_of : StandardLogFormat Value → Text
  message_of e = e.action ++ codes " - " ++ e.result

  unfoldable pub metadata_of : LogEntry Value → Metadata
  unfolding device_name_of get_event_type
  metadata_of e = record {
    user_id = some e.format.user;
    user_email = none;
    action = some e.format.action;
    event_type = some (get_event_type e.format.action e.format.result);
    ip = some e.format.ip;
    device = none;
    device_name = device_name_of e.format.device;
    success = some e.format.result;
    session_id = none;
    hash = some e.hash;
  }

  module _ (w : Winston) where
    unfoldable pub forward_to_loki : Text → LogEntry Value → Transport → Transport
    unfolding metadata_of info
    forward_to_loki now e t = info w now (message_of e.format) (metadata_of e) t

    -- The whole of `log`: the chain and its file, then the forwarding.
    unfoldable pub log_forwarding :
        LogLibrary Value
        → Text
        → ℕ
        → StandardLogFormat Value
        → Siem × Transport
        → LogEntry Value × (Siem × Transport)
    unfolding log forward_to_loki
    log_forwarding lib now day format (s, t) =
        let (e, s') = log lib now day format s in (e, (s', forward_to_loki now e t))
