-- ===== src/Audit/Service.antt =====
-- src/audit-log/audit-log.service.ts: `log` writes a row and hands a record to the security logger.
use proyecto_verde_auth.Base.{
  ℕ, Bool, ◌&&◌, [], ◌∷◌, ◌++◌, Option, Text, codes, to_lower_case, includes, if◌then◌else◌,
  or_else,
}
use proyecto_verde_auth.Exec.{Exec, SecurityEvent, modify, ◌>>◌}
use proyecto_verde_auth.Platform.{Platform}
use proyecto_verde_auth.Audit.Entity.{AuditLog}

unfoldable pub get_event_type : Text → Bool → Text
unfolding to_lower_case includes
get_event_type action success =
    let lower = to_lower_case action in
    if includes lower (codes "login")
    then if success then codes "login_success" else codes "login_failed"
    else if includes lower (codes "logout")
    then codes "logout"
    else if includes lower (codes "refresh")
    then codes "token_refresh"
    else if includes lower (codes "mfa") && includes lower (codes "enable")
    then codes "mfa_enabled"
    else if includes lower (codes "lock")
    then codes "account_locked"
    else if includes lower (codes "password")
    then codes "password_changed"
    else lower

abbrev pub outcome : Bool → Text
outcome success = if success then codes "SUCCESS" else codes "FAILED"

abbrev bool_text : Bool → Text
bool_text b = if b then codes "true" else codes "false"

unfoldable pub security_event :
    Text → Option Text → Option Text → Option Text → Bool → SecurityEvent
unfolding get_event_type
security_event action user ip device success = record {
  message = action ++ codes " - " ++ outcome success;
  event_type = get_event_type action success;
  user_id = or_else user (codes "anonymous");
  action = action;
  ip = or_else ip (codes "unknown");
  device = or_else device (codes "unknown");
  success = bool_text success;
}

-- The row that `log` saves: `id` is its generated id, `now` its timestamp.
abbrev pub audit_row : Text → ℕ → Text → Option Text → Option Text → Option Text → Bool → AuditLog
audit_row id now action user ip device success = record {
  id = id;
  user_id = user;
  action = action;
  ip = ip;
  device = device;
  timestamp = now;
  success = success;
}

module _ (p : Platform) where
  unfoldable pub log : Text → ℕ → Text → Option Text → Option Text → Option Text → Bool → Exec Unit
  unfolding security_event
  log id now action user ip device success =
      let row = audit_row id now action user ip device success in
      do
        modify (λ s. record s { audit_logs = p.audit_logs.save row s.audit_logs })
        modify λ s. record s {
          security_log = s.security_log ++ security_event action user ip device success ∷ [];
        }
