-- ===== src/Siem/EventType.antt =====
-- `getEventType` of src/common/logging/siem-logger.service.ts, beside the audit log's method of the same name.
use proyecto_verde_auth.Audit.Service.{outcome, get_event_type as audit_event_type}
use proyecto_verde_auth.Base.{
  ◌≡◌, ◌⊎◌, Bool, true, false, ◌&&◌, Text, codes, same, to_lower_case, includes, arith,
  if◌then◌else◌,
}

unfoldable pub get_event_type : Text → Text → Text
unfolding to_lower_case includes
get_event_type action result =
    let lower = to_lower_case action in
    if includes lower (codes "login")
    then if same result (codes "SUCCESS") then codes "login_success" else codes "login_failed"
    else if includes lower (codes "logout")
    then codes "logout"
    else if includes lower (codes "refresh")
    then codes "token_refresh"
    else if includes lower (codes "mfa") && includes lower (codes "enable")
    then codes "mfa_enabled"
    else if includes lower (codes "mfa") && includes lower (codes "disable")
    then codes "mfa_disabled"
    else if includes lower (codes "lock")
    then codes "account_locked"
    else if includes lower (codes "password")
    then codes "password_changed"
    else if includes lower (codes "config")
    then codes "config_change"
    else if includes lower (codes "transfer")
    then codes "transfer"
    else if includes lower (codes "fraud")
    then codes "fraud_check"
    else lower

-- The types that only the security log has, for actions that contain these words.
abbrev pub IsOwn : Text → Text → Type 0
IsOwn lower t =
    ((t ≡ codes "mfa_disabled")
      × (includes lower (codes "mfa") ≡ true)
      × (includes lower (codes "disable") ≡ true))
    ⊎ ((t ≡ codes "config_change") × (includes lower (codes "config") ≡ true))
    ⊎ ((t ≡ codes "transfer") × (includes lower (codes "transfer") ≡ true))
    ⊎ ((t ≡ codes "fraud_check") × (includes lower (codes "fraud") ≡ true))

-- For every action and outcome, the security log and the audit log classify it alike, unless the security
-- log gives one of its own four types: `mfa_disabled` for an action that contains, in any letter case, both
-- `mfa` and `disable`, and `config_change`, `transfer` or `fraud_check` for one that contains `config`,
-- `transfer` or `fraud`.
pub get_event_type-agrees :
    (action : Text) (success : Bool)
    → (get_event_type action (outcome success) ≡ audit_event_type action success)
      ⊎ IsOwn (to_lower_case action) (get_event_type action (outcome success))
unfolding get_event_type audit_event_type same
get_event_type-agrees action true = ground arith
get_event_type-agrees action false = ground arith
