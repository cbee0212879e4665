-- ===== src/Notifications/Controller.antt =====
-- src/notifications/notifications.controller.ts
use proyecto_verde_auth.Base.{
  ℕ, ◌+◌, ◌*◌, List, [], ◌∷◌, some, Text, codes, same, map, if◌then◌else◌,
}
use proyecto_verde_auth.Notifications.Service.{
  Firebase, Service, PushReply, not_sent, send_login_success_notification,
  send_login_failed_notification, send_new_device_login_notification,
  send_account_locked_notification, send_password_changed_notification,
  send_mfa_enabled_notification, send_session_revoked_notification,
}
use proyecto_verde_auth.Notifications.Texts.{DateTexts}
use proyecto_verde_auth.Notifications.Types.{
  type_text, DeviceInfo, login_success, login_failed, new_device_login, password_changed,
  mfa_enabled, mfa_disabled, session_revoked, account_locked,
}

abbrev pub test_device : DeviceInfo
test_device = record {
  device_name = some (codes "Test Device");
  os = some (codes "Test OS");
  browser = some (codes "Test Browser");
  ip = some (codes "127.0.0.1");
}

-- Fifteen minutes, in milliseconds.
abbrev pub test_lock_time : ℕ
test_lock_time = 15 * 60 * 1000

-- The body is not checked: its `type` may be any text.
unfoldable pub send_test_notification :
    {Account : Type 0}
    → Firebase Account
    → DateTexts
    → ℕ
    → Text
    → Text
    → Service
    → PushReply × Service
unfolding type_text send_login_success_notification send_login_failed_notification
    send_new_device_login_notification send_account_locked_notification
    send_password_changed_notification send_mfa_enabled_notification
    send_session_revoked_notification
send_test_notification firebase dates now token type s =
    if same type (type_text login_success)
    then send_login_success_notification firebase dates now token test_device s
    else if same type (type_text login_failed)
    then send_login_failed_notification firebase dates now token test_device 3 s
    else if same type (type_text new_device_login)
    then send_new_device_login_notification firebase dates now token test_device s
    else if same type (type_text account_locked)
    then send_account_locked_notification firebase dates now token (now + test_lock_time) s
    else if same type (type_text password_changed)
    then send_password_changed_notification firebase dates now token s
    else if same type (type_text mfa_enabled)
    then send_mfa_enabled_notification firebase dates now token s
    else if same type (type_text session_revoked)
    then send_session_revoked_notification firebase dates now token s
    else (not_sent (codes "Unknown notification type"), s)

-- `Object.values` of the enum: its values in their order.
unfoldable pub get_notification_types : List Text
unfolding type_text
get_notification_types = map type_text (
    login_success ∷ login_failed ∷ new_device_login ∷ password_changed ∷ mfa_enabled ∷ mfa_disabled
    ∷ session_revoked ∷ account_locked ∷ [])
