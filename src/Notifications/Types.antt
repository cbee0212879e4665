-- ===== src/Notifications/Types.antt =====
-- src/notifications/dto/notification.dto.ts: the types of notifications, what is sent, and a device.
use proyecto_verde_auth.Base.{List, Option, Text, codes}

pub data NotificationType : Type 0 where
  login_success login_failed new_device_login password_changed : NotificationType
  mfa_enabled mfa_disabled session_revoked account_locked : NotificationType

-- The enum's values, which are strings.
unfoldable pub type_text : NotificationType → Text
type_text login_success = codes "login_success"
type_text login_failed = codes "login_failed"
type_text new_device_login = codes "new_device_login"
type_text password_changed = codes "password_changed"
type_text mfa_enabled = codes "mfa_enabled"
type_text mfa_disabled = codes "mfa_disabled"
type_text session_revoked = codes "session_revoked"
type_text account_locked = codes "account_locked"

-- One property of a `Record<string, string>`; a record is the list of its properties, in order.
pub record DataEntry : Type 0 where
  pub name : Text
  pub value : Text

-- `data` may be absent, which is spread as the empty record is.
pub record NotificationPayload : Type 0 where
  pub title : Text
  pub body : Text
  pub payload_data : List DataEntry

pub record SendNotificationDto : Type 0 where
  pub fcm_token : Text
  pub notification : NotificationPayload
  pub notification_type : NotificationType

pub record DeviceInfo : Type 0 where
  pub device_name : Option Text
  pub os : Option Text
  pub browser : Option Text
  pub ip : Option Text
