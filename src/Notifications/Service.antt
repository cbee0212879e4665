-- ===== src/Notifications/Service.antt =====
-- src/notifications/notifications.service.ts: the start of Firebase, and the notifications sent through it.
use proyecto_verde_auth.Base.{
  ℕ, Bool, true, false, List, [], ◌∷◌, ◌++◌, Option, none, some, Text, codes, same, put,
}
use proyecto_verde_auth.Notifications.Texts.{
  DateTexts, login_success_payload, new_device_payload, login_failed_payload,
  account_locked_payload, password_changed_payload, mfa_enabled_payload, session_revoked_payload,
}
use proyecto_verde_auth.Notifications.Types.{
  NotificationType, type_text, DataEntry, NotificationPayload, SendNotificationDto, DeviceInfo,
  login_success, login_failed, new_device_login, password_changed, mfa_enabled, session_revoked,
  account_locked,
}

-- What is handed to Firebase's `send`.
pub record Message : Type 0 where
  pub token : Text
  pub title : Text
  pub body : Text
  pub message_data : List DataEntry
  pub badge : ℕ
  pub sound : Text

-- How `send` ends: with an id, or with an exception, which has a message if it is an `Error`.
pub data Delivery : Type 0 where
  delivered : Text → Delivery
  failed : Option Text → Delivery

-- Firebase, and the account that it is started with: the file, if there is one, and whether `require` reads it;
-- the setting; `JSON.parse`; and whether `cert` and `initializeApp` take an account.
pub record Firebase (Account : Type 0) : Type 0 where
  pub account_file : Option (Option Account)
  pub account_setting : Option Text
  pub parse : Text → Option Account
  pub initialize_app : Account → Bool
  pub send : Message → Delivery

-- The service's field, and the messages that were handed to `send`, oldest first.
pub record Service : Type 0 where
  pub fcm_initialized : Bool
  pub handed_over : List Message

-- What a method answers, with the fields that are not there as `none`.
pub record PushReply : Type 0 where
  pub success : Bool
  pub message_id : Option Text
  pub error : Option Text

abbrev pub not_sent : Text → PushReply
not_sent reason = record { success = false; message_id = none; error = some reason }

unfoldable pub reply_to : Delivery → PushReply
reply_to (delivered id) = record { success = true; message_id = some id; error = none }
reply_to (failed none) = not_sent (codes "Unknown error")
reply_to (failed (some message)) = not_sent message

-- `{ ...base, ...entries }`: a name that is there already keeps its place and takes the new value.
unfoldable pub spread : List DataEntry → List DataEntry → List DataEntry
spread base [] = base
spread base (e ∷ entries) = spread (put (λ x. same x.name e.name) e base) entries

unfoldable pub message_of : SendNotificationDto → Message
unfolding spread type_text
message_of dto = record {
  token = dto.fcm_token;
  title = dto.notification.title;
  body = dto.notification.body;
  message_data =
      spread (record { name = codes "type"; value = type_text dto.notification_type } ∷ [])
        dto.notification.payload_data;
  badge = 1;
  sound = codes "default";
}

module _ {Account : Type 0} (firebase : Firebase Account) where
  -- `initializeApp` on what was read: an exception leaves the field as it was.
  unfoldable pub start_with : Option Account → Bool
  start_with none = false
  start_with (some account) = firebase.initialize_app account

  -- The setting: absent or empty, it is not used.
  unfoldable pub start_from_setting : Option Text → Bool
  unfolding start_with
  start_from_setting none = false
  start_from_setting (some []) = false
  start_from_setting (some (c ∷ t)) = start_with (firebase.parse (c ∷ t))

  unfoldable pub initialize_from : Option (Option Account) → Bool
  unfolding start_with start_from_setting
  initialize_from none = start_from_setting firebase.account_setting
  initialize_from (some account) = start_with account

  -- The service after its constructor.
  unfoldable pub initialize_fcm : Service
  unfolding initialize_from
  initialize_fcm = record {
    fcm_initialized = initialize_from firebase.account_file;
    handed_over = [];
  }

  unfoldable pub hand_over : Message → Service → PushReply × Service
  unfolding reply_to
  hand_over m s = (reply_to (firebase.send m), record s { handed_over = s.handed_over ++ m ∷ [] })

  unfoldable pub send_if : Bool → SendNotificationDto → Service → PushReply × Service
  unfolding hand_over message_of
  send_if false dto s = (not_sent (codes "Firebase not initialized"), s)
  send_if true dto s = hand_over (message_of dto) s

  unfoldable pub send_push_notification : SendNotificationDto → Service → PushReply × Service
  unfolding send_if
  send_push_notification dto s = send_if s.fcm_initialized dto s

abbrev pub a_push : Text → NotificationType → NotificationPayload → SendNotificationDto
a_push token type payload = record {
  fcm_token = token;
  notification = payload;
  notification_type = type;
}

-- The methods for each type but `mfa_disabled`, which has none.
module _ {Account : Type 0} (firebase : Firebase Account) (dates : DateTexts) (now : ℕ) where
  unfoldable pub send_login_success_notification : Text → DeviceInfo → Service → PushReply × Service
  unfolding send_push_notification login_success_payload
  send_login_success_notification token device s =
      send_push_notification firebase
        (a_push token login_success (login_success_payload dates now device)) s

  unfoldable pub send_new_device_login_notification :
      Text → DeviceInfo → Service → PushReply × Service
  unfolding send_push_notification new_device_payload
  send_new_device_login_notification token device s =
      send_push_notification firebase
        (a_push token new_device_login (new_device_payload dates now device)) s

  unfoldable pub send_login_failed_notification :
      Text → DeviceInfo → ℕ → Service → PushReply × Service
  unfolding send_push_notification login_failed_payload
  send_login_failed_notification token device attempts_left s =
      send_push_notification firebase
        (a_push token login_failed (login_failed_payload dates now device attempts_left)) s

  unfoldable pub send_account_locked_notification : Text → ℕ → Service → PushReply × Service
  unfolding send_push_notification account_locked_payload
  send_account_locked_notification token unlock_time s =
      send_push_notification firebase
        (a_push token account_locked (account_locked_payload dates now unlock_time)) s

  unfoldable pub send_password_changed_notification : Text → Service → PushReply × Service
  unfolding send_push_notification password_changed_payload
  send_password_changed_notification token s =
      send_push_notification firebase
        (a_push token password_changed (password_changed_payload dates now)) s

  unfoldable pub send_mfa_enabled_notification : Text → Service → PushReply × Service
  unfolding send_push_notification mfa_enabled_payload
  send_mfa_enabled_notification token s =
      send_push_notification firebase (a_push token mfa_enabled (mfa_enabled_payload dates now)) s

  unfoldable pub send_session_revoked_notification : Text → Service → PushReply × Service
  unfolding send_push_notification session_revoked_payload
  send_session_revoked_notification token s =
      send_push_notification firebase
        (a_push token session_revoked (session_revoked_payload dates now)) s
