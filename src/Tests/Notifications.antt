-- ===== src/Tests/Notifications.antt =====
-- Test notifications with a Firebase that takes everything, and with one that takes no account.
use proyecto_verde_auth.Base.{
  ◌≡◌, refl, true, false, [], ◌∷◌, ◌++◌, some, none, Text, codes, first, same, to_decimal, take,
  drop,
}
use proyecto_verde_auth.Notifications.Controller.{send_test_notification, get_notification_types}
use proyecto_verde_auth.Notifications.Guarantees.{Tried, sendable, test_notification-Tried}
use proyecto_verde_auth.Notifications.Service.{Firebase, Service, delivered, initialize_fcm}
use proyecto_verde_auth.Notifications.Texts.{DateTexts}
use proyecto_verde_auth.Notifications.Types.{type_text}

abbrev firebase : Firebase Text
firebase = record {
  account_file = some (some (codes "bv"));
  account_setting = none;
  parse = λ t. some t;
  initialize_app = λ account. true;
  send = λ m. delivered (codes "id-" ++ m.token);
}

-- The file is there and cannot be read; the setting is not looked at.
abbrev broken : Firebase Text
broken = record firebase { account_file = some none; account_setting = some (codes "bv") }

abbrev dates : DateTexts
dates = record { to_iso_string = to_decimal; to_locale_time_string = to_decimal }

abbrev started : Service
started = record { fcm_initialized = true; handed_over = [] }

starts : initialize_fcm firebase ≡ started
unfolding initialize_fcm
starts = refl

decimal : to_decimal 900 ≡ codes "900"
unfolding to_decimal
decimal = refl

enabled_is_sent :
    (send_test_notification firebase dates 7
      (codes "dev")
      (codes "mfa_enabled")
      started).0.message_id
    ≡ some (codes "id-dev")
unfolding send_test_notification same
enabled_is_sent = refl

disabled_is_unknown :
    (send_test_notification firebase dates 7 (codes "dev") (codes "mfa_disabled") started).0.error
    ≡ some (codes "Unknown notification type")
unfolding send_test_notification same
disabled_is_unknown = refl

test_notification-Tried_example :
    Tried firebase dates 7
      (codes "dev")
      started
      (first (λ t. same (codes "account_locked") (type_text t)) sendable)
      (send_test_notification firebase dates 7 (codes "dev") (codes "account_locked") started)
test_notification-Tried_example =
    test_notification-Tried firebase dates 7 (codes "dev") started (codes "account_locked")

all_types_listed :
    take 2 (drop 4 get_notification_types) ≡ codes "mfa_enabled" ∷ codes "mfa_disabled" ∷ []
unfolding get_notification_types
all_types_listed = refl

broken_file_stops : (initialize_fcm broken).fcm_initialized ≡ false
unfolding initialize_fcm
broken_file_stops = refl
