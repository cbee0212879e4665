-- ===== src/Notifications/Guarantees.antt =====
-- What a test notification of src/notifications does, from the start of the service on.
use proyecto_verde_auth.Base.{
  ℕ, ◌≡◌, refl, Bool, true, false, List, [], ◌∷◌, ◌++◌, Option, none, some, Text, codes, same,
  first, arith, put, ◌+◌, if◌then◌else◌,
}
use proyecto_verde_auth.Notifications.Controller.{
  send_test_notification, test_device, test_lock_time,
}
use proyecto_verde_auth.Notifications.Service.{
  Firebase, Service, send_if, Message, PushReply, not_sent, reply_to, a_push, message_of, spread,
  send_push_notification, send_login_success_notification, send_login_failed_notification,
  send_new_device_login_notification, send_account_locked_notification,
  send_password_changed_notification, send_mfa_enabled_notification,
  send_session_revoked_notification,
}
use proyecto_verde_auth.Notifications.Texts.{
  DateTexts, login_success_payload, login_failed_payload, new_device_payload,
  account_locked_payload, password_changed_payload, mfa_enabled_payload, session_revoked_payload,
}
use proyecto_verde_auth.Notifications.Types.{
  NotificationType, NotificationPayload, type_text, DataEntry, login_success, login_failed,
  new_device_login, password_changed, mfa_enabled, session_revoked, account_locked,
}

-- The types of the enum, without `mfa_disabled`.
abbrev pub sendable : List NotificationType
sendable =
    login_success ∷ login_failed ∷ new_device_login ∷ account_locked ∷ password_changed
    ∷ mfa_enabled ∷ session_revoked ∷ []

abbrev pub entry_named : Text → List DataEntry → Option DataEntry
entry_named name = first (λ (e : DataEntry). same e.name name)

module _ {Account : Type 0} (firebase : Firebase Account) (dates : DateTexts) (now : ℕ)
    (token : Text) (s : Service) where
  -- A message to this device, of this type and of this instant.
  abbrev pub IsFor : NotificationType → Message → Type 0
  IsFor t m =
      (m.token ≡ token)
      × (entry_named (codes "type") m.message_data
          ≡ some (record { name = codes "type"; value = type_text t }))
      × (entry_named (codes "timestamp") m.message_data
          ≡ some (record { name = codes "timestamp"; value = dates.to_iso_string now }))

  -- Nothing is done for a type without a method, nor before the start; otherwise one message is handed
  -- over, and its delivery is answered.
  pub data Tried : Option NotificationType → PushReply × Service → Type 0 where
    unknown : Tried none (not_sent (codes "Unknown notification type"), s)
    idle :
        (t : NotificationType)
        → s.fcm_initialized ≡ false
        → Tried (some t) (not_sent (codes "Firebase not initialized"), s)
    handed :
        (t : NotificationType) (m : Message)
        → s.fcm_initialized ≡ true
        → IsFor t m
        → Tried
            (some t)
            (reply_to (firebase.send m), record s { handed_over = s.handed_over ++ m ∷ [] })

  Tried-if :
      (b : Bool) (t : NotificationType) (other : Option NotificationType)
      (r r' : PushReply × Service)
      → Tried (some t) r
      → Tried other r'
      → Tried (if b then some t else other) (if b then r else r')
  Tried-if true t other r r' this rest = this
  Tried-if false t other r r' this rest = rest

  sent_if :
      (b : Bool) (t : NotificationType) (payload : NotificationPayload)
      → s.fcm_initialized ≡ b
      → IsFor t (message_of (a_push token t payload))
      → Tried (some t) (send_if firebase b (a_push token t payload) s)
  unfolding send_if
  sent_if true t payload started right =
      handed t (message_of (a_push token t payload)) started right
  sent_if false t payload off right = idle t off

  sent :
      (t : NotificationType) (payload : NotificationPayload)
      → IsFor t (message_of (a_push token t payload))
      → Tried (some t) (send_push_notification firebase (a_push token t payload) s)
  unfolding send_push_notification
  sent t payload right = sent_if s.fcm_initialized t payload refl right

  -- A test notification for any text, of a service in any state. For a type of the enum but `mfa_disabled`:
  -- if Firebase is initialised, exactly one message is handed over, with the device's token, that type and
  -- the instant, and the answer is how its delivery ended; if not, nothing is handed over and the answer
  -- says so. Any other text, `mfa_disabled` among them, is refused and nothing is handed over.
  pub test_notification-Tried :
      (type : Text)
      → Tried
          (first (λ t. same type (type_text t)) sendable)
          (send_test_notification firebase dates now token type s)
  unfolding send_test_notification send_login_success_notification send_login_failed_notification
      send_new_device_login_notification send_account_locked_notification
      send_password_changed_notification send_mfa_enabled_notification
      send_session_revoked_notification login_success_payload login_failed_payload
      new_device_payload account_locked_payload password_changed_payload mfa_enabled_payload
      session_revoked_payload message_of spread put first same
  test_notification-Tried type =
      Tried-if _ login_success _ _ _
        (sent login_success (login_success_payload dates now test_device) (refl, refl, refl))
        (Tried-if _ login_failed _ _ _
          (sent login_failed (login_failed_payload dates now test_device 3) (refl, refl, refl))
          (Tried-if _ new_device_login _ _ _
            (sent new_device_login (new_device_payload dates now test_device) (refl, refl, refl))
            (Tried-if _ account_locked _ _ _
              (sent account_locked (account_locked_payload dates now (now + test_lock_time))
                (refl, refl, refl))
              (Tried-if _ password_changed _ _ _
                (sent password_changed (password_changed_payload dates now) (refl, refl, refl))
                (Tried-if _ mfa_enabled _ _ _
                  (sent mfa_enabled (mfa_enabled_payload dates now) (refl, refl, refl))
                  (Tried-if _ session_revoked none _ _
                    (sent session_revoked (session_revoked_payload dates now) (refl, refl, refl))
                    unknown))))))

  refused_of :
      (o : Option NotificationType) (r : PushReply) (s' : Service)
      → Tried o (r, s')
      → s.fcm_initialized ≡ false
      → (r.success ≡ false) × (s' ≡ s)
  refused_of _ _ _ unknown off = (refl, refl)
  refused_of _ _ _ (idle t off') off = (refl, refl)
  refused_of _ _ _ (handed t m started right) off = ground arith

  pub test_notification-off :
      s.fcm_initialized ≡ false
      → (type : Text)
      → let (r, s') = send_test_notification firebase dates now token type s in
        (r.success ≡ false) × (s' ≡ s)
  test_notification-off off type = refused_of _ _ _ (test_notification-Tried type) off
