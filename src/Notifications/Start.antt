-- ===== src/Notifications/Start.antt =====
-- The start of Firebase in src/notifications/notifications.service.ts, and a service that was not started.
use proyecto_verde_auth.Base.{
  ℕ, ◌≡◌, ◌≢◌, ◌⊎◌, inl, inr, refl, false, [], ◌∷◌, Option, none, some, Text, arith,
}
use proyecto_verde_auth.Notifications.Controller.{send_test_notification}
use proyecto_verde_auth.Notifications.Guarantees.{test_notification-off}
use proyecto_verde_auth.Notifications.Service.{
  Firebase, initialize_fcm, initialize_from, start_from_setting, start_with,
}
use proyecto_verde_auth.Notifications.Texts.{DateTexts}

module _ {Account : Type 0} (firebase : Firebase Account) where
  -- The account of the file, or, where there is no file, of a setting that is not empty.
  abbrev pub IsConfigured : Account → Type 0
  IsConfigured account =
      (firebase.account_file ≡ some (some account))
      ⊎ ((firebase.account_file ≡ none)
          × (text : Text) × (text ≢ [])
          × (firebase.account_setting ≡ some text)
          × (firebase.parse text ≡ some account))

  start_with-false :
      (o : Option Account)
      → ((account : Account) → o ≡ some account → firebase.initialize_app account ≡ false)
      → start_with firebase o ≡ false
  unfolding start_with
  start_with-false none h = refl
  start_with-false (some account) h = h account refl

  from_setting-false :
      firebase.account_file ≡ none
      → (o : Option Text) → firebase.account_setting ≡ o
      → ((account : Account) → IsConfigured account → firebase.initialize_app account ≡ false)
      → start_from_setting firebase o ≡ false
  unfolding start_from_setting
  from_setting-false no_file none e h = refl
  from_setting-false no_file (some []) e h = refl
  from_setting-false no_file (some (c ∷ t)) e h =
      start_with-false (firebase.parse (c ∷ t))
        λ account found. h account (inr (no_file, c ∷ t, ground arith, e, found))

  from_file-false :
      (o : Option (Option Account))
      → firebase.account_file ≡ o
      → ((account : Account) → IsConfigured account → firebase.initialize_app account ≡ false)
      → initialize_from firebase o ≡ false
  unfolding initialize_from
  from_file-false none e h = from_setting-false e firebase.account_setting refl h
  from_file-false (some o) e h =
      start_with-false o λ account found. h account (inl (rw (e, found) refl))

  -- If Firebase takes no account that is configured, by the file or, where there is no file, by the setting:
  -- the service starts nevertheless, and refuses every test notification and hands over no message.
  pub unstarted_refuses :
      ((account : Account) → IsConfigured account → firebase.initialize_app account ≡ false)
      → (dates : DateTexts) (now : ℕ) (token type : Text)
      → let (r, s') =
          send_test_notification firebase dates now token type (initialize_fcm firebase) in
        (r.success ≡ false) × (s'.handed_over ≡ [])
  unfolding initialize_fcm
  unstarted_refuses h dates now token type =
      let (refused, same_state) =
        test_notification-off firebase dates now token (initialize_fcm firebase)
          (from_file-false firebase.account_file refl h) type in
      (refused, rw same_state refl)
