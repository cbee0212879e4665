-- ===== src/Notifications/Texts.antt =====
-- The texts and the data of each notification of src/notifications/notifications.service.ts.
use proyecto_verde_auth.Base.{ℕ, [], ◌∷◌, ◌++◌, Text, codes, or_else, to_decimal}
use proyecto_verde_auth.Notifications.Types.{DataEntry, NotificationPayload, DeviceInfo}

-- The two texts that are made of an instant.
pub record DateTexts : Type 0 where
  pub to_iso_string : ℕ → Text
  pub to_locale_time_string : ℕ → Text

abbrev entry : Text → Text → DataEntry
entry name value = record { name = name; value = value }

-- What each method sends: its title, its text and its data. `now` is the instant of the call.
module _ (dates : DateTexts) (now : ℕ) where
  abbrev pub stamp : DataEntry
  stamp = entry (codes "timestamp") (dates.to_iso_string now)

  unfoldable pub login_success_payload : DeviceInfo → NotificationPayload
  login_success_payload d = record {
    title = codes "Inicio de sesión exitoso";
    body =
        codes "Sesión iniciada desde "
        ++ or_else d.device_name (codes "dispositivo desconocido")
        ++ codes " ("
        ++ or_else d.ip (codes "IP no disponible")
        ++ codes ")";
    payload_data =
        entry (codes "deviceName") (or_else d.device_name [])
        ∷ entry (codes "ip") (or_else d.ip [])
        ∷ stamp
        ∷ [];
  }

  unfoldable pub new_device_payload : DeviceInfo → NotificationPayload
  new_device_payload d = record {
    title = codes "Nuevo inicio de sesión detectado";
    body =
        codes "Se detectó un inicio de sesión desde un nuevo dispositivo: "
        ++ or_else d.device_name (codes "desconocido")
        ++ codes ". Si no fuiste tú, comunícate con soporte inmediatamente.";
    payload_data =
        entry (codes "deviceName") (or_else d.device_name [])
        ∷ entry (codes "ip") (or_else d.ip [])
        ∷ entry (codes "os") (or_else d.os [])
        ∷ entry (codes "browser") (or_else d.browser [])
        ∷ stamp
        ∷ [];
  }

  unfoldable pub login_failed_payload : DeviceInfo → ℕ → NotificationPayload
  unfolding to_decimal
  login_failed_payload d attempts_left = record {
    title = codes "Intento de inicio de sesión fallido";
    body =
        codes "Se registró un intento de inicio de sesión fallido. Intentos restantes: "
        ++ to_decimal attempts_left
        ++ codes ".";
    payload_data =
        entry (codes "attemptsLeft") (to_decimal attempts_left)
        ∷ entry (codes "ip") (or_else d.ip [])
        ∷ stamp
        ∷ [];
  }

  unfoldable pub account_locked_payload : ℕ → NotificationPayload
  account_locked_payload unlock_time = record {
    title = codes "Cuenta bloqueada";
    body =
        codes
          "Tu cuenta ha sido bloqueada por múltiples intentos fallidos. Se desbloqueará automáticamente a las "
        ++ dates.to_locale_time_string unlock_time
        ++ codes ".";
    payload_data = entry (codes "unlockTime") (dates.to_iso_string unlock_time) ∷ stamp ∷ [];
  }

  unfoldable pub password_changed_payload : NotificationPayload
  password_changed_payload = record {
    title = codes "Contraseña actualizada";
    body =
        codes
          "Tu contraseña fue modificada exitosamente. Si no realizaste este cambio, contacta a soporte.";
    payload_data = stamp ∷ [];
  }

  unfoldable pub mfa_enabled_payload : NotificationPayload
  mfa_enabled_payload = record {
    title = codes "MFA habilitado";
    body = codes "La autenticación multifactor ha sido activada en tu cuenta.";
    payload_data = stamp ∷ [];
  }

  unfoldable pub session_revoked_payload : NotificationPayload
  session_revoked_payload = record {
    title = codes "Sesión revocada";
    body = codes "Una de tus sesiones ha sido revocada. Si no fuiste tú, comunícate con soporte.";
    payload_data = stamp ∷ [];
  }
