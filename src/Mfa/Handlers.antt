-- ===== src/Mfa/Handlers.antt =====
-- src/auth/mfa/mfa.controller.ts and src/auth/mfa/mfa.service.ts: setting the second factor up and down.
-- `user` is the `x-user-id` header, `bearer` the request's token; the secret, the vectors and the codes
-- that a handler draws are arguments.
use proyecto_verde_auth.Auth.Guard.{guarded}
use proyecto_verde_auth.Base.{
  ℕ, Bool, List, Option, none, some, String, Text, map, if◌then◌else◌, BodyField,
}
use proyecto_verde_auth.Crypt.Token.{encrypt, decrypt}
use proyecto_verde_auth.Exec.{Exec, Result, type_error, pure, throw, lift, ◌>>=◌, ◌>>◌}
use proyecto_verde_auth.Mfa.BackupCodes.{generate_backup_codes, unused, count_remaining_codes}
use proyecto_verde_auth.Platform.{Platform}
use proyecto_verde_auth.Users.Entity.{User}
use proyecto_verde_auth.Users.Service.{
  find_by_id, set_mfa_secret, enable_mfa, disable_mfa, enable_biometric, disable_biometric,
  validate_password,
}

-- `{ success: false, message }`, or what the handler returns on success.
pub data Reply (A : Type 0) : Type 0 where
  refused : String → Reply A
  done : A → Reply A

pub record SetupReply : Type 0 where
  pub secret : Text
  pub otpauth_uri : Text
  pub qr_code_url : Text

pub record Status : Type 0 where
  pub mfa_enabled : Bool
  pub backup_codes_remaining : ℕ
  pub last_verified : Option ℕ

-- A property of the row that `findById` returned, which may be null.
unfoldable pub require : Option User → Exec User
require none = throw type_error
require (some u) = pure u

module _ (p : Platform) where
  abbrev pub generate_otpauth_uri : Text → Text → Text
  generate_otpauth_uri secret email = p.totp.to_uri secret email

  abbrev pub generate_qr_code : Text → Text
  generate_qr_code uri = p.totp.to_data_url uri

  abbrev pub encrypt_secret : List ℕ → Text → Text
  encrypt_secret iv secret = encrypt p iv secret

  abbrev pub decrypt_secret : Option Text → Result Text
  decrypt_secret encrypted = decrypt p encrypted

module _ (p : Platform) (now : ℕ) where
  unfoldable pub generate_setup_response : Text → Text → SetupReply
  generate_setup_response secret email =
      let uri = generate_otpauth_uri p secret email in
      record { secret = secret; otpauth_uri = uri; qr_code_url = generate_qr_code p uri }

  unfoldable pub verify_totp : Text → Text → Bool
  verify_totp secret code = p.totp.verify code secret now

  -- `setup` has no guard.
  unfoldable pub setup : Text → List ℕ → Text → Exec SetupReply
  unfolding require generate_setup_response
  setup secret iv user = do
    u ← (find_by_id p user >>= require)
    set_mfa_secret p user (encrypt_secret p iv secret)
    pure (generate_setup_response secret u.email)

  unfoldable pub finish_setup : (ℕ → List ℕ) → List ℕ → Text → Exec (Reply (List Text))
  finish_setup draw iv user =
      let backup_codes = generate_backup_codes draw in
      do
        enable_mfa p user (encrypt p iv (p.json.stringify (map unused backup_codes)))
        pure (done backup_codes)

  unfoldable pub verify_setup :
      (ℕ → List ℕ) → List ℕ → Option Text → Text → Text → Exec (Reply (List Text))
  unfolding require verify_totp finish_setup
  verify_setup draw iv bearer user code = guarded p now bearer (do
    u ← (find_by_id p user >>= require)
    secret ← lift (decrypt_secret p u.mfa_secret)
    if verify_totp secret code then finish_setup draw iv user else pure (refused "Código inválido"))

  unfoldable pub disable_checked : Text → Text → User → Exec (Reply Unit)
  unfolding verify_totp
  disable_checked user code u = do
    secret ← lift (decrypt_secret p u.mfa_secret)
    if verify_totp secret code
        then (disable_mfa p user >> pure (done tt))
        else pure (refused "Código MFA incorrecto")

  unfoldable pub disable : Option Text → Text → Text → Text → Exec (Reply Unit)
  unfolding require disable_checked
  disable bearer user password code = guarded p now bearer (do
    u ← (find_by_id p user >>= require)
    if validate_password p u password
        then disable_checked user code u
        else pure (refused "Contraseña incorrecta"))

  abbrev remaining : User → Exec ℕ
  remaining u =
      if u.mfa_enabled then lift (count_remaining_codes p.json u.mfa_backup_codes) else pure 0

  unfoldable pub get_status : Option Text → Text → Exec Status
  unfolding require
  get_status bearer user = guarded p now bearer (do
    u ← (find_by_id p user >>= require)
    n ← remaining u
    pure (record {
      mfa_enabled = u.mfa_enabled;
      backup_codes_remaining = n;
      last_verified = u.mfa_last_verified;
    }))

  unfoldable pub enable_biometric_login : Option Text → Text → BodyField → Exec (Reply Unit)
  unfolding require
  enable_biometric_login bearer user device = guarded p now bearer (do
    u ← (find_by_id p user >>= require)
    if u.mfa_enabled
        then (enable_biometric p user device >> pure (done tt))
        else pure (refused "MFA debe estar habilitado primero"))

  unfoldable pub disable_biometric_login : Option Text → Text → Exec (Reply Unit)
  disable_biometric_login bearer user =
      guarded p now bearer (disable_biometric p user >> pure (done tt))
