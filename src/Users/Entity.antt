-- ===== src/Users/Entity.antt =====
-- src/users/entities/user.entity.ts. A `timestamp` is its instant in milliseconds. `created_at` and
-- `updated_at`, which the database keeps and no code reads, and the relation `sessions`, which no
-- code loads, are left out.
use proyecto_verde_auth.Base.{ℕ, Bool, Option, Text}

pub data MfaMethod : Type 0 where
  totp biometric : MfaMethod

pub record User : Type 0 where
  pub id : Text
  pub email : Text
  pub password_hash : Text
  pub is_active : Bool
  pub failed_attempts : ℕ
  pub locked_until : Option ℕ
  pub mfa_enabled : Bool
  pub mfa_secret : Option Text
  pub mfa_backup_codes : Option Text
  pub mfa_temp_token : Option Text
  pub mfa_temp_token_expires : Option ℕ
  pub mfa_last_verified : Option ℕ
  pub mfa_failed_attempts : ℕ
  pub mfa_locked_until : Option ℕ
  pub biometric_enabled : Bool
  pub device_biometric_id : Option Text
  pub preferred_mfa_method : MfaMethod
