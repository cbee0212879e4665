-- ===== src/Mfa/Code.antt =====
-- The backup codes of src/auth/mfa/backup-codes.service.ts, and what `JSON.parse` can return for them.
use proyecto_verde_auth.Base.{ℕ, Bool, List, Option, Text}

-- `interface BackupCode`; `used_at` is an instant.
pub record BackupCode : Type 0 where
  pub code : Text
  pub used : Bool
  pub used_at : Option ℕ

-- The text is no JSON, an array of backup codes, or another value.
pub data Parsed : Type 0 where
  syntax_error : Parsed
  array : List BackupCode → Parsed
  not_array : Parsed
