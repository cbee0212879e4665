-- ===== src/Api/KeptMfa.antt =====
-- The invariant of the stored state under the handlers of src/auth/mfa/mfa.controller.ts.
use proyecto_verde_auth.Auth.Guard.{guarded, caller_of}
use proyecto_verde_auth.Auth.Jwt.{Tokens}
use proyecto_verde_auth.Base.{
  ℕ, Option, none, some, String, Text, List, Option-cases, inl, inr, BodyField, undefined,
  null_field, text_field,
}
use proyecto_verde_auth.Exec.{Exec}
use proyecto_verde_auth.Exec.Keeps.{Keeps, keeps_rules}
use proyecto_verde_auth.Mfa.BackupCodes.{Validation}
use proyecto_verde_auth.Mfa.Handlers.{
  Reply, require, setup, finish_setup, verify_setup, disable_checked, disable, get_status,
  enable_biometric_login, disable_biometric_login,
}
use proyecto_verde_auth.Mfa.Verify.{
  fail, complete, challenged, check_totp, verify_body, accept_backup, check_backup,
  verify_backup_body, check_biometric, verify_biometric_body,
}
use proyecto_verde_auth.Platform.{Platform, on_tables}
use proyecto_verde_auth.Users.Entity.{User}
use proyecto_verde_auth.Users.Kept.{users_rules}
use proyecto_verde_auth.Valid.{IsValid}
use proyecto_verde_auth.Users.Service.{find_by_id, find_by_mfa_temp_token, find_user_where}

module _ (p : Platform) where
  guarded-Keeps :
      {A : Type 0} (now : ℕ) (bearer : Option Text) (m : Exec A)
      → Keeps (IsValid p.bcrypt) m
      → Keeps (IsValid p.bcrypt) (guarded (on_tables p) now bearer m)
  unfolding guarded
  guarded-Keeps now bearer m h = elim (Option-cases (caller_of (on_tables p) now bearer)) [
    | inl refused_caller ↦ rw (refused_caller, guarded) (search keeps_rules)
    | inr (c, known) ↦ rw (known, guarded) h
  ]

  require-Keeps : (found : Option User) → Keeps (IsValid p.bcrypt) (require found)
  unfolding require
  require-Keeps none = search keeps_rules
  require-Keeps (some u) = search keeps_rules

  find_by_id-Keeps : (id : Text) → Keeps (IsValid p.bcrypt) (find_by_id (on_tables p) id)
  unfolding find_by_id
  find_by_id-Keeps id = search keeps_rules

  find_by_mfa_temp_token-Keeps :
      (t : Text) → Keeps (IsValid p.bcrypt) (find_by_mfa_temp_token (on_tables p) t)
  unfolding find_by_mfa_temp_token
  find_by_mfa_temp_token-Keeps t = search keeps_rules

  find_token_where-Keeps :
      (field : BodyField)
      → Keeps
          (IsValid p.bcrypt)
          (find_user_where (on_tables p) (find_by_mfa_temp_token (on_tables p)) field)
  unfolding find_user_where
  find_token_where-Keeps (text_field t) = find_by_mfa_temp_token-Keeps t
  find_token_where-Keeps undefined = search keeps_rules
  find_token_where-Keeps null_field = search keeps_rules

ruleset mfa_rules =
    (users_rules, guarded-Keeps, require-Keeps, find_by_id-Keeps, find_by_mfa_temp_token-Keeps)

module _ (p : Platform) (now : ℕ) where
  pub setup-Keeps :
      (secret : Text) (iv : List ℕ) (user : Text)
      → Keeps (IsValid p.bcrypt) (setup (on_tables p) now secret iv user)
  unfolding setup
  setup-Keeps secret iv user = search mfa_rules depth 7

  finish_setup-Keeps :
      (draw : ℕ → List ℕ) (iv : List ℕ) (user : Text)
      → Keeps (IsValid p.bcrypt) (finish_setup (on_tables p) now draw iv user)
  unfolding finish_setup
  finish_setup-Keeps draw iv user = search mfa_rules

  pub verify_setup-Keeps :
      (draw : ℕ → List ℕ) (iv : List ℕ) (bearer : Option Text) (user code : Text)
      → Keeps (IsValid p.bcrypt) (verify_setup (on_tables p) now draw iv bearer user code)
  unfolding verify_setup
  verify_setup-Keeps draw iv bearer user code = search (mfa_rules, finish_setup-Keeps) depth 8

  disable_checked-Keeps :
      (user code : Text) (u : User)
      → Keeps (IsValid p.bcrypt) (disable_checked (on_tables p) now user code u)
  unfolding disable_checked
  disable_checked-Keeps user code u = search mfa_rules depth 7

  pub disable-Keeps :
      (bearer : Option Text) (user password code : Text)
      → Keeps (IsValid p.bcrypt) (disable (on_tables p) now bearer user password code)
  unfolding disable
  disable-Keeps bearer user password code = search (mfa_rules, disable_checked-Keeps) depth 8

  pub get_status-Keeps :
      (bearer : Option Text) (user : Text)
      → Keeps (IsValid p.bcrypt) (get_status (on_tables p) now bearer user)
  unfolding get_status
  get_status-Keeps bearer user = search mfa_rules depth 8

  pub enable_biometric_login-Keeps :
      (bearer : Option Text) (user : Text) (device : BodyField)
      → Keeps (IsValid p.bcrypt) (enable_biometric_login (on_tables p) now bearer user device)
  unfolding enable_biometric_login
  enable_biometric_login-Keeps bearer user device = search mfa_rules depth 8

  pub disable_biometric_login-Keeps :
      (bearer : Option Text) (user : Text)
      → Keeps (IsValid p.bcrypt) (disable_biometric_login (on_tables p) now bearer user)
  unfolding disable_biometric_login
  disable_biometric_login-Keeps bearer user = search mfa_rules depth 8

module _ (p : Platform) (jti : Text) (now : ℕ) where
  fail-Keeps :
      (u : User) (message : String)
      → Keeps (IsValid p.bcrypt) (fail (on_tables p) jti now u message)
  unfolding fail
  fail-Keeps u message = search mfa_rules

  complete-Keeps : (u : User) → Keeps (IsValid p.bcrypt) (complete (on_tables p) jti now u)
  unfolding complete
  complete-Keeps u = search mfa_rules

  challenged-Keeps :
      (check : User → Exec (Reply Tokens))
      → ((u : User) → Keeps (IsValid p.bcrypt) (check u))
      → (found : Option User)
      → Keeps (IsValid p.bcrypt) (challenged (on_tables p) jti now check found)
  unfolding challenged
  challenged-Keeps check h none = search keeps_rules
  challenged-Keeps check h (some u) = search (mfa_rules, h) depth 7

  check_totp-Keeps :
      (code : Text) (u : User) → Keeps (IsValid p.bcrypt) (check_totp (on_tables p) jti now code u)
  unfolding check_totp
  check_totp-Keeps code u = search (mfa_rules, fail-Keeps, complete-Keeps) depth 7

  pub verify_body-Keeps :
      (t : BodyField) (code : Text)
      → Keeps (IsValid p.bcrypt) (verify_body (on_tables p) jti now t code)
  unfolding verify_body
  verify_body-Keeps t code = search (
    mfa_rules,
    find_token_where-Keeps,
    challenged-Keeps (check_totp (on_tables p) jti now code) (check_totp-Keeps code),
  )

  accept_backup-Keeps :
      (iv : List ℕ) (u : User) (v : Validation)
      → Keeps (IsValid p.bcrypt) (accept_backup (on_tables p) jti now iv u v)
  unfolding accept_backup
  accept_backup-Keeps iv u v = search (mfa_rules, complete-Keeps)

  check_backup-Keeps :
      (iv : List ℕ) (code : Text) (u : User)
      → Keeps (IsValid p.bcrypt) (check_backup (on_tables p) jti now iv code u)
  unfolding check_backup
  check_backup-Keeps iv code u = search (mfa_rules, fail-Keeps, accept_backup-Keeps) depth 7

  pub verify_backup_body-Keeps :
      (iv : List ℕ) (t : BodyField) (code : Text)
      → Keeps (IsValid p.bcrypt) (verify_backup_body (on_tables p) jti now iv t code)
  unfolding verify_backup_body
  verify_backup_body-Keeps iv t code = search (
    mfa_rules,
    find_token_where-Keeps,
    challenged-Keeps (check_backup (on_tables p) jti now iv code) (check_backup-Keeps iv code),
  )

  check_biometric-Keeps :
      (device : BodyField) (u : User)
      → Keeps (IsValid p.bcrypt) (check_biometric (on_tables p) jti now device u)
  unfolding check_biometric
  check_biometric-Keeps device u = search (mfa_rules, fail-Keeps, complete-Keeps) depth 7

  pub verify_biometric_body-Keeps :
      (t : BodyField) (device : BodyField)
      → Keeps (IsValid p.bcrypt) (verify_biometric_body (on_tables p) jti now t device)
  unfolding verify_biometric_body
  verify_biometric_body-Keeps t device = search (
    mfa_rules,
    find_token_where-Keeps,
    challenged-Keeps (check_biometric (on_tables p) jti now device) (check_biometric-Keeps device),
  )
