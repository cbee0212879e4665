-- ===== src/Api/OthersMfa.antt =====
-- The row of one id under the handlers of src/auth/mfa/mfa.controller.ts for another.
use proyecto_verde_auth.Auth.Guard.{guarded, caller_of}
use proyecto_verde_auth.Auth.Jwt.{Tokens}
use proyecto_verde_auth.Base.{
  ℕ, Option, none, some, String, Text, List, Option-cases, inl, inr, false, same, ◌≡◌, BodyField,
}
use proyecto_verde_auth.Exec.{Exec}
use proyecto_verde_auth.Exec.Keeps.{Keeps, keeps_rules, Keeps-if, Keeps-pure, Keeps-bind}
use proyecto_verde_auth.Mfa.BackupCodes.{Validation}
use proyecto_verde_auth.Mfa.Handlers.{
  Reply, require, setup, finish_setup, verify_setup, disable_checked, disable, get_status,
  enable_biometric_login, disable_biometric_login,
}
use proyecto_verde_auth.Mfa.Verify.{
  fail, complete, challenged, check_totp, accept_backup, check_backup, check_biometric,
}
use proyecto_verde_auth.Platform.{Platform, on_tables}
use proyecto_verde_auth.Users.Entity.{User}
use proyecto_verde_auth.Users.Others.{Row, IsOther, row_rules, is_mfa_locked-Row}

module _ (p : Platform) (k : Text) (w : Option User) where
  guarded-Row :
      {A : Type 0} (now : ℕ) (bearer : Option Text) (m : Exec A)
      → Keeps (Row k w) m
      → Keeps (Row k w) (guarded (on_tables p) now bearer m)
  unfolding guarded
  guarded-Row now bearer m h = elim (Option-cases (caller_of (on_tables p) now bearer)) [
    | inl refused_caller ↦ rw (refused_caller, guarded) (search keeps_rules)
    | inr (c, known) ↦ rw (known, guarded) h
  ]

  require-Row : (found : Option User) → Keeps (Row k w) (require found)
  unfolding require
  require-Row none = search keeps_rules
  require-Row (some u) = search keeps_rules

ruleset mfa_rules = (row_rules, guarded-Row, require-Row)

module _ (p : Platform) (k : Text) (w : Option User) (now : ℕ) where
  pub setup-Row :
      (secret : Text) (iv : List ℕ) (user : Text)
      → same user k ≡ false
      → Keeps (Row k w) (setup (on_tables p) now secret iv user)
  unfolding setup
  setup-Row secret iv user h = search mfa_rules depth 7

  finish_setup-Row :
      (draw : ℕ → List ℕ) (iv : List ℕ) (user : Text)
      → same user k ≡ false
      → Keeps (Row k w) (finish_setup (on_tables p) now draw iv user)
  unfolding finish_setup
  finish_setup-Row draw iv user h = search mfa_rules

  pub verify_setup-Row :
      (draw : ℕ → List ℕ) (iv : List ℕ) (bearer : Option Text) (user code : Text)
      → same user k ≡ false
      → Keeps (Row k w) (verify_setup (on_tables p) now draw iv bearer user code)
  unfolding verify_setup
  verify_setup-Row draw iv bearer user code h = search (mfa_rules, finish_setup-Row) depth 8

  disable_checked-Row :
      (user code : Text) (u : User)
      → same user k ≡ false
      → Keeps (Row k w) (disable_checked (on_tables p) now user code u)
  unfolding disable_checked
  disable_checked-Row user code u h = search mfa_rules depth 7

  pub disable-Row :
      (bearer : Option Text) (user password code : Text)
      → same user k ≡ false
      → Keeps (Row k w) (disable (on_tables p) now bearer user password code)
  unfolding disable
  disable-Row bearer user password code h = search (mfa_rules, disable_checked-Row) depth 8

  pub get_status-Row :
      (bearer : Option Text) (user : Text)
      → Keeps (Row k w) (get_status (on_tables p) now bearer user)
  unfolding get_status
  get_status-Row bearer user = search mfa_rules depth 8

  pub enable_biometric_login-Row :
      (bearer : Option Text) (user : Text) (device : BodyField)
      → same user k ≡ false
      → Keeps (Row k w) (enable_biometric_login (on_tables p) now bearer user device)
  unfolding enable_biometric_login
  enable_biometric_login-Row bearer user device h = search mfa_rules depth 8

  pub disable_biometric_login-Row :
      (bearer : Option Text) (user : Text)
      → same user k ≡ false
      → Keeps (Row k w) (disable_biometric_login (on_tables p) now bearer user)
  unfolding disable_biometric_login
  disable_biometric_login-Row bearer user h = search mfa_rules depth 8

module _ (p : Platform) (k : Text) (w : Option User) (jti : Text) (now : ℕ) where
  fail-Row :
      (u : User) (message : String)
      → same u.id k ≡ false
      → Keeps (Row k w) (fail (on_tables p) jti now u message)
  unfolding fail
  fail-Row u message h = search mfa_rules

  complete-Row :
      (u : User) → same u.id k ≡ false → Keeps (Row k w) (complete (on_tables p) jti now u)
  unfolding complete
  complete-Row u h = search mfa_rules

  challenged-Row :
      (check : User → Exec (Reply Tokens))
      → ((u : User) → same u.id k ≡ false → Keeps (Row k w) (check u))
      → (found : Option User) → IsOther k found
      → Keeps (Row k w) (challenged (on_tables p) jti now check found)
  unfolding challenged
  challenged-Row check h none q = search keeps_rules
  challenged-Row check h (some u) q = Keeps-if _ _ _ (Keeps-pure _) (
      Keeps-bind _ _ (is_mfa_locked-Row p k w now u.id)
        (λ locked. Keeps-if locked _ _ (Keeps-pure _) (h u q)))

  check_totp-Row :
      (code : Text) (u : User)
      → same u.id k ≡ false
      → Keeps (Row k w) (check_totp (on_tables p) jti now code u)
  unfolding check_totp
  check_totp-Row code u h = search (mfa_rules, fail-Row, complete-Row) depth 7

  pub verify_found-Row :
      (code : Text) (found : Option User)
      → IsOther k found
      → Keeps
          (Row k w)
          (challenged (on_tables p) jti now (check_totp (on_tables p) jti now code) found)
  verify_found-Row code =
      challenged-Row (check_totp (on_tables p) jti now code) (check_totp-Row code)

  accept_backup-Row :
      (iv : List ℕ) (u : User) (v : Validation)
      → same u.id k ≡ false
      → Keeps (Row k w) (accept_backup (on_tables p) jti now iv u v)
  unfolding accept_backup
  accept_backup-Row iv u v h = search (mfa_rules, complete-Row)

  check_backup-Row :
      (iv : List ℕ) (code : Text) (u : User)
      → same u.id k ≡ false
      → Keeps (Row k w) (check_backup (on_tables p) jti now iv code u)
  unfolding check_backup
  check_backup-Row iv code u h = search (mfa_rules, fail-Row, accept_backup-Row) depth 7

  pub verify_backup_found-Row :
      (iv : List ℕ) (code : Text) (found : Option User)
      → IsOther k found
      → Keeps
          (Row k w)
          (challenged (on_tables p) jti now (check_backup (on_tables p) jti now iv code) found)
  verify_backup_found-Row iv code =
      challenged-Row (check_backup (on_tables p) jti now iv code) (check_backup-Row iv code)

  check_biometric-Row :
      (device : BodyField) (u : User)
      → same u.id k ≡ false
      → Keeps (Row k w) (check_biometric (on_tables p) jti now device u)
  unfolding check_biometric
  check_biometric-Row device u h = search (mfa_rules, fail-Row, complete-Row) depth 7

  pub verify_biometric_found-Row :
      (device : BodyField) (found : Option User)
      → IsOther k found
      → Keeps
          (Row k w)
          (challenged (on_tables p) jti now (check_biometric (on_tables p) jti now device) found)
  verify_biometric_found-Row device =
      challenged-Row (check_biometric (on_tables p) jti now device) (check_biometric-Row device)
