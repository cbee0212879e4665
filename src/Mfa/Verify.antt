-- ===== src/Mfa/Verify.antt =====
-- src/auth/mfa/mfa.controller.ts: the three ways to complete a login that waits for its second factor. The
-- answer to a right one is a pair of signed tokens.
use proyecto_verde_auth.Auth.Jwt.{Tokens, generate_tokens}
use proyecto_verde_auth.Base.{
  ℕ, Bool, List, Option, none, some, String, Text, ltb, if◌then◌else◌, BodyField,
}
use proyecto_verde_auth.Crypt.Token.{encrypt}
use proyecto_verde_auth.Exec.{Exec, pure, lift, ◌>>=◌, ◌>>◌}
use proyecto_verde_auth.Mfa.BackupCodes.{Validation, validate_backup_code}
use proyecto_verde_auth.Mfa.Handlers.{Reply, refused, done, verify_totp, decrypt_secret}
use proyecto_verde_auth.Platform.{Platform}
use proyecto_verde_auth.Users.Entity.{User}
use proyecto_verde_auth.Users.Service.{
  find_by_mfa_temp_token, is_mfa_locked, increment_mfa_failed_attempts, reset_mfa_failed_attempts,
  clear_mfa_temp_token, update_backup_codes, validate_biometric, find_user_where,
}

-- `user.mfaTempTokenExpires < new Date()`: null compares as 0.
unfoldable pub is_expired : Option ℕ → ℕ → Bool
is_expired none now = ltb 0 now
is_expired (some t) now = ltb t now

module _ (p : Platform) (jti : Text) (now : ℕ) where
  -- After a wrong second factor.
  unfoldable pub fail : User → String → Exec (Reply Tokens)
  fail u message = increment_mfa_failed_attempts p now u.id >> pure (refused message)

  -- After a right one, but for what `verifyBackup` writes in between.
  unfoldable pub complete : User → Exec (Reply Tokens)
  complete u = do
    clear_mfa_temp_token p now u.id
    pure (done (generate_tokens p jti now u.id u.email))

  -- The checks with which all three handlers begin, and what each does after them.
  unfoldable pub challenged : (User → Exec (Reply Tokens)) → Option User → Exec (Reply Tokens)
  unfolding is_expired
  challenged check none = pure (refused "Sesión MFA expirada o inválida")
  challenged check (some u) =
      if is_expired u.mfa_temp_token_expires now
      then pure (refused "Sesión MFA expirada")
      else (is_mfa_locked p now u.id >>= λ locked.
          if locked
          then pure (refused "MFA bloqueado por demasiados intentos fallidos")
          else check u)

  unfoldable pub check_totp : Text → User → Exec (Reply Tokens)
  unfolding fail complete verify_totp
  check_totp code u = do
    secret ← lift (decrypt_secret p u.mfa_secret)
    if verify_totp p now secret code
        then (reset_mfa_failed_attempts p u.id >> complete u)
        else fail u "Código MFA incorrecto"

  unfoldable pub verify : Text → Text → Exec (Reply Tokens)
  unfolding challenged check_totp
  verify temp_token code = find_by_mfa_temp_token p temp_token >>= challenged (check_totp code)

  unfoldable pub accept_backup : List ℕ → User → Validation → Exec (Reply Tokens)
  unfolding complete
  accept_backup iv u v = do
    reset_mfa_failed_attempts p u.id
    update_backup_codes p u.id (encrypt p iv (p.json.stringify v.remaining_codes))
    complete u

  unfoldable pub check_backup : List ℕ → Text → User → Exec (Reply Tokens)
  unfolding fail accept_backup
  check_backup iv code u = do
    v ← lift (validate_backup_code p.json now u.mfa_backup_codes code)
    if v.valid then accept_backup iv u v else fail u "Código de backup inválido"

  unfoldable pub verify_backup : List ℕ → Text → Text → Exec (Reply Tokens)
  unfolding challenged check_backup
  verify_backup iv temp_token code =
      find_by_mfa_temp_token p temp_token >>= challenged (check_backup iv code)

  unfoldable pub check_biometric : BodyField → User → Exec (Reply Tokens)
  unfolding fail complete
  check_biometric device u = do
    valid ← validate_biometric p u.id device
    if valid
        then (reset_mfa_failed_attempts p u.id >> complete u)
        else fail u "Biométrico no válido para este dispositivo"

  unfoldable pub verify_biometric : Text → BodyField → Exec (Reply Tokens)
  unfolding challenged check_biometric
  verify_biometric temp_token device =
      find_by_mfa_temp_token p temp_token >>= challenged (check_biometric device)

  -- The handlers on a body as it comes.
  unfoldable pub verify_body : BodyField → Text → Exec (Reply Tokens)
  unfolding find_user_where challenged check_totp
  verify_body temp_token code =
      find_user_where p (find_by_mfa_temp_token p) temp_token >>= challenged (check_totp code)

  unfoldable pub verify_backup_body : List ℕ → BodyField → Text → Exec (Reply Tokens)
  unfolding find_user_where challenged check_backup
  verify_backup_body iv temp_token code =
      find_user_where p (find_by_mfa_temp_token p) temp_token >>= challenged (check_backup iv code)

  unfoldable pub verify_biometric_body : BodyField → BodyField → Exec (Reply Tokens)
  unfolding find_user_where challenged check_biometric
  verify_biometric_body temp_token device =
      find_user_where p (find_by_mfa_temp_token p) temp_token
      >>= challenged (check_biometric device)
