-- ===== src/Mfa/Challenge.antt =====
-- The common checks of the second factor, and each way to complete it, on plain tables.
use proyecto_verde_auth.Auth.Jwt.{Tokens, generate_tokens}
use proyecto_verde_auth.Auth.Login.{UserKeys}
use proyecto_verde_auth.Base.{
  ℕ, ◌≡◌, ◌≢◌, inl, inr, refl, true, false, Option, none, some, List, Text, holds, same, first,
  first-key, rewrite, put, arith, BodyField, Option-cases, subst,
}
use proyecto_verde_auth.Crypt.Token.{decrypt}
use proyecto_verde_auth.Exec.{System, Exec, ok, Result-cases}
use proyecto_verde_auth.Mfa.BackupCodes.{validate_backup_code}
use proyecto_verde_auth.Mfa.Code.{syntax_error}
use proyecto_verde_auth.Mfa.Handlers.{Reply, refused, done}
use proyecto_verde_auth.Mfa.Verify.{
  is_expired, challenged, check_totp, check_biometric, check_backup, verify, verify_backup,
  verify_biometric,
}
use proyecto_verde_auth.Platform.{Platform, on_tables}
use proyecto_verde_auth.Users.Entity.{User}
use proyecto_verde_auth.Users.Service.{
  find_by_mfa_temp_token, is_mfa_locked, increment_mfa_failed_attempts, reset_mfa_failed_attempts,
  clear_mfa_temp_token, update_backup_codes, validate_biometric, later_than, equals_field, fail_mfa,
  clear_mfa,
}

-- The row that waits for its second factor under a temporary token.
unfoldable pub pending : Text → System → Option User
pending t s = first (λ u. holds u.mfa_temp_token t) s.users

-- A second factor is looked at: a login is pending, in time, and not locked.
abbrev pub IsOpen : ℕ → Text → System → User → Type 0
IsOpen now t s u =
    (pending t s ≡ some u)
    × (is_expired u.mfa_temp_token_expires now ≡ false)
    × (later_than u.mfa_locked_until now ≡ false)

-- Decryption does not look at the tables.
decrypt_tables : (p : Platform) (o : Option Text) → decrypt (on_tables p) o ≡ decrypt p o
unfolding decrypt
decrypt_tables p none = refl
decrypt_tables p (some t) = refl

module _ (p : Platform) (jti : Text) (now : ℕ) (t : Text) (s : System) where
  pub by_id :
      (u : User) → UserKeys s → pending t s ≡ some u → first (λ x. same x.id u.id) s.users ≡ some u
  unfolding pending
  by_id u k e = first-key (λ (x : User). x.id) (λ x. holds x.mfa_temp_token t) u s.users k e

  -- The common checks let the handler's own check run just when the pending login is open.
  challenged_sound :
      (check : User → Exec (Reply Tokens)) (tokens : Tokens)
      → UserKeys s
      → (challenged (on_tables p) jti now check (pending t s) s).0 ≡ ok (done tokens)
      → (u : User) × IsOpen now t s u × ((check u s).0 ≡ ok (done tokens))
  unfolding challenged is_mfa_locked
  challenged_sound check tokens k h = elim (Option-cases (pending t s)) [
    | inl nobody ↦ ground arith
    | inr (u, e) ↦ (
      u,
      (e, ground (arith, by_id u k e), ground (arith, by_id u k e)),
      ground (arith, by_id u k e),
    )
  ]

  pub challenged_open :
      (check : User → Exec (Reply Tokens)) (u : User)
      → UserKeys s
      → IsOpen now t s u
      → challenged (on_tables p) jti now check (pending t s) s ≡ check u s
  unfolding challenged is_mfa_locked
  challenged_open check u k h = ground (arith, by_id u k h.0)

  check_totp_sound :
      (code : Text) (u : User) (tokens : Tokens)
      → (check_totp (on_tables p) jti now code u s).0 ≡ ok (done tokens)
      → ((secret : Text) × (decrypt p u.mfa_secret ≡ ok secret)
          × (p.totp.verify code secret now ≡ true))
        × (tokens ≡ generate_tokens p jti now u.id u.email)
  unfolding check_totp increment_mfa_failed_attempts reset_mfa_failed_attempts clear_mfa_temp_token
      generate_tokens
  check_totp_sound code u tokens h = elim (Result-cases (decrypt p u.mfa_secret)) [
    | inl (secret, e) ↦ (
      (secret, e, ground (arith, decrypt_tables p u.mfa_secret)),
      ground (arith, decrypt_tables p u.mfa_secret),
    )
    | inr (fault, e) ↦ ground (arith, decrypt_tables p u.mfa_secret)
  ]

  check_biometric_sound :
      (device : BodyField) (u : User) (tokens : Tokens)
      → first (λ x. same x.id u.id) s.users ≡ some u
      → (check_biometric (on_tables p) jti now device u s).0 ≡ ok (done tokens)
      → (u.biometric_enabled ≡ true)
        × (equals_field u.device_biometric_id device ≡ true)
        × (tokens ≡ generate_tokens p jti now u.id u.email)
  unfolding check_biometric increment_mfa_failed_attempts reset_mfa_failed_attempts
      clear_mfa_temp_token generate_tokens validate_biometric
  check_biometric_sound device u tokens e h = ground arith

  check_backup_refused :
      (iv : List ℕ) (code : Text) (u : User) (stored : Text) (tokens : Tokens)
      → u.mfa_backup_codes ≡ some stored
      → p.json.parse stored ≡ syntax_error
      → (check_backup (on_tables p) jti now iv code u s).0 ≢ ok (done tokens)
  unfolding check_backup increment_mfa_failed_attempts reset_mfa_failed_attempts
      clear_mfa_temp_token update_backup_codes validate_backup_code
  check_backup_refused iv code u stored tokens e j = λ h. ground arith

  pub wrong_totp :
      (code secret : Text) (u : User)
      → first (λ x. same x.id u.id) s.users ≡ some u
      → decrypt p u.mfa_secret ≡ ok secret
      → p.totp.verify code secret now ≡ false
      → check_totp (on_tables p) jti now code u s ≡ (
        ok (refused "Código MFA incorrecto"),
        record s { users = put (λ x. same x.id u.id) (fail_mfa now u) s.users },
      )
  unfolding check_totp increment_mfa_failed_attempts
  wrong_totp code secret u e d w = ground (arith, decrypt_tables p u.mfa_secret)

  -- The rows after the writes of a right code: the failures and then the temporary token are cleared.
  pub right_totp :
      (code secret : Text) (u : User)
      → decrypt p u.mfa_secret ≡ ok secret
      → p.totp.verify code secret now ≡ true
      → check_totp (on_tables p) jti now code u s ≡ (
        ok (done (generate_tokens p jti now u.id u.email)),
        record s {
          users =
              rewrite
                (λ x. same x.id u.id)
                (λ x. record x {
                  mfa_temp_token = none;
                  mfa_temp_token_expires = none;
                  mfa_last_verified = some now;
                })
                (rewrite (λ x. same x.id u.id) clear_mfa s.users);
        },
      )
  unfolding check_totp reset_mfa_failed_attempts clear_mfa_temp_token generate_tokens
  right_totp code secret u d w = ground (arith, decrypt_tables p u.mfa_secret)

  pub verify_tables :
      (code : Text) (tokens : Tokens)
      → UserKeys s
      → (verify (on_tables p) jti now t code s).0 ≡ ok (done tokens)
      → (u : User) × IsOpen now t s u
        × ((secret : Text) × (decrypt p u.mfa_secret ≡ ok secret)
            × (p.totp.verify code secret now ≡ true))
        × (tokens ≡ generate_tokens p jti now u.id u.email)
  unfolding verify find_by_mfa_temp_token pending
  verify_tables code tokens k h =
      let (u, is_open, checked) =
        challenged_sound (check_totp (on_tables p) jti now code) tokens k h in
      let (factor, same_tokens) = check_totp_sound code u tokens checked in
      (u, is_open, factor, same_tokens)

  pub verify_biometric_tables :
      (device : BodyField) (tokens : Tokens)
      → UserKeys s
      → (verify_biometric (on_tables p) jti now t device s).0 ≡ ok (done tokens)
      → (u : User) × IsOpen now t s u
        × (u.biometric_enabled ≡ true)
        × (equals_field u.device_biometric_id device ≡ true)
        × (tokens ≡ generate_tokens p jti now u.id u.email)
  unfolding verify_biometric find_by_mfa_temp_token pending
  verify_biometric_tables device tokens k h =
      let (u, is_open, checked) =
        challenged_sound (check_biometric (on_tables p) jti now device) tokens k h in
      let (enabled, device_held, same_tokens) =
        check_biometric_sound device u tokens (by_id u k is_open.0) checked in
      (u, is_open, enabled, device_held, same_tokens)

  pub verify_backup_tables :
      (iv : List ℕ) (code stored : Text) (u : User) (tokens : Tokens)
      → UserKeys s
      → pending t s ≡ some u
      → u.mfa_backup_codes ≡ some stored
      → p.json.parse stored ≡ syntax_error
      → (verify_backup (on_tables p) jti now iv t code s).0 ≢ ok (done tokens)
  unfolding verify_backup find_by_mfa_temp_token pending
  verify_backup_tables iv code stored u tokens k e c j = λ h.
      let (v, is_open, checked) =
        challenged_sound (check_backup (on_tables p) jti now iv code) tokens k h in
      let same_row : u ≡ v = cc (is_open.0) in
      check_backup_refused iv code v stored tokens
        (subst (λ (w : User). w.mfa_backup_codes ≡ some stored) same_row c) j checked
