-- ===== src/Auth/Service.antt =====
-- src/auth/auth.service.ts: login, refresh and logout. `now` is the instant of the request, and `Draws` what
-- it draws: the random texts and the generated ids.
use proyecto_verde_auth.Base.{
  ℕ, ◌+◌, Bool, true, false, Option, none, some, Text, codes, if◌then◌else◌, BodyField, undefined,
  null_field, text_field,
}
use proyecto_verde_auth.Audit.Service.{log}
use proyecto_verde_auth.Auth.Jwt.{
  Tokens, generate_access_token, generate_refresh_token, verify_refresh_token,
}
use proyecto_verde_auth.Exec.{
  Exec, Exception, unauthorized, forbidden, illegal_arguments, pure, throw, ◌>>=◌, ◌>>◌,
}
use proyecto_verde_auth.Platform.{Platform, Payload}
use proyecto_verde_auth.Sessions.Service.{
  SessionDraws, create_refresh_token, validate_refresh_token, revoke_session,
}
use proyecto_verde_auth.Users.Entity.{User, MfaMethod}
use proyecto_verde_auth.Users.Service.{
  find_by_email, find_by_id, validate_password, increment_failed_attempts, reset_failed_attempts,
  set_mfa_temp_token, later_than, find_user_where,
}

pub record Draws : Type 0 where
  pub temp_token : Text
  pub jti : Text
  pub session : SessionDraws
  pub audit_id : Text

-- The client's address and user agent.
pub record Origin : Type 0 where
  pub ip : Text
  pub device : Text

-- What `login` returns: the second factor is asked for, or the tokens are given.
pub data LoginReply : Type 0 where
  needs_mfa : Text → MfaMethod → Bool → LoginReply
  signed_in : Tokens → LoginReply

-- 5 * 60 * 1000
abbrev pub temp_token_time : ℕ
temp_token_time = 300_000

module _ (p : Platform) (d : Draws) (now : ℕ) (o : Origin) where
  -- `auditLogService.log(action, userId, ip, device, success)`
  abbrev pub audit : Text → Option Text → Bool → Exec Unit
  audit action user success = log p d.audit_id now action user (some o.ip) (some o.device) success

  unfoldable pub start_mfa : User → Exec LoginReply
  start_mfa u = do
    set_mfa_temp_token p u.id d.temp_token (now + temp_token_time)
    audit (codes "MFA_PENDING") (some u.id) true
    pure (needs_mfa d.temp_token u.preferred_mfa_method u.biometric_enabled)

  -- The tokens, and a session for another, random token.
  unfoldable pub issue : Text → User → Exec Tokens
  issue action u = do
    create_refresh_token p d.session now u.id o.device o.ip
    audit action (some u.id) true
    pure record {
      access_token = generate_access_token p now u.id u.email;
      refresh_token = generate_refresh_token p d.jti now u.id;
      expires_in = 900;
    }

  -- The failure is logged, then thrown.
  unfoldable pub refuse : Text → Option Text → Exception → Exec LoginReply
  refuse action user e = audit action user false >> throw e

  -- After a right password.
  unfoldable pub admit : User → Exec LoginReply
  unfolding start_mfa issue
  admit u = do
    reset_failed_attempts p u
    if u.mfa_enabled
        then start_mfa u
        else (issue (codes "LOGIN_SUCCESS") u >>= λ tokens. pure (signed_in tokens))

  unfoldable pub login_user : Text → Option User → Exec LoginReply
  unfolding refuse admit
  login_user password none =
      refuse (codes "LOGIN_FAILED") none (unauthorized "Credenciales inválidas")
  login_user password (some u) =
      if later_than u.locked_until now
      then refuse (codes "LOGIN_LOCKED") (some u.id)
          (forbidden "Cuenta bloqueada. Intente más tarde.")
      else if validate_password p u password
      then admit u
      else (increment_failed_attempts p now u
          >> refuse (codes "LOGIN_FAILED") (some u.id) (unauthorized "Credenciales inválidas"))

  unfoldable pub login : Text → Text → Exec LoginReply
  unfolding login_user
  login email password = do found ← find_by_email p email; login_user password found

  -- Without a password: bcryptjs throws where it is compared.
  unfoldable pub login_no_password : Option User → Exec LoginReply
  unfolding refuse
  login_no_password none =
      refuse (codes "LOGIN_FAILED") none (unauthorized "Credenciales inválidas")
  login_no_password (some u) =
      if later_than u.locked_until now
      then refuse (codes "LOGIN_LOCKED") (some u.id)
          (forbidden "Cuenta bloqueada. Intente más tarde.")
      else throw illegal_arguments

  unfoldable pub login_field : BodyField → Option User → Exec LoginReply
  unfolding login_user login_no_password
  login_field (text_field password) found = login_user password found
  login_field undefined found = login_no_password found
  login_field null_field found = login_no_password found

  -- `login` on a body as it comes.
  unfoldable pub login_body : BodyField → BodyField → Exec LoginReply
  unfolding find_user_where login_field
  login_body email password = do
    found ← find_user_where p (find_by_email p) email
    login_field password found

  -- The tokens of an active user; the session of the token shown is revoked.
  unfoldable pub rotate : Text → Option User → Exec Tokens
  unfolding issue
  rotate token none = throw (unauthorized "Usuario no encontrado o inactivo")
  rotate token (some u) =
      if u.is_active
      then (revoke_session p u.id token >> issue (codes "TOKEN_REFRESH") u)
      else throw (unauthorized "Usuario no encontrado o inactivo")

  unfoldable pub refresh_payload_of : Text → Option Payload → Exec Tokens
  unfolding rotate
  refresh_payload_of token none = throw (unauthorized "Refresh token inválido")
  refresh_payload_of token (some claims) = do
    valid ← validate_refresh_token p now claims.sub token
    if valid
        then (find_by_id p claims.sub >>= rotate token)
        else throw (unauthorized "Refresh token inválido o expirado")

  unfoldable pub refresh : Text → Exec Tokens
  unfolding refresh_payload_of
  refresh token = refresh_payload_of token (verify_refresh_token p now token)

  unfoldable pub logout : Text → Text → Exec Unit
  logout token user = do revoke_session p user token; audit (codes "LOGOUT") (some user) true
