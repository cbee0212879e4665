-- ===== src/Auth/Admin.antt =====
-- src/auth/admin.controller.ts: both handlers find a user by email and rewrite its row.
use proyecto_verde_auth.Base.{
  false, ◌++◌, Option, none, some, Text, codes, Bool, true, same, BodyField, shown,
}
use proyecto_verde_auth.Exec.{Exec, pure, gets, ◌>>=◌, ◌>>◌}
use proyecto_verde_auth.Platform.{Platform}
use proyecto_verde_auth.Users.Entity.{User}
use proyecto_verde_auth.Users.Service.{update_user, find_user_where}

-- `{ success, message }`
pub record Reply : Type 0 where
  pub success : Bool
  pub message : Text

unfoldable pub unlocked : User → User
unlocked u = record u {
  failed_attempts = 0;
  locked_until = none;
  mfa_failed_attempts = 0;
  mfa_locked_until = none;
}

unfoldable pub cleared : User → User
cleared u = record u {
  failed_attempts = 0;
  locked_until = none;
  mfa_enabled = false;
  mfa_secret = none;
  mfa_backup_codes = none;
  mfa_temp_token = none;
  mfa_temp_token_expires = none;
  mfa_last_verified = none;
  mfa_failed_attempts = 0;
  mfa_locked_until = none;
}

module _ (p : Platform) where
  -- `userRepository.findOne({ where: { email } })`
  unfoldable pub find_user : Text → Exec (Option User)
  find_user email = gets (λ s. p.users.find_one (λ u. same u.email email) s.users)

  unfoldable pub rewrite_found : (User → User) → Text → Option User → Exec Reply
  rewrite_found f message none = pure (record { success = false; message = codes "User not found" })
  rewrite_found f message (some u) = do
    update_user p u.id f
    pure (record { success = true; message = message })

  unfoldable pub unlock_user : Text → Exec Reply
  unfolding find_user rewrite_found unlocked
  unlock_user email = do
    found ← find_user email
    rewrite_found unlocked (codes "User " ++ email ++ codes " has been unlocked") found

  unfoldable pub reset_user : Text → Exec Reply
  unfolding find_user rewrite_found cleared
  reset_user email = do
    found ← find_user email
    rewrite_found cleared (codes "User " ++ email ++ codes " has been reset") found

  -- The handlers on a body as it comes.
  unfoldable pub unlock_body : BodyField → Exec Reply
  unfolding find_user_where find_user rewrite_found unlocked shown
  unlock_body email = do
    found ← find_user_where p find_user email
    rewrite_found unlocked (codes "User " ++ shown email ++ codes " has been unlocked") found

  unfoldable pub reset_body : BodyField → Exec Reply
  unfolding find_user_where find_user rewrite_found cleared shown
  reset_body email = do
    found ← find_user_where p find_user email
    rewrite_found cleared (codes "User " ++ shown email ++ codes " has been reset") found
