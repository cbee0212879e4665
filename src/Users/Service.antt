-- ===== src/Users/Service.antt =====
-- src/users/users.service.ts, method by method. `now` is the instant of the request.
use proyecto_verde_auth.Base.{
  ℕ, ◌+◌, Bool, true, false, ◌&&◌, Option, none, some, Text, same, holds, ltb, leb, if◌then◌else◌,
  BodyField, undefined, null_field, text_field,
}
use proyecto_verde_auth.Exec.{Exec, pure, gets, modify, ◌>>=◌, ◌>>◌}
use proyecto_verde_auth.Platform.{Platform}
use proyecto_verde_auth.Users.Entity.{User, totp, biometric}

-- 15 * 60 * 1000
abbrev pub lock_time : ℕ
lock_time = 900_000

-- The fields that a failed password changes.
unfoldable pub fail_login : ℕ → User → User
fail_login now u =
    let n = u.failed_attempts + 1 in
    record u {
      failed_attempts = n;
      locked_until = if leb 5 n then some (now + lock_time) else u.locked_until;
    }

unfoldable pub clear_login : User → User
clear_login u = record u { failed_attempts = 0; locked_until = none }

-- The fields that a failed second factor changes.
unfoldable pub fail_mfa : ℕ → User → User
fail_mfa now u =
    let n = u.mfa_failed_attempts + 1 in
    record u {
      mfa_failed_attempts = n;
      mfa_locked_until = if leb 3 n then some (now + lock_time) else u.mfa_locked_until;
    }

unfoldable pub clear_mfa : User → User
clear_mfa u = record u { mfa_failed_attempts = 0; mfa_locked_until = none }

-- `user.mfaLockedUntil !== null && new Date(user.mfaLockedUntil) > new Date()`
unfoldable pub later_than : Option ℕ → ℕ → Bool
later_than none now = false
later_than (some t) now = ltb now t

-- The column after an update by the field: TypeORM leaves undefined values out.
unfoldable pub updated_by : BodyField → Option Text → Option Text
updated_by undefined old = old
updated_by null_field old = none
updated_by (text_field t) old = some t

-- `column === field`
unfoldable pub equals_field : Option Text → BodyField → Bool
equals_field none null_field = true
equals_field (some stored) (text_field t) = same stored t
equals_field none undefined = false
equals_field none (text_field t) = false
equals_field (some stored) undefined = false
equals_field (some stored) null_field = false

-- A row as `create` and the column defaults make it; the database draws its id.
unfoldable pub new_user : Text → Text → Text → User
new_user id email password_hash = record {
  id = id;
  email = email;
  password_hash = password_hash;
  is_active = true;
  failed_attempts = 0;
  locked_until = none;
  mfa_enabled = false;
  mfa_secret = none;
  mfa_backup_codes = none;
  mfa_temp_token = none;
  mfa_temp_token_expires = none;
  mfa_last_verified = none;
  mfa_failed_attempts = 0;
  mfa_locked_until = none;
  biometric_enabled = false;
  device_biometric_id = none;
  preferred_mfa_method = totp;
}

module _ (p : Platform) where
  -- `findOne({ where: { column: field } })`: TypeORM leaves out a condition whose value is undefined or null.
  unfoldable pub find_user_where : (Text → Exec (Option User)) → BodyField → Exec (Option User)
  find_user_where find (text_field t) = find t
  find_user_where find undefined = gets (λ s. p.users.find_one (λ u. true) s.users)
  find_user_where find null_field = gets (λ s. p.users.find_one (λ u. true) s.users)

  unfoldable pub find_by_email : Text → Exec (Option User)
  find_by_email email = gets (λ s. p.users.find_one (λ u. same u.email email) s.users)

  unfoldable pub find_by_id : Text → Exec (Option User)
  find_by_id id = gets (λ s. p.users.find_one (λ u. same u.id id) s.users)

  unfoldable pub find_by_mfa_temp_token : Text → Exec (Option User)
  find_by_mfa_temp_token token =
      gets (λ s. p.users.find_one (λ u. holds u.mfa_temp_token token) s.users)

  -- `userRepository.save(user)`
  abbrev pub save_user : User → Exec Unit
  save_user u = modify (λ s. record s { users = p.users.save u s.users })

  -- `userRepository.update(userId, …)`
  abbrev pub update_user : Text → (User → User) → Exec Unit
  update_user id f = modify (λ s. record s { users = p.users.update (λ u. same u.id id) f s.users })

  unfoldable pub create : Text → Text → Text → Text → Exec User
  unfolding new_user
  create id salt email password =
      let u = new_user id email (p.bcrypt.hash salt password) in do save_user u; pure u

  unfoldable pub validate_password : User → Text → Bool
  validate_password u password = p.bcrypt.compare password u.password_hash

  unfoldable pub increment_failed_attempts : ℕ → User → Exec Unit
  unfolding fail_login
  increment_failed_attempts now u = save_user (fail_login now u)

  unfoldable pub reset_failed_attempts : User → Exec Unit
  unfolding clear_login
  reset_failed_attempts u = save_user (clear_login u)

  unfoldable pub enable_mfa : Text → Text → Exec Unit
  enable_mfa id encrypted =
      update_user id (λ u. record u { mfa_enabled = true; mfa_backup_codes = some encrypted })

  unfoldable pub disable_mfa : Text → Exec Unit
  disable_mfa id = update_user id λ u. record u {
    mfa_enabled = false;
    mfa_secret = none;
    mfa_backup_codes = none;
    mfa_temp_token = none;
    mfa_temp_token_expires = none;
    mfa_failed_attempts = 0;
    mfa_locked_until = none;
  }

  unfoldable pub clear_mfa_temp_token : ℕ → Text → Exec Unit
  clear_mfa_temp_token now id = update_user id λ u. record u {
    mfa_temp_token = none;
    mfa_temp_token_expires = none;
    mfa_last_verified = some now;
  }

  unfoldable pub update_backup_codes : Text → Text → Exec Unit
  update_backup_codes id encrypted =
      update_user id (λ u. record u { mfa_backup_codes = some encrypted })

  unfoldable pub set_mfa_temp_token : Text → Text → ℕ → Exec Unit
  set_mfa_temp_token id token expires =
      update_user id
        (λ u. record u { mfa_temp_token = some token; mfa_temp_token_expires = some expires })

  unfoldable pub set_mfa_secret : Text → Text → Exec Unit
  set_mfa_secret id encrypted = update_user id (λ u. record u { mfa_secret = some encrypted })

  -- The save of a row that `findById` found, if it found one.
  unfoldable pub save_failure : ℕ → Option User → Exec Unit
  unfolding fail_mfa
  save_failure now none = pure tt
  save_failure now (some u) = save_user (fail_mfa now u)

  unfoldable pub increment_mfa_failed_attempts : ℕ → Text → Exec Unit
  unfolding save_failure find_by_id
  increment_mfa_failed_attempts now id = do found ← find_by_id id; save_failure now found

  unfoldable pub reset_mfa_failed_attempts : Text → Exec Unit
  unfolding clear_mfa
  reset_mfa_failed_attempts id = update_user id clear_mfa

  abbrev locked_at : ℕ → Option User → Bool
  locked_at now none = false
  locked_at now (some u) = later_than u.mfa_locked_until now

  unfoldable pub is_mfa_locked : ℕ → Text → Exec Bool
  unfolding find_by_id later_than
  is_mfa_locked now id = do found ← find_by_id id; pure (locked_at now found)

  unfoldable pub enable_biometric : Text → BodyField → Exec Unit
  unfolding updated_by
  enable_biometric id device = update_user id λ u. record u {
    biometric_enabled = true;
    device_biometric_id = updated_by device u.device_biometric_id;
    preferred_mfa_method = biometric;
  }

  unfoldable pub disable_biometric : Text → Exec Unit
  disable_biometric id = update_user id λ u. record u {
    biometric_enabled = false;
    device_biometric_id = none;
    preferred_mfa_method = totp;
  }

  abbrev has_device : BodyField → Option User → Bool
  has_device device none = false
  has_device device (some u) = u.biometric_enabled && equals_field u.device_biometric_id device

  unfoldable pub validate_biometric : Text → BodyField → Exec Bool
  unfolding find_by_id equals_field
  validate_biometric id device = do found ← find_by_id id; pure (has_device device found)
