-- ===== src/Seed/Scripts.antt =====
-- src/database/seed/admin-user.seed.ts and src/database/seed/reset-users.ts. The connection and the console are
-- left out; the salts and ids that are drawn are arguments.
use proyecto_verde_auth.Base.{
  ℕ, ◌+◌, true, false, List, [], ◌∷◌, Option, none, some, Text, codes, same, if◌then◌else◌,
}
use proyecto_verde_auth.Exec.{Exec, pure, gets, modify, ◌>>=◌, ◌>>◌}
use proyecto_verde_auth.Platform.{Platform}
use proyecto_verde_auth.Users.Entity.{User, totp}
use proyecto_verde_auth.Users.Service.{new_user, save_user}

-- The id and the salt of a new row.
pub record RowDraws : Type 0 where
  pub id : Text
  pub salt : Text

-- The columns that the reset writes.
unfoldable pub reset_row : User → User
reset_row u = record u {
  failed_attempts = 0;
  locked_until = none;
  mfa_enabled = false;
  mfa_secret = none;
  mfa_backup_codes = none;
  mfa_temp_token = none;
  mfa_temp_token_expires = none;
  mfa_last_verified = none;
  mfa_failed_attempts = 0;
  mfa_locked_until = none;
  biometric_enabled = false;
  device_biometric_id = none;
  preferred_mfa_method = totp;
}

abbrev pub admin_email : Text
admin_email = codes "admin@bancoverde.com"

unfoldable pub seed_password : Text → Text
seed_password email = if same email admin_email then codes "Admin123!" else codes "Test123!"

module _ (p : Platform) where
  unfoldable pub add_unless : RowDraws → Text → Text → Option User → Exec Unit
  add_unless d email password none =
      save_user p (new_user d.id email (p.bcrypt.hash d.salt password))
  add_unless d email password (some u) = pure tt

  -- A row for an email, unless there is one.
  unfoldable pub ensure_user : RowDraws → Text → Text → Exec Unit
  unfolding add_unless
  ensure_user d email password = do
    existing ← gets (λ s. p.users.find_one (λ u. same u.email email) s.users)
    add_unless d email password existing

  unfoldable pub seed_admin_user : RowDraws → Exec Unit
  unfolding ensure_user
  seed_admin_user d = ensure_user d admin_email (codes "Admin123!")

  unfoldable pub rehash : (ℕ → Text) → ℕ → List User → Exec Unit
  unfolding seed_password
  rehash salt i [] = pure tt
  rehash salt i (u ∷ rest) =
      save_user p (record u { password_hash = p.bcrypt.hash (salt i) (seed_password u.email) })
      >> rehash salt (i + 1) rest

  abbrev pub reset_all : Exec Unit
  reset_all = modify (λ s. record s { users = p.users.update (λ _. true) reset_row s.users })

  -- On the rows that were read after the reset.
  unfoldable pub set_passwords : (ℕ → Text) → (ℕ → RowDraws) → List User → Exec Unit
  unfolding rehash ensure_user
  set_passwords salt d users = do
    rehash salt 0 users
    ensure_user (d 0) (codes "test1@bancoverde.com") (codes "Test123!")
    ensure_user (d 1) (codes "test2@bancoverde.com") (codes "Test123!")
    ensure_user (d 2) (codes "mfauser@bancoverde.com") (codes "Test123!")

  unfoldable pub reset_users : (ℕ → Text) → (ℕ → RowDraws) → Exec Unit
  unfolding set_passwords reset_row
  reset_users salt d =
      reset_all >> (gets (λ s. p.users.find (λ _. true) s.users) >>= set_passwords salt d)
