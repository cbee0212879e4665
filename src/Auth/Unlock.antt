-- ===== src/Auth/Unlock.antt =====
-- Signing in after src/auth/admin.controller.ts has unlocked an account.
use proyecto_verde_auth.Auth.Admin.{unlock_user, find_user, rewrite_found, unlocked}
use proyecto_verde_auth.Auth.Jwt.{generate_access_token, generate_refresh_token}
use proyecto_verde_auth.Auth.Login.{user_of, UserKeys, login_admits}
use proyecto_verde_auth.Auth.Service.{Draws, Origin, login, signed_in}
use proyecto_verde_auth.Base.{
  ℕ, ◌≡◌, refl, false, true, some, Text, first-holds, first-rewrite, same,
}
use proyecto_verde_auth.Exec.{System, ok}
use proyecto_verde_auth.Platform.{Platform, IsDatabase, IsDatabase-eq, on_tables}
use proyecto_verde_auth.Users.Entity.{User}
use proyecto_verde_auth.Users.Service.{later_than}

module _ (p : Platform) (email : Text) (s : System) (u : User) (keys : UserKeys s)
    (found : user_of email s ≡ some u) where
  unlock_tables : user_of email (unlock_user (on_tables p) email s).1 ≡ some (unlocked u)
  unfolding unlock_user find_user rewrite_found user_of unlocked
  unlock_tables = rw found (
      first-rewrite (λ (x : User). x.id) (λ (x : User). same x.email email) unlocked u u.id s.users
        keys found refl (first-holds (λ (x : User). same x.email email) s.users u found))

  unlock_row : IsDatabase p → user_of email (unlock_user p email s).1 ≡ some (unlocked u)
  unlock_row db = rw (IsDatabase-eq p db) unlock_tables

  is_unlocked : (now : ℕ) → later_than (unlocked u).locked_until now ≡ false
  unfolding later_than unlocked
  is_unlocked now = refl

  -- On a documented database whose users have distinct ids: after `unlockUser` for the email of an account
  -- without a second factor, whatever its failures and locks were, `login` with a password that
  -- matches the account's hash gives its signed tokens, at any instant.
  pub login-unlock :
      IsDatabase p
      → (d : Draws) (now : ℕ) (o : Origin) (password : Text)
      → p.bcrypt.compare password u.password_hash ≡ true
      → u.mfa_enabled ≡ false
      → (login p d now o email password (unlock_user p email s).1).0
        ≡ ok (
            signed_in (record {
              access_token = generate_access_token p now u.id u.email;
              refresh_token = generate_refresh_token p d.jti now u.id;
              expires_in = 900;
            }))
  unfolding unlocked
  login-unlock db d now o password right alone =
      login_admits p d now o email password (unlock_user p email s).1 db (unlocked u)
        (unlock_row db, is_unlocked now, right) alone
