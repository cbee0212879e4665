-- ===== src/Auth/Login.antt =====
-- What a login answers and writes, for each kind of attempt. Proofs run on plain tables and are carried
-- to every documented database by `IsDatabase-eq`.
use proyecto_verde_auth.Base.{
  ℕ, ◌≡◌, refl, true, false, Option, some, Text, arith, same, first, Distinct, first-put, put,
  put-Distinct, first-holds,
}
use proyecto_verde_auth.Audit.Service.{log}
use proyecto_verde_auth.Auth.Jwt.{Tokens, generate_access_token, generate_refresh_token}
use proyecto_verde_auth.Auth.Service.{Draws, Origin, login, signed_in}
use proyecto_verde_auth.Exec.{System, ok, throws, unauthorized, forbidden}
use proyecto_verde_auth.Platform.{Platform, IsDatabase, IsDatabase-eq, on_tables}
use proyecto_verde_auth.Sessions.Service.{create_refresh_token}
use proyecto_verde_auth.Users.Entity.{User}
use proyecto_verde_auth.Users.Service.{
  find_by_email, validate_password, increment_failed_attempts, reset_failed_attempts,
  set_mfa_temp_token, later_than, fail_login,
}

-- The row that an email names.
unfoldable pub user_of : Text → System → Option User
user_of email s = first (λ u. same u.email email) s.users

abbrev pub UserKeys : System → Type 0
UserKeys s = Distinct (λ (u : User). u.id) s.users

-- The attempt would be let in: an account with this email, not locked, and its password.
abbrev pub Admissible : Platform → ℕ → Text → Text → System → User → Type 0
Admissible p now email password s u =
    (user_of email s ≡ some u)
    × (later_than u.locked_until now ≡ false)
    × (p.bcrypt.compare password u.password_hash ≡ true)

module _ (p : Platform) (d : Draws) (now : ℕ) (o : Origin) (email password : Text)
    (s : System) where
  signs_in_tables :
      (t : Tokens)
      → (login (on_tables p) d now o email password s).0 ≡ ok (signed_in t)
      → (u : User) × Admissible p now email password s u × (u.mfa_enabled ≡ false)
  unfolding login find_by_email validate_password reset_failed_attempts increment_failed_attempts
      set_mfa_temp_token log create_refresh_token user_of
  signs_in_tables t h = ground arith

  admits_tables :
      (u : User)
      → Admissible p now email password s u
      → u.mfa_enabled ≡ false
      → (login (on_tables p) d now o email password s).0
        ≡ ok (
            signed_in (record {
              access_token = generate_access_token p now u.id u.email;
              refresh_token = generate_refresh_token p d.jti now u.id;
              expires_in = 900;
            }))
  unfolding login find_by_email validate_password reset_failed_attempts increment_failed_attempts
      set_mfa_temp_token log create_refresh_token user_of generate_access_token
      generate_refresh_token
  admits_tables u h m = ground arith

  -- A wrong password: the answer, and the tables afterwards.
  wrong_password_run :
      (u : User)
      → user_of email s ≡ some u
      → later_than u.locked_until now ≡ false
      → p.bcrypt.compare password u.password_hash ≡ false
      → let (r, s') = login (on_tables p) d now o email password s in
        (r ≡ throws (unauthorized "Credenciales inválidas"))
        × (s'.users ≡ put (λ x. same x.id u.id) (fail_login now u) s.users)
        × (s'.sessions ≡ s.sessions)
  unfolding login find_by_email validate_password reset_failed_attempts increment_failed_attempts
      set_mfa_temp_token log create_refresh_token user_of
  wrong_password_run u e l w = ground arith

  wrong_password_tables :
      (u : User)
      → UserKeys s
      → user_of email s ≡ some u
      → later_than u.locked_until now ≡ false
      → p.bcrypt.compare password u.password_hash ≡ false
      → let (r, s') = login (on_tables p) d now o email password s in
        (r ≡ throws (unauthorized "Credenciales inválidas"))
        × (user_of email s' ≡ some (fail_login now u))
        × (s'.sessions ≡ s.sessions)
        × UserKeys s'
  unfolding user_of fail_login
  wrong_password_tables u k e l w =
      let (answer, users, sessions) = wrong_password_run u e l w in
      (
        answer,
        rw users (
            first-put (λ (x : User). x.id) (λ x. same x.email email) u (fail_login now u) s.users k
              e refl (first-holds (λ x. same x.email email) s.users u e)),
        sessions,
        rw users (put-Distinct (λ (x : User). x.id) (fail_login now u) s.users k),
      )

  -- A locked account: the password is not looked at, and no user or session is written.
  locked_tables :
      (u : User)
      → user_of email s ≡ some u
      → later_than u.locked_until now ≡ true
      → let (r, s') = login (on_tables p) d now o email password s in
        (r ≡ throws (forbidden "Cuenta bloqueada. Intente más tarde."))
        × (s'.users ≡ s.users)
        × (s'.sessions ≡ s.sessions)
  unfolding login find_by_email validate_password reset_failed_attempts increment_failed_attempts
      set_mfa_temp_token log create_refresh_token user_of
  locked_tables u e l = ground arith

  module _ (db : IsDatabase p) where
    -- On a documented database, `login` gives tokens only for the email of an account that is not
    -- locked, with a password that matches its hash, and with no second factor enabled.
    pub login_signs_in :
        (t : Tokens)
        → (login p d now o email password s).0 ≡ ok (signed_in t)
        → (u : User) × Admissible p now email password s u × (u.mfa_enabled ≡ false)
    login_signs_in t h = signs_in_tables t (rw (IsDatabase-eq p db) at h)

    -- On a documented database, `login` with the email of an account that is not locked and has no second
    -- factor enabled, and a password that matches its hash, gives the account's signed access and
    -- refresh tokens.
    pub login_admits :
        (u : User)
        → Admissible p now email password s u
        → u.mfa_enabled ≡ false
        → (login p d now o email password s).0
          ≡ ok (
              signed_in (record {
                access_token = generate_access_token p now u.id u.email;
                refresh_token = generate_refresh_token p d.jti now u.id;
                expires_in = 900;
              }))
    unfolding generate_access_token generate_refresh_token
    login_admits u h m = rw (IsDatabase-eq p db) (admits_tables u h m)

    -- On a documented database whose users have distinct ids, a wrong password for an account that is
    -- not locked is answered 401, changes the row found by the email as one failure does (which counts
    -- it, and locks from the fifth on), writes no session and leaves the ids distinct.
    pub login_wrong_password :
        (u : User)
        → UserKeys s
        → user_of email s ≡ some u
        → later_than u.locked_until now ≡ false
        → p.bcrypt.compare password u.password_hash ≡ false
        → let (r, s') = login p d now o email password s in
          (r ≡ throws (unauthorized "Credenciales inválidas"))
          × (user_of email s' ≡ some (fail_login now u))
          × (s'.sessions ≡ s.sessions)
          × UserKeys s'
    login_wrong_password u k e l w = rw (IsDatabase-eq p db) (wrong_password_tables u k e l w)

    -- On a documented database, `login` for a locked account is answered 403 whatever the password, and
    -- no user or session is written.
    pub login_locked :
        (u : User)
        → user_of email s ≡ some u
        → later_than u.locked_until now ≡ true
        → let (r, s') = login p d now o email password s in
          (r ≡ throws (forbidden "Cuenta bloqueada. Intente más tarde."))
          × (s'.users ≡ s.users)
          × (s'.sessions ≡ s.sessions)
    login_locked u e l = rw (IsDatabase-eq p db) (locked_tables u e l)
