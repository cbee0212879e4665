-- ===== src/Mfa/SignIn.antt =====
-- A whole sign-in with a second factor: `login` of src/auth/auth.service.ts, then `verify` of
-- src/auth/mfa/mfa.controller.ts with the temporary token that it gave out.
use proyecto_verde_auth.Audit.Service.{log}
use proyecto_verde_auth.Auth.Jwt.{generate_tokens}
use proyecto_verde_auth.Auth.Login.{user_of, UserKeys, Admissible}
use proyecto_verde_auth.Auth.Service.{Draws, Origin, login, needs_mfa, temp_token_time}
use proyecto_verde_auth.Base.{
  ℕ, ◌+◌, ◌≤◌, ◌≡◌, refl, true, false, some, none, Text, All, holds, same, same_refl, first-put,
  first-holds, first-All, first-rewrite_new, rewrite_sole, put, put-All, put-Distinct, rewrite,
  rewrite-Distinct, arith, le→ltb_false,
}
use proyecto_verde_auth.Crypt.Token.{decrypt}
use proyecto_verde_auth.Exec.{System, ok}
use proyecto_verde_auth.Mfa.Challenge.{pending}
use proyecto_verde_auth.Mfa.Guarantees.{Sole, verify_ends_login}
use proyecto_verde_auth.Mfa.Handlers.{done}
use proyecto_verde_auth.Mfa.Verify.{verify, is_expired}
use proyecto_verde_auth.Platform.{Platform, IsDatabase, IsDatabase-eq, on_tables}
use proyecto_verde_auth.Users.Entity.{User}
use proyecto_verde_auth.Users.Service.{
  find_by_email, validate_password, increment_failed_attempts, reset_failed_attempts,
  set_mfa_temp_token, later_than, clear_login,
}

-- The row after the password of an account with a second factor was right.
unfoldable pub asked : Text → ℕ → User → User
asked t expires u = record u { mfa_temp_token = some t; mfa_temp_token_expires = some expires }

module _ (p : Platform) (d : Draws) (now : ℕ) (o : Origin) (email password : Text) (s : System)
    (u : User) (admissible : Admissible p now email password s u)
    (enabled : u.mfa_enabled ≡ true) where
  abbrev pub expires : ℕ
  expires = now + temp_token_time

  asks_run :
      let (r, s1) = login (on_tables p) d now o email password s in
      (r ≡ ok (needs_mfa d.temp_token u.preferred_mfa_method u.biometric_enabled))
      × (s1.users
          ≡ rewrite
              (λ x. same x.id u.id)
              (asked d.temp_token expires)
              (put (λ x. same x.id u.id) (clear_login u) s.users))
  unfolding login find_by_email validate_password reset_failed_attempts increment_failed_attempts
      set_mfa_temp_token log user_of asked
  asks_run = ground arith

  module _ (keys : UserKeys s)
      (new : All (λ (x : User). holds x.mfa_temp_token d.temp_token ≡ false) s.users) where
    asks_tables :
        let s1 = (login (on_tables p) d now o email password s).1 in
        let v = asked d.temp_token expires (clear_login u) in
        UserKeys s1 × (pending d.temp_token s1 ≡ some v) × Sole d.temp_token u.id s1
    unfolding asked clear_login pending user_of
    asks_tables =
        let us = put (λ (x : User). same x.id u.id) (clear_login u) s.users in
        let own =
          first-All (λ (x : User). holds x.mfa_temp_token d.temp_token ≡ false)
            (λ x. same x.email email) s.users u new admissible.0 in
        let ks = put-Distinct (λ (x : User). x.id) (clear_login u) s.users keys in
        let news =
          put-All (λ (x : User). holds x.mfa_temp_token d.temp_token ≡ false) (λ x. same x.id u.id)
            (clear_login u) s.users own new in
        rw asks_run.1 (
          rewrite-Distinct (λ (x : User). x.id) (λ x. same x.id u.id) (asked d.temp_token expires)
              us (λ x. refl) ks,
          first-rewrite_new (λ (x : User). x.id) (λ x. holds x.mfa_temp_token d.temp_token)
              (λ x. same x.email email) (asked d.temp_token expires) (clear_login u) us ks
              (first-put (λ (x : User). x.id) (λ x. same x.email email) u (clear_login u) s.users
                keys admissible.0 refl
                (first-holds (λ (x : User). same x.email email) s.users u admissible.0))
              news (same_refl d.temp_token),
          rewrite_sole (λ (x : User). x.id) (λ x. holds x.mfa_temp_token d.temp_token)
              (asked d.temp_token expires) u.id us (λ x. refl) news,
        )

    pub asks :
        IsDatabase p
        → let (r, s1) = login p d now o email password s in
          (r ≡ ok (needs_mfa d.temp_token u.preferred_mfa_method u.biometric_enabled))
          × UserKeys s1
          × (pending d.temp_token s1 ≡ some (asked d.temp_token expires (clear_login u)))
          × Sole d.temp_token u.id s1
    asks db =
        let (ks, waiting, sole) = asks_tables in
        rw (IsDatabase-eq p db) (asks_run.0, ks, waiting, sole)

    -- On a documented database whose users have distinct ids, for an account that is not locked and has a
    -- second factor, and a temporary token that no row holds: `login` with the right password asks for the
    -- second factor and gives that token, and `verify` with it, within five minutes, while the second factor
    -- is not locked, and with a code that the TOTP library accepts for the account's decrypted secret, gives
    -- the account's tokens and ends the pending login.
    pub login-verify :
        IsDatabase p
        → (jti : Text) (later : ℕ) (code secret : Text) → later ≤ now + temp_token_time
        → later_than u.mfa_locked_until later ≡ false
        → decrypt p u.mfa_secret ≡ ok secret
        → p.totp.verify code secret later ≡ true
        → let (r, s1) = login p d now o email password s in
          let (r', s2) = verify p jti later d.temp_token code s1 in
          (r ≡ ok (needs_mfa d.temp_token u.preferred_mfa_method u.biometric_enabled))
          × (r' ≡ ok (done (generate_tokens p jti later u.id u.email)))
          × (pending d.temp_token s2 ≡ none)
    unfolding asked clear_login is_expired
    login-verify db jti later code secret h unlocked d' right =
        let s1 = (login p d now o email password s).1 in
        let v = asked d.temp_token expires (clear_login u) in
        let (answer, ks, waiting, sole) = asks db in
        let (tokens, ended) =
          verify_ends_login p jti later d.temp_token s1 db ks code secret v
            (waiting, le→ltb_false expires later h, unlocked) sole d' right in
        (answer, tokens, ended)
