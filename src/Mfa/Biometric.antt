-- ===== src/Mfa/Biometric.antt =====
-- Biometrics in src/auth/mfa/mfa.controller.ts: `enableBiometric`, a login, and `verifyBiometric`.
use proyecto_verde_auth.Auth.Guard.{Caller, caller_of, guarded}
use proyecto_verde_auth.Auth.Jwt.{generate_tokens}
use proyecto_verde_auth.Auth.Login.{UserKeys, Admissible}
use proyecto_verde_auth.Auth.Service.{Draws, Origin, login, needs_mfa, temp_token_time}
use proyecto_verde_auth.Base.{
  ℕ, ◌+◌, ◌≤◌, ◌≡◌, refl, true, false, some, none, Option, Text, All, holds, same, same_refl, first,
  rewrite, arith, le→ltb_false, text_field,
}
use proyecto_verde_auth.Exec.{System, ok}
use proyecto_verde_auth.Mfa.Challenge.{pending, IsOpen, by_id, challenged_open}
use proyecto_verde_auth.Mfa.Enrolment.{IsAccount, rewritten, rewritten-IsAccount, found_by_id}
use proyecto_verde_auth.Mfa.Guarantees.{Sole, no_login_left}
use proyecto_verde_auth.Mfa.Handlers.{done, enable_biometric_login, require}
use proyecto_verde_auth.Mfa.SignIn.{asked, asks}
use proyecto_verde_auth.Mfa.Verify.{verify_biometric, check_biometric, is_expired}
use proyecto_verde_auth.Platform.{Platform, IsDatabase, IsDatabase-eq, on_tables}
use proyecto_verde_auth.Users.Entity.{User, biometric}
use proyecto_verde_auth.Users.Service.{
  find_by_id, find_by_mfa_temp_token, enable_biometric, validate_biometric,
  reset_mfa_failed_attempts, clear_mfa_temp_token, later_than, clear_mfa, clear_login, equals_field,
  updated_by,
}

abbrev with_device : Text → User → User
with_device device u = record u {
  biometric_enabled = true;
  device_biometric_id = some device;
  preferred_mfa_method = biometric;
}

module _ (p : Platform) (jti : Text) (now : ℕ) (t : Text) (s : System) where
  right_device :
      (device : Text) (u : User)
      → first (λ (x : User). same x.id u.id) s.users ≡ some u
      → u.biometric_enabled ≡ true
      → u.device_biometric_id ≡ some device
      → check_biometric (on_tables p) jti now (text_field device) u s ≡ (
        ok (done (generate_tokens p jti now u.id u.email)),
        record s {
          users =
              rewrite
                (λ x. same x.id u.id)
                (λ x. record x {
                  mfa_temp_token = none;
                  mfa_temp_token_expires = none;
                  mfa_last_verified = some now;
                })
                (rewrite (λ x. same x.id u.id) clear_mfa s.users);
        },
      )
  unfolding check_biometric reset_mfa_failed_attempts clear_mfa_temp_token generate_tokens
      validate_biometric equals_field
  right_device device u e enabled held = ground (arith, same_refl device)

  device_tables :
      (device : Text) (u : User)
      → UserKeys s
      → IsOpen now t s u
      → Sole t u.id s
      → u.biometric_enabled ≡ true
      → u.device_biometric_id ≡ some device
      → let (r, s') = verify_biometric (on_tables p) jti now t (text_field device) s in
        (r ≡ ok (done (generate_tokens p jti now u.id u.email))) × (pending t s' ≡ none)
  unfolding verify_biometric find_by_mfa_temp_token pending generate_tokens
  device_tables device u k h sole enabled held =
      rw
        (
          challenged_open p jti now t s (check_biometric (on_tables p) jti now (text_field device))
              u k h,
          right_device device u (by_id p jti now t s u k h.0) enabled held,
        )
        (refl, no_login_left p jti now t s u.id sole)

  -- What `verifyBiometric` needs is enough: the tokens come and the pending login ends.
  pub verify_biometric_ends_login :
      IsDatabase p
      → (device : Text) (u : User) → UserKeys s
      → IsOpen now t s u
      → Sole t u.id s
      → u.biometric_enabled ≡ true
      → u.device_biometric_id ≡ some device
      → let (r, s') = verify_biometric p jti now t (text_field device) s in
        (r ≡ ok (done (generate_tokens p jti now u.id u.email))) × (pending t s' ≡ none)
  unfolding generate_tokens
  verify_biometric_ends_login db device u k h sole enabled held =
      rw (IsDatabase-eq p db) (device_tables device u k h sole enabled held)

module _ (p : Platform) (db : IsDatabase p) (d : Draws) (now : ℕ) (o : Origin)
    (email password : Text) (s : System) (u : User)
    (admissible : Admissible p now email password s u) (keys : UserKeys s)
    (new : All (λ (x : User). holds x.mfa_temp_token d.temp_token ≡ false) s.users)
    (enabled : u.mfa_enabled ≡ true) where
  enable_run :
      (n : ℕ) (bearer : Option Text) (c : Caller) (device : Text)
      → first (λ (x : User). same x.id u.id) s.users ≡ some u
      → caller_of p n bearer ≡ some c
      → enable_biometric_login (on_tables p) n bearer u.id (text_field device) s
        ≡ (ok (done tt), rewritten u.id (with_device device) s)
  unfolding enable_biometric_login guarded caller_of find_by_id require enable_biometric updated_by
  enable_run n bearer c device found known = ground arith

  -- On a documented database whose users have distinct ids, for an account that is not locked and has a
  -- second factor, and a temporary token that no row holds: `enableBiometric` under any valid bearer token,
  -- whoever it is of, with the account's id in the header and any device, `login` with the account's
  -- password, and `verifyBiometric` with that device, in this order, within five minutes after the `login`
  -- and while the second factor is not locked, answer with success, the question for the second factor and
  -- the account's tokens, and leave no login pending.
  pub biometric-signs_in :
      (n : ℕ) (bearer : Option Text) (c : Caller) (device : Text)
      → caller_of p n bearer ≡ some c
      → (jti : Text) (later : ℕ) → later ≤ now + temp_token_time
      → later_than u.mfa_locked_until later ≡ false
      → let (r, s1) = enable_biometric_login p n bearer u.id (text_field device) s in
        let (r1, s2) = login p d now o email password s1 in
        let (r2, s3) = verify_biometric p jti later d.temp_token (text_field device) s2 in
        (r ≡ ok (done tt))
        × (r1 ≡ ok (needs_mfa d.temp_token biometric true))
        × (r2 ≡ ok (done (generate_tokens p jti later u.id u.email)))
        × (pending d.temp_token s3 ≡ none)
  unfolding asked clear_login is_expired
  biometric-signs_in n bearer c device known jti later h unlocked =
      let a : IsAccount email d.temp_token u s = record {
        named = admissible.0;
        keys = keys;
        new = new;
      } in
      let enrolled : enable_biometric_login p n bearer u.id (text_field device) s
          ≡ (ok (done tt), rewritten u.id (with_device device) s) =
        rw (IsDatabase-eq p db)
          (enable_run n bearer c device (found_by_id email d.temp_token u s a) known) in
      let b =
        rewritten-IsAccount email d.temp_token u s (with_device device) (λ x. refl) (λ x. refl)
          (λ x. refl) a in
      let s1 = rewritten u.id (with_device device) s in
      let v = with_device device u in
      let (answer, ks, waiting, sole) =
        asks p d now o email password s1 v (b.named, admissible.1, admissible.2) enabled b.keys
          b.new db in
      let s2 = (login p d now o email password s1).1 in
      let (tokens, ended) =
        verify_biometric_ends_login p jti later d.temp_token s2 db device
          (asked d.temp_token (now + temp_token_time) (clear_login v)) ks
          (waiting, le→ltb_false (now + temp_token_time) later h, unlocked) sole refl refl in
      rw enrolled (refl, answer, tokens, ended)
