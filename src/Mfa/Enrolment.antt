-- ===== src/Mfa/Enrolment.antt =====
-- The set-up of the second factor in src/auth/mfa/mfa.controller.ts: `setup`, then `verifySetup`, and the first
-- sign-in with it.
use proyecto_verde_auth.Auth.Guard.{Caller, caller_of, guarded}
use proyecto_verde_auth.Auth.Jwt.{generate_tokens}
use proyecto_verde_auth.Auth.Login.{user_of, UserKeys, Admissible}
use proyecto_verde_auth.Auth.Service.{Draws, Origin, login, needs_mfa, temp_token_time}
use proyecto_verde_auth.Base.{
  ℕ, ◌+◌, ◌≤◌, ◌≡◌, refl, true, false, List, some, none, Option, Text, All, holds, same, first,
  first-key, first-rewrite, first-holds, rewrite, rewrite-All, rewrite-Distinct, arith, length, map,
}
use proyecto_verde_auth.Crypt.RoundTrip.{decrypt-encrypt}
use proyecto_verde_auth.Crypt.Token.{encrypt, decrypt, iv_length}
use proyecto_verde_auth.Exec.{System, ok}
use proyecto_verde_auth.Mfa.BackupCodes.{generate_backup_codes, unused}
use proyecto_verde_auth.Mfa.Challenge.{pending}
use proyecto_verde_auth.Mfa.Handlers.{
  done, setup, verify_setup, finish_setup, verify_totp, require, generate_setup_response,
}
use proyecto_verde_auth.Mfa.SignIn.{login-verify}
use proyecto_verde_auth.Mfa.Verify.{verify}
use proyecto_verde_auth.Platform.{
  Platform, IsDatabase, IsDatabase-eq, on_tables, CryptoLaws, IsPlain,
}
use proyecto_verde_auth.Users.Entity.{User}
use proyecto_verde_auth.Users.Service.{find_by_id, set_mfa_secret, enable_mfa, later_than}

-- The account that an email names, and a temporary token that no row holds yet.
pub record IsAccount (email token : Text) (u : User) (s : System) : Type 0 where
  pub named : user_of email s ≡ some u
  pub keys : UserKeys s
  pub new : All (λ (x : User). holds x.mfa_temp_token token ≡ false) s.users

abbrev with_secret : Text → User → User
with_secret encrypted u = record u { mfa_secret = some encrypted }

abbrev with_codes : Text → User → User
with_codes encrypted u = record u { mfa_enabled = true; mfa_backup_codes = some encrypted }

abbrev pub rewritten : Text → (User → User) → System → System
rewritten id f s = record s { users = rewrite (λ (x : User). same x.id id) f s.users }

pub rewritten-IsAccount :
    (email token : Text) (u : User) (s : System) (f : User → User)
    → ((x : User) → (f x).id ≡ x.id)
    → ((x : User) → (f x).email ≡ x.email)
    → ((x : User) → (f x).mfa_temp_token ≡ x.mfa_temp_token)
    → IsAccount email token u s
    → IsAccount email token (f u) (rewritten u.id f s)
unfolding user_of
rewritten-IsAccount email token u s f same_id same_email same_token a = record {
  named =
      first-rewrite (λ (x : User). x.id) (λ x. same x.email email) f u u.id s.users a.keys a.named
        refl (rw (same_email u) (first-holds (λ (x : User). same x.email email) s.users u a.named));
  keys = rewrite-Distinct (λ (x : User). x.id) (λ x. same x.id u.id) f s.users same_id a.keys;
  new =
      rewrite-All (λ (x : User). holds x.mfa_temp_token token ≡ false) (λ x. same x.id u.id) f
        s.users (λ x h. rw (same_token x) h) a.new;
}

pub found_by_id :
    (email token : Text) (u : User) (s : System)
    → IsAccount email token u s
    → first (λ (x : User). same x.id u.id) s.users ≡ some u
unfolding user_of
found_by_id email token u s a =
    first-key (λ (x : User). x.id) (λ x. same x.email email) u s.users a.keys a.named

module _ (p : Platform) (s : System) (u : User)
    (found : first (λ (x : User). same x.id u.id) s.users ≡ some u) where
  setup_run :
      (n : ℕ) (secret : Text) (iv : List ℕ)
      → setup (on_tables p) n secret iv u.id s ≡ (
        ok (generate_setup_response p n secret u.email),
        rewritten u.id (with_secret (encrypt p iv secret)) s,
      )
  unfolding setup find_by_id require set_mfa_secret generate_setup_response encrypt
  setup_run n secret iv = ground arith

  verify_setup_run :
      (n : ℕ) (draw : ℕ → List ℕ) (iv : List ℕ) (bearer : Option Text) (c : Caller)
      (code secret : Text)
      → caller_of p n bearer ≡ some c
      → decrypt p u.mfa_secret ≡ ok secret
      → p.totp.verify code secret n ≡ true
      → verify_setup (on_tables p) n draw iv bearer u.id code s ≡ (
        ok (done (generate_backup_codes draw)),
        rewritten u.id
            (with_codes (encrypt p iv (p.json.stringify (map unused (generate_backup_codes draw)))))
            s,
      )
  unfolding verify_setup guarded caller_of find_by_id require verify_totp finish_setup enable_mfa
      encrypt decrypt
  verify_setup_run n draw iv bearer c code secret known d right = ground arith

module _ (p : Platform) (db : IsDatabase p) (laws : CryptoLaws p.crypto) (d : Draws) (now : ℕ)
    (o : Origin) (email password : Text) (s : System) (u : User)
    (admissible : Admissible p now email password s u) (keys : UserKeys s)
    (new : All (λ (x : User). holds x.mfa_temp_token d.temp_token ≡ false) s.users) (n : ℕ)
    (secret : Text) (iv : List ℕ) (drawn : length iv ≡ iv_length) (plain : IsPlain secret) where
  abbrev with_new_secret : User
  with_new_secret = with_secret (encrypt p iv secret) u

  abbrev after_setup : System
  after_setup = rewritten u.id (with_secret (encrypt p iv secret)) s

  set_up :
      setup p n secret iv u.id s ≡ (ok (generate_setup_response p n secret u.email), after_setup)
  unfolding generate_setup_response encrypt
  set_up = rw (IsDatabase-eq p db) (
      setup_run p s u
        (found_by_id email d.temp_token u s
          (record { named = admissible.0; keys = keys; new = new }))
        n secret iv)

  after_setup-IsAccount : IsAccount email d.temp_token with_new_secret after_setup
  after_setup-IsAccount =
      rewritten-IsAccount email d.temp_token u s (with_secret (encrypt p iv secret)) (λ x. refl)
        (λ x. refl) (λ x. refl) (record { named = admissible.0; keys = keys; new = new })

  -- On a documented database and crypto library, whose users have distinct ids, for an account that is not
  -- locked and has a second factor already, a drawn secret without surrogates, a vector of 16 bytes, and a
  -- temporary token that no row holds: a call of `setup` with the account's id, for which no token is asked,
  -- answers with the secret, and then `login` with the account's password, followed by `verify` with a code for
  -- that secret, within five minutes and while the second factor is not locked, gives the account's tokens.
  pub setup-takes_over :
      u.mfa_enabled ≡ true
      → (jti : Text) (later : ℕ) (code : Text) → later ≤ now + temp_token_time
      → later_than u.mfa_locked_until later ≡ false
      → p.totp.verify code secret later ≡ true
      → let (r, s1) = setup p n secret iv u.id s in
        let (_, s2) = login p d now o email password s1 in
        (r ≡ ok (generate_setup_response p n secret u.email))
        × ((verify p jti later d.temp_token code s2).0
            ≡ ok (done (generate_tokens p jti later u.id u.email)))
  setup-takes_over enabled jti later code h unlocked right =
      let a = after_setup-IsAccount in
      let (_, tokens, _) =
        login-verify p d now o email password after_setup with_new_secret
          (a.named, admissible.1, admissible.2) enabled a.keys a.new db jti later code secret h
          unlocked (decrypt-encrypt p laws iv secret drawn plain) right in
      rw set_up (refl, tokens)

  abbrev stored : (ℕ → List ℕ) → List ℕ → Text
  stored draw iv' = encrypt p iv' (p.json.stringify (map unused (generate_backup_codes draw)))

  opens : decrypt p with_new_secret.mfa_secret ≡ ok secret
  opens = decrypt-encrypt p laws iv secret drawn plain

  enabled_now :
      (n' : ℕ) (draw : ℕ → List ℕ) (iv' : List ℕ) (bearer : Option Text) (c : Caller) (code : Text)
      → caller_of p n' bearer ≡ some c
      → p.totp.verify code secret n' ≡ true
      → verify_setup p n' draw iv' bearer u.id code after_setup ≡ (
        ok (done (generate_backup_codes draw)),
        rewritten u.id (with_codes (stored draw iv')) after_setup,
      )
  unfolding encrypt
  enabled_now n' draw iv' bearer c code known right = rw (IsDatabase-eq p db) (
      verify_setup_run p after_setup with_new_secret
        (found_by_id email d.temp_token with_new_secret after_setup after_setup-IsAccount) n' draw
        iv' bearer c code secret known opens right)

  -- On a documented database and crypto library, whose users have distinct ids, for an account that is not
  -- locked, a drawn secret without surrogates, a vector of 16 bytes, and a temporary token that no row holds:
  -- `setup`, `verifySetup` under any valid bearer token and with a right code, `login` with the account's
  -- password and `verify` with a right code, in this order, within five minutes after the `login` and while the
  -- second factor is not locked, answer with the secret, the backup codes, the question for the second factor
  -- and the account's tokens, and leave no login pending.
  pub setup-login-verify :
      (n' : ℕ) (draw : ℕ → List ℕ) (iv' : List ℕ) (bearer : Option Text) (c : Caller) (code : Text)
      → caller_of p n' bearer ≡ some c
      → p.totp.verify code secret n' ≡ true
      → (jti : Text) (later : ℕ) (code' : Text) → later ≤ now + temp_token_time
      → later_than u.mfa_locked_until later ≡ false
      → p.totp.verify code' secret later ≡ true
      → let (r, s1) = setup p n secret iv u.id s in
        let (r1, s2) = verify_setup p n' draw iv' bearer u.id code s1 in
        let (r2, s3) = login p d now o email password s2 in
        let (r3, s4) = verify p jti later d.temp_token code' s3 in
        (r ≡ ok (generate_setup_response p n secret u.email))
        × (r1 ≡ ok (done (generate_backup_codes draw)))
        × (r2 ≡ ok (needs_mfa d.temp_token u.preferred_mfa_method u.biometric_enabled))
        × (r3 ≡ ok (done (generate_tokens p jti later u.id u.email)))
        × (pending d.temp_token s4 ≡ none)
  setup-login-verify n' draw iv' bearer c code known right jti later code' h unlocked right' =
      let a = after_setup-IsAccount in
      let codes_in = with_codes (stored draw iv') in
      let b =
        rewritten-IsAccount email d.temp_token with_new_secret after_setup codes_in (λ x. refl)
          (λ x. refl) (λ x. refl) a in
      let (answer, tokens, ended) =
        login-verify p d now o email password (rewritten u.id codes_in after_setup)
          (codes_in with_new_secret) (b.named, admissible.1, admissible.2) refl b.keys b.new db jti
          later code' secret h unlocked opens right' in
      rw (set_up, enabled_now n' draw iv' bearer c code known right)
        (refl, refl, answer, tokens, ended)
