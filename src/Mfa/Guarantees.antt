-- ===== src/Mfa/Guarantees.antt =====
-- The second factor of src/auth/mfa/mfa.controller.ts on any documented database.
use proyecto_verde_auth.Auth.Jwt.{Tokens, generate_tokens}
use proyecto_verde_auth.Auth.Login.{UserKeys}
use proyecto_verde_auth.Base.{
  ℕ, ◌≡◌, ◌≢◌, ◌⊎◌, refl, true, false, none, some, List, Text, All, holds, same, first, first-put,
  first-rewrite-none, rewrite, rewrite-All, first-holds, BodyField, undefined, null_field,
  text_field, Option, inl, inr, ap, same_iff,
}
use proyecto_verde_auth.Crypt.Token.{decrypt}
use proyecto_verde_auth.Exec.{System, ok}
use proyecto_verde_auth.Mfa.Challenge.{
  pending, IsOpen, by_id, verify_tables, verify_biometric_tables, verify_backup_tables, wrong_totp,
  right_totp, challenged_open,
}
use proyecto_verde_auth.Mfa.Code.{syntax_error}
use proyecto_verde_auth.Mfa.Handlers.{refused, done}
use proyecto_verde_auth.Mfa.Verify.{verify, verify_backup, verify_biometric, check_totp}
use proyecto_verde_auth.Platform.{Platform, IsDatabase, IsDatabase-eq, on_tables}
use proyecto_verde_auth.Users.Entity.{User}
use proyecto_verde_auth.Users.Service.{find_by_mfa_temp_token, equals_field, fail_mfa, clear_mfa}

-- The request's field is the text that the column holds, or both are null.
abbrev pub IsSameDevice : Option Text → BodyField → Type 0
IsSameDevice stored field =
    ((t : Text) × (field ≡ text_field t) × (stored ≡ some t))
    ⊎ ((field ≡ null_field) × (stored ≡ none))

equals_field-IsSameDevice :
    (stored : Option Text) (field : BodyField)
    → equals_field stored field ≡ true
    → IsSameDevice stored field
unfolding equals_field
equals_field-IsSameDevice (some d) (text_field t) h = inl (t, refl, ap some ((same_iff d t).0 h))
equals_field-IsSameDevice none null_field h = inr (refl, refl)
equals_field-IsSameDevice (some d) undefined h = cc h
equals_field-IsSameDevice (some d) null_field h = cc h
equals_field-IsSameDevice none undefined h = cc h
equals_field-IsSameDevice none (text_field t) h = cc h

-- The temporary token is in no row but one of this id.
abbrev pub Sole : Text → Text → System → Type 0
Sole t id s = All (λ (x : User). (same x.id id ≡ true) ⊎ (holds x.mfa_temp_token t ≡ false)) s.users

module _ (p : Platform) (jti : Text) (now : ℕ) (t : Text) (s : System) where
  wrong_code_tables :
      (code secret : Text) (u : User)
      → UserKeys s
      → IsOpen now t s u
      → decrypt p u.mfa_secret ≡ ok secret
      → p.totp.verify code secret now ≡ false
      → let (r, s') = verify (on_tables p) jti now t code s in
        (r ≡ ok (refused "Código MFA incorrecto")) × (pending t s' ≡ some (fail_mfa now u))
  unfolding verify find_by_mfa_temp_token pending fail_mfa
  wrong_code_tables code secret u k h d w =
      rw
        (
          challenged_open p jti now t s (check_totp (on_tables p) jti now code) u k h,
          wrong_totp p jti now t s code secret u (by_id p jti now t s u k h.0) d w,
        )
        (
          refl,
          first-put (λ (x : User). x.id) (λ x. holds x.mfa_temp_token t) u (fail_mfa now u) s.users
              k h.0 refl (first-holds (λ x. holds x.mfa_temp_token t) s.users u h.0),
        )

  -- After the failures and then the temporary token of the only row with that token are cleared.
  pub no_login_left :
      (id : Text)
      → Sole t id s
      → first
          (λ (x : User). holds x.mfa_temp_token t)
          (rewrite
            (λ x. same x.id id)
            (λ x. record x {
              mfa_temp_token = none;
              mfa_temp_token_expires = none;
              mfa_last_verified = some now;
            })
            (rewrite (λ x. same x.id id) clear_mfa s.users))
        ≡ none
  unfolding clear_mfa
  no_login_left id sole =
      first-rewrite-none (λ (x : User). x.id) (λ x. holds x.mfa_temp_token t) _ id
        (rewrite (λ x. same x.id id) clear_mfa s.users)
        (rewrite-All (λ (x : User). (same x.id id ≡ true) ⊎ (holds x.mfa_temp_token t ≡ false))
          (λ x. same x.id id) clear_mfa s.users (λ x q. q) sole)
        (λ x. refl)

  ends_tables :
      (code secret : Text) (u : User)
      → UserKeys s
      → IsOpen now t s u
      → Sole t u.id s
      → decrypt p u.mfa_secret ≡ ok secret
      → p.totp.verify code secret now ≡ true
      → let (r, s') = verify (on_tables p) jti now t code s in
        (r ≡ ok (done (generate_tokens p jti now u.id u.email))) × (pending t s' ≡ none)
  unfolding verify find_by_mfa_temp_token pending clear_mfa
  ends_tables code secret u k h sole d w =
      rw
        (
          challenged_open p jti now t s (check_totp (on_tables p) jti now code) u k h,
          right_totp p jti now t s code secret u d w,
        )
        (refl, no_login_left u.id sole)

  module _ (db : IsDatabase p) (k : UserKeys s) where
    -- On a documented database whose users have distinct ids, `verify` gives tokens only for a pending
    -- login that is in time and not locked, against a code that the TOTP library accepts for the decrypted
    -- secret of the same row, and they are that row's tokens.
    pub verify_needs_code :
        (code : Text) (tokens : Tokens)
        → (verify p jti now t code s).0 ≡ ok (done tokens)
        → (u : User) × IsOpen now t s u
          × ((secret : Text) × (decrypt p u.mfa_secret ≡ ok secret)
              × (p.totp.verify code secret now ≡ true))
          × (tokens ≡ generate_tokens p jti now u.id u.email)
    verify_needs_code code tokens h =
        verify_tables p jti now t s code tokens k (rw (IsDatabase-eq p db) at h)

    -- On a documented database whose users have distinct ids, `verifyBiometric` gives tokens only for a
    -- pending login that is in time and not locked, of a row that has biometrics enabled and whose
    -- device's id equals the request's (the same text, or null in both), and they are that row's tokens.
    pub verify_biometric_needs_device :
        (device : BodyField) (tokens : Tokens)
        → (verify_biometric p jti now t device s).0 ≡ ok (done tokens)
        → (u : User) × IsOpen now t s u
          × (u.biometric_enabled ≡ true)
          × IsSameDevice u.device_biometric_id device
          × (tokens ≡ generate_tokens p jti now u.id u.email)
    verify_biometric_needs_device device tokens h =
        let (u, is_open, enabled, equal, same_tokens) =
          verify_biometric_tables p jti now t s device tokens k (rw (IsDatabase-eq p db) at h) in
        let device_is = equals_field-IsSameDevice u.device_biometric_id device equal in
        (u, is_open, enabled, device_is, same_tokens)

    -- On a documented database whose users have distinct ids, `verifyBackup` gives tokens for no code if
    -- the text stored for the pending row is no JSON: it does not decrypt the stored text.
    pub verify_backup_refuses :
        (iv : List ℕ) (code stored : Text) (u : User) (tokens : Tokens)
        → pending t s ≡ some u
        → u.mfa_backup_codes ≡ some stored
        → p.json.parse stored ≡ syntax_error
        → (verify_backup p jti now iv t code s).0 ≢ ok (done tokens)
    verify_backup_refuses iv code stored u tokens e c j h =
        verify_backup_tables p jti now t s iv code stored u tokens k e c j
          (rw (IsDatabase-eq p db) at h)

    -- On a documented database whose users have distinct ids: a wrong code for a pending login that is
    -- in time and not locked, and whose secret decrypts, is refused by `verify`; its row is changed as
    -- one failure does (which counts it, and locks from the third on), and stays the pending one.
    pub verify_wrong_code :
        (code secret : Text) (u : User)
        → IsOpen now t s u
        → decrypt p u.mfa_secret ≡ ok secret
        → p.totp.verify code secret now ≡ false
        → let (r, s') = verify p jti now t code s in
          (r ≡ ok (refused "Código MFA incorrecto")) × (pending t s' ≡ some (fail_mfa now u))
    verify_wrong_code code secret u h d w =
        rw (IsDatabase-eq p db) (wrong_code_tables code secret u k h d w)

    -- On a documented database whose users have distinct ids: a right code for a pending login that is
    -- in time and not locked, whose secret decrypts and whose temporary token no other user has, is
    -- answered by `verify` with the row's tokens, and then the temporary token is in no row.
    pub verify_ends_login :
        (code secret : Text) (u : User)
        → IsOpen now t s u
        → Sole t u.id s
        → decrypt p u.mfa_secret ≡ ok secret
        → p.totp.verify code secret now ≡ true
        → let (r, s') = verify p jti now t code s in
          (r ≡ ok (done (generate_tokens p jti now u.id u.email))) × (pending t s' ≡ none)
    unfolding generate_tokens
    verify_ends_login code secret u h sole d w =
        rw (IsDatabase-eq p db) (ends_tables code secret u k h sole d w)
