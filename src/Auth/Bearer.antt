-- ===== src/Auth/Bearer.antt =====
-- A sign-in with src/auth/auth.service.ts, and `me` of src/auth/auth.controller.ts with its access token.
use proyecto_verde_auth.Audit.Service.{log}
use proyecto_verde_auth.Auth.Jwt.{
  access_payload, generate_access_token, generate_refresh_token, verify_access_token,
}
use proyecto_verde_auth.Auth.Login.{user_of, UserKeys, Admissible, login_admits}
use proyecto_verde_auth.Auth.Profile.{me, holder_profile, profile_found, profile_of, profile}
use proyecto_verde_auth.Auth.Service.{Draws, Origin, login, signed_in}
use proyecto_verde_auth.Base.{
  ℕ, ◌+◌, ◌<◌, ◌≤◌, ◌≡◌, ◌++◌, refl, false, some, Text, codes, same, same_refl, first, first-key,
  first-put, put, or_else, starts_with, arith,
}
use proyecto_verde_auth.Exec.{System, ok}
use proyecto_verde_auth.Platform.{
  Platform, JwtLibrary, Payload, IsDatabase, IsDatabase-eq, on_tables,
}
use proyecto_verde_auth.Sessions.Service.{create_refresh_token}
use proyecto_verde_auth.Users.Entity.{User}
use proyecto_verde_auth.Users.Service.{
  find_by_email, find_by_id, validate_password, increment_failed_attempts, reset_failed_attempts,
  set_mfa_temp_token, clear_login,
}

-- What the JWT library documents of signatures: a token that was signed verifies under the same secret, with
-- its claims, for the time that `expiresIn` names.
pub record JwtSigns (lifetime : Text → ℕ) (j : JwtLibrary) : Type 0 where
  pub verify-sign :
      (secret expires : Text) (now later : ℕ) (claims : Payload)
      → now ≤ later
      → later < now + lifetime expires
      → j.verify secret later (j.sign secret expires now claims) ≡ some claims

module _ (p : Platform) (d : Draws) (now : ℕ) (o : Origin) (email password : Text) (s : System)
    (u : User) (admissible : Admissible p now email password s u)
    (alone : u.mfa_enabled ≡ false) where
  signed_in_users :
      (login (on_tables p) d now o email password s).1.users
      ≡ put (λ x. same x.id u.id) (clear_login u) s.users
  unfolding login find_by_email validate_password reset_failed_attempts increment_failed_attempts
      set_mfa_temp_token log create_refresh_token user_of
  signed_in_users = ground arith

  module _ (lifetime : Text → ℕ) (signs : JwtSigns lifetime p.jwt) (keys : UserKeys s)
      (later : ℕ) where
    holder_found :
        first (λ (x : User). same x.id u.id) (put (λ x. same x.id u.id) (clear_login u) s.users)
        ≡ some (clear_login u)
    unfolding user_of clear_login
    holder_found =
        first-put (λ (x : User). x.id) (λ x. same x.id u.id) u (clear_login u) s.users keys
          (first-key (λ (x : User). x.id) (λ x. same x.email email) u s.users keys admissible.0)
          refl (same_refl u.id)

    profile_of_found :
        (claims : Payload) (v : User) (s' : System)
        → first (λ (x : User). same x.id claims.sub) s'.users ≡ some v
        → (holder_profile (on_tables p) later (some claims) s').0 ≡ ok (profile (profile_of v))
    unfolding holder_profile profile_found find_by_id
    profile_of_found claims v s' found = rw found refl

    me_tables :
        now ≤ later
        → later < now + lifetime (or_else p.config.jwt_access_expires (codes "15m"))
        → (me
            (on_tables p)
            later
            (some (codes "Bearer " ++ generate_access_token p now u.id u.email))
            (login (on_tables p) d now o email password s).1).0
          ≡ ok (profile (profile_of u))
    unfolding me holder_profile profile_found find_by_id verify_access_token generate_access_token
        starts_with profile_of clear_login
    me_tables from to =
        rw
          (signs.verify-sign p.config.jwt_access_secret
            (or_else p.config.jwt_access_expires (codes "15m")) now later
            (access_payload u.id u.email) from to)
          (profile_of_found (access_payload u.id u.email) (clear_login u)
            (login (on_tables p) d now o email password s).1 (rw signed_in_users holder_found))

    -- On a documented database whose users have distinct ids, and for a JWT library that verifies what it
    -- signed for the time it was signed for: `login` for an account that is not locked and has no second
    -- factor, with a password that matches its hash, gives an access token with which `me`, as a bearer
    -- token and for the time that the settings give to it, answers with the profile of this account.
    pub login-me :
        IsDatabase p
        → now ≤ later
        → later < now + lifetime (or_else p.config.jwt_access_expires (codes "15m"))
        → let (r, s1) = login p d now o email password s in
          let token = generate_access_token p now u.id u.email in
          (r
            ≡ ok (
                signed_in (record {
                  access_token = token;
                  refresh_token = generate_refresh_token p d.jti now u.id;
                  expires_in = 900;
                })))
          × ((me p later (some (codes "Bearer " ++ token)) s1).0 ≡ ok (profile (profile_of u)))
    unfolding generate_access_token generate_refresh_token
    login-me db from to = (
      login_admits p d now o email password s db u admissible alone,
      rw (IsDatabase-eq p db) (me_tables from to),
    )
