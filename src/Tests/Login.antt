-- ===== src/Tests/Login.antt =====
-- Logins, refreshes and logouts of the demonstration users.
use proyecto_verde_auth.Api.Invariant.{
  Reach, here, next, a_login, Reach-IsValid, reachable_refresh_refuses,
}
use proyecto_verde_auth.Audit.Service.{log}
use proyecto_verde_auth.Auth.Jwt.{Tokens, generate_access_token, generate_refresh_token}
use proyecto_verde_auth.Auth.Lockout.{Attempt, attempts, failures_lock_out}
use proyecto_verde_auth.Auth.Login.{user_of, UserKeys, Admissible, login_signs_in}
use proyecto_verde_auth.Auth.Refresh.{logout_revokes_nothing}
use proyecto_verde_auth.Auth.Admin.{unlock_user}
use proyecto_verde_auth.Auth.Profile.{Profile, no_token, me}
use proyecto_verde_auth.Auth.Unlock.{login-unlock}
use proyecto_verde_auth.Auth.Service.{
  login, login_body, login_field, logout, refresh, signed_in, needs_mfa,
}
use proyecto_verde_auth.Base.{
  Text, starts_with, ◌++◌, ◌≡◌, refl, true, false, some, ◌∷◌, [], codes, same, first, String, arith,
  text_field,
}
use proyecto_verde_auth.Exec.{System, ok, throws, unauthorized, forbidden}
use proyecto_verde_auth.Sessions.Service.{create_refresh_token}
use proyecto_verde_auth.Tests.Demo.{
  demo, demo-IsDatabase, bcrypt-BcryptLaws, jwt-JwtLaws, ann, bob, system, draws, origin, bcrypt,
}
use proyecto_verde_auth.Users.Entity.{User}
use proyecto_verde_auth.Users.Service.{
  find_by_email, validate_password, increment_failed_attempts, reset_failed_attempts,
  set_mfa_temp_token, later_than, fail_login, find_user_where,
}
use proyecto_verde_auth.Valid.{IsValid}

logins : Unit {0}
unfolding login find_by_email validate_password reset_failed_attempts increment_failed_attempts
    set_mfa_temp_token log create_refresh_token user_of generate_access_token generate_refresh_token
    same first later_than fail_login
logins = tt

abbrev ann_tokens : Tokens
ann_tokens = record {
  access_token = codes "xxxxxxxxxxxxxxxxxxxxxxxxxxxxxxxxxxxxxxxxxxxxxxxxxxxxxxxxxxxx1";
  refresh_token = codes "xxxxxxxxxxxxxxxxxxxxxxxxxxxxxxxxxxxxxxxxxxxxxxxxxxxxxxxxxxxx1";
  expires_in = 900;
}

ann_signs_in :
    (login demo draws 7 origin (codes "ann@bv") (codes "pw") system).0 ≡ ok (signed_in ann_tokens)
unfolding logins
ann_signs_in = refl

bob_is_asked :
    (login demo draws 7 origin (codes "bob@bv") (codes "pw") system).0
    ≡ ok (needs_mfa (codes "t") bob.preferred_mfa_method true)
unfolding logins
bob_is_asked = refl

system_keys : UserKeys system
unfolding same
system_keys = ground arith

system-IsValid : IsValid bcrypt system
unfolding same
system-IsValid = ground arith

ann_row : user_of (codes "ann@bv") system ≡ some ann
unfolding logins
ann_row = refl

ann_unlocked : later_than ann.locked_until 7 ≡ false
unfolding later_than
ann_unlocked = refl

pw_right : demo.bcrypt.compare (codes "pw") ann.password_hash ≡ true
unfolding same
pw_right = refl

no_wrong : demo.bcrypt.compare (codes "no") ann.password_hash ≡ false
unfolding same
no_wrong = refl

login_signs_in_example :
    (u : User) × Admissible demo 7 (codes "ann@bv") (codes "pw") system u × (u.mfa_enabled ≡ false)
login_signs_in_example =
    login_signs_in demo draws 7 origin (codes "ann@bv") (codes "pw") system demo-IsDatabase
      ann_tokens ann_signs_in

abbrev locked_ann : User
locked_ann = record ann { failed_attempts = 5; locked_until = some 900_000 }

abbrev locked_system : System
locked_system = record system { users = locked_ann ∷ [] }

locked_row : user_of (codes "ann@bv") locked_system ≡ some locked_ann
unfolding logins
locked_row = refl

abbrev guess : Attempt
guess = record { draws = draws; now = 7; origin = origin; password = codes "no" }

abbrev late : Attempt
late = record guess { now = 900_000; password = codes "pw" }

failures_lock_out_example :
    (login demo late.draws late.now late.origin
      (codes "ann@bv")
      late.password
      (attempts demo (codes "ann@bv") (guess ∷ guess ∷ guess ∷ guess ∷ guess ∷ []) system)).0
    ≡ throws (forbidden "Cuenta bloqueada. Intente más tarde.")
failures_lock_out_example =
    failures_lock_out demo demo-IsDatabase (codes "ann@bv") guess
      (guess ∷ guess ∷ guess ∷ guess ∷ []) system ann system_keys ann_row refl refl
      (no_wrong, (no_wrong, (no_wrong, (no_wrong, (no_wrong, tt))))) late (omega arith)

logout_revokes_nothing_example :
    (logout demo draws 7 origin ann_tokens.refresh_token (codes "1") system).1.sessions
    ≡ system.sessions
logout_revokes_nothing_example =
    logout_revokes_nothing demo draws 7 origin demo-IsDatabase bcrypt-BcryptLaws
      ann_tokens.refresh_token system tt (codes "1") (omega arith)

abbrev signed_system : System
signed_system = (login demo draws 7 origin (codes "ann@bv") (codes "pw") system).1

signed_Reach : Reach demo system signed_system
unfolding login_body login login_field find_user_where
signed_Reach =
    next here
      (a_login draws 7 origin (text_field (codes "ann@bv")) (text_field (codes "pw")) (omega arith))

Reach-IsValid_example : IsValid bcrypt signed_system
Reach-IsValid_example = Reach-IsValid demo demo-IsDatabase system-IsValid signed_Reach

reachable_refresh_refuses_example :
    (message : String) × (refresh demo draws 8 origin ann_tokens.refresh_token signed_system
      ≡ (throws (unauthorized message), signed_system))
reachable_refresh_refuses_example =
    reachable_refresh_refuses demo demo-IsDatabase bcrypt-BcryptLaws jwt-JwtLaws system-IsValid
      signed_Reach draws 8 origin ann_tokens.refresh_token

locked_system_keys : UserKeys locked_system
locked_system_keys = ground arith

login-unlock_example :
    (login demo draws 7 origin
      (codes "ann@bv")
      (codes "pw")
      (unlock_user demo (codes "ann@bv") locked_system).1).0
    ≡ ok (
        signed_in (record {
          access_token = generate_access_token demo 7 ann.id ann.email;
          refresh_token = generate_refresh_token demo draws.jti 7 ann.id;
          expires_in = 900;
        }))
login-unlock_example =
    login-unlock demo (codes "ann@bv") locked_system locked_ann locked_system_keys locked_row
      demo-IsDatabase draws 7 origin (codes "pw") pw_right refl

-- Ann's access token stands for her id.
abbrev ann_header : Text
ann_header = codes "Bearer " ++ ann_tokens.access_token

abbrev ann_profile : Profile
ann_profile = record {
  user_id = codes "1";
  email = codes "ann@bv";
  mfa_enabled = false;
  biometric_enabled = false;
  preferred_mfa_method = ann.preferred_mfa_method;
}

no_bearer : (me demo 7 (some ann_tokens.access_token) system).0 ≡ ok no_token
unfolding me logins starts_with
no_bearer = refl
