-- ===== src/Tests/Flows.antt =====
-- Sign-ins that take several requests: a second factor, a lock that ends, and what is logged.
use proyecto_verde_auth.Audit.Trail.{Ends, login-Audited}
use proyecto_verde_auth.Auth.Controller.{Request, origin_of, login_endpoint}
use proyecto_verde_auth.Auth.Jwt.{generate_tokens, generate_access_token, generate_refresh_token}
use proyecto_verde_auth.Auth.LockEnds.{lock_ends, one_failure_relocks}
use proyecto_verde_auth.Auth.Lockout.{Attempt, attempts}
use proyecto_verde_auth.Auth.Login.{user_of, UserKeys, Admissible}
use proyecto_verde_auth.Auth.Service.{login, signed_in, needs_mfa}
use proyecto_verde_auth.Base.{
  ◌≡◌, refl, true, false, some, none, List, ◌∷◌, [], codes, same, first, arith, All, holds,
  undefined, text_field,
}
use proyecto_verde_auth.Crypt.Token.{decrypt}
use proyecto_verde_auth.Exec.{ok, throws, forbidden}
use proyecto_verde_auth.Mfa.Challenge.{pending}
use proyecto_verde_auth.Mfa.Handlers.{done}
use proyecto_verde_auth.Mfa.SignIn.{login-verify}
use proyecto_verde_auth.Mfa.Verify.{verify}
use proyecto_verde_auth.Tests.Demo.{demo, demo-IsDatabase, ann, bob, system, draws, origin}
use proyecto_verde_auth.Users.Entity.{User}
use proyecto_verde_auth.Users.Service.{later_than}

pub users_differ : UserKeys system
unfolding same
users_differ = ground arith

pub bob-Admissible : Admissible demo 7 (codes "bob@bv") (codes "pw") system bob
unfolding user_of first same later_than
bob-Admissible = (refl, refl, refl)

pub token_is_new : All (λ (x : User). holds x.mfa_temp_token draws.temp_token ≡ false) system.users
unfolding same
token_is_new = (refl, (refl, tt))

pub factor_unlocked : later_than bob.mfa_locked_until 99 ≡ false
unfolding later_than
factor_unlocked = refl

secret_of_bob : decrypt demo bob.mfa_secret ≡ ok (codes "42")
unfolding decrypt
secret_of_bob = refl

accepted : demo.totp.verify (codes "42") (codes "42") 99 ≡ true
unfolding same
accepted = refl

login-verify_example :
    let (r, s1) = login demo draws 7 origin (codes "bob@bv") (codes "pw") system in
    let (r', s2) = verify demo (codes "j") 99 draws.temp_token (codes "42") s1 in
    (r ≡ ok (needs_mfa draws.temp_token bob.preferred_mfa_method bob.biometric_enabled))
    × (r' ≡ ok (done (generate_tokens demo (codes "j") 99 bob.id bob.email)))
    × (pending draws.temp_token s2 ≡ none)
login-verify_example =
    login-verify demo draws 7 origin (codes "bob@bv") (codes "pw") system bob bob-Admissible refl
      users_differ token_is_new demo-IsDatabase (codes "j") 99 (codes "42") (codes "42")
      (omega arith) factor_unlocked secret_of_bob accepted

abbrev guess : Attempt
guess = record { draws = draws; now = 7; origin = origin; password = codes "no" }

abbrev four_more : List Attempt
four_more = guess ∷ guess ∷ guess ∷ guess ∷ []

abbrev patient : Attempt
patient = record guess { now = 900_007; password = codes "pw" }

abbrev careless : Attempt
careless = record patient { password = codes "no" }

pub ann_found : user_of (codes "ann@bv") system ≡ some ann
unfolding user_of first same
ann_found = refl

no_is_wrong : demo.bcrypt.compare (codes "no") ann.password_hash ≡ false
unfolding same
no_is_wrong = refl

pub pw_is_right : demo.bcrypt.compare (codes "pw") ann.password_hash ≡ true
unfolding same
pw_is_right = refl

lock_ends_example :
    (login demo patient.draws patient.now patient.origin
      (codes "ann@bv")
      patient.password
      (attempts demo (codes "ann@bv") (guess ∷ four_more) system)).0
    ≡ ok (
        signed_in (record {
          access_token = generate_access_token demo patient.now ann.id ann.email;
          refresh_token = generate_refresh_token demo patient.draws.jti patient.now ann.id;
          expires_in = 900;
        }))
lock_ends_example =
    lock_ends demo demo-IsDatabase (codes "ann@bv") guess four_more system ann users_differ
      ann_found refl refl
      (no_is_wrong, (no_is_wrong, (no_is_wrong, (no_is_wrong, (no_is_wrong, tt))))) refl patient
      (omega arith) pw_is_right

one_failure_relocks_example :
    (login demo patient.draws 900_008 patient.origin (codes "ann@bv") patient.password (
      attempts demo
        (codes "ann@bv")
        (careless ∷ [])
        (attempts demo (codes "ann@bv") (guess ∷ four_more) system))).0
    ≡ throws (forbidden "Cuenta bloqueada. Intente más tarde.")
one_failure_relocks_example =
    one_failure_relocks demo demo-IsDatabase (codes "ann@bv") guess four_more system ann
      users_differ ann_found refl refl
      (no_is_wrong, (no_is_wrong, (no_is_wrong, (no_is_wrong, (no_is_wrong, tt))))) careless
      (record patient { now = 900_008 }) (omega arith) no_is_wrong (omega arith)

-- A request without a user agent, and then without a password.
abbrev request : Request
request = record { ip = codes "::1"; user_agent = none; x_user_id = codes "1" }

login-Audited_example :
    let (r, s') =
      login_endpoint demo 7 draws request (text_field (codes "ann@bv")) undefined system in
    Ends draws 7
      (record { ip = codes "::1"; device = codes "unknown" })
      undefined
      (some ann)
      r
      system
      s'
unfolding origin_of user_of first same
login-Audited_example =
    login-Audited demo draws 7 request (text_field (codes "ann@bv")) undefined system
      demo-IsDatabase tt
