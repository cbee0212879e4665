-- ===== src/Api/Invariant.antt =====
-- The invariant of the stored state under sequences of requests.
use proyecto_verde_auth.Api.Kept.{
  login_body-Keeps, refresh-Keeps, logout-Keeps, unlock_body-Keeps, reset_body-Keeps,
}
use proyecto_verde_auth.Api.KeptMfa.{
  setup-Keeps, verify_setup-Keeps, disable-Keeps, get_status-Keeps, enable_biometric_login-Keeps,
  disable_biometric_login-Keeps, verify_body-Keeps, verify_backup_body-Keeps,
  verify_biometric_body-Keeps,
}
use proyecto_verde_auth.Auth.Admin.{unlock_body, reset_body}
use proyecto_verde_auth.Auth.Refresh.{JwtLaws, refresh_always_refuses}
use proyecto_verde_auth.Auth.Service.{Draws, Origin, login_body, refresh, logout}
use proyecto_verde_auth.Base.{ℕ, ◌≤◌, ◌≡◌, List, Option, String, Text, length, BodyField}
use proyecto_verde_auth.Exec.{System, throws, unauthorized}
use proyecto_verde_auth.Mfa.Handlers.{
  setup, verify_setup, disable, get_status, enable_biometric_login, disable_biometric_login,
}
use proyecto_verde_auth.Mfa.Verify.{verify_body, verify_backup_body, verify_biometric_body}
use proyecto_verde_auth.Platform.{Platform, IsDatabase, IsDatabase-eq, on_tables, BcryptLaws}
use proyecto_verde_auth.Sessions.Drawn.{token_limit}
use proyecto_verde_auth.Valid.{IsValid}

-- One request, with whatever it carries and draws: the emails, the temporary tokens, the password of a login and
-- the device's id may be left out or null, the other fields are texts, and the `x-user-id` header is there; a drawn session token has at most `token_limit`
-- characters.
pub data Request (p : Platform) (s : System) : System → Type 0 where
  a_login :
      (d : Draws) (now : ℕ) (o : Origin) (email password : BodyField)
      → length d.session.token ≤ token_limit
      → Request p s (login_body p d now o email password s).1
  a_refresh :
      (d : Draws) (now : ℕ) (o : Origin) (token : Text)
      → length d.session.token ≤ token_limit
      → Request p s (refresh p d now o token s).1
  a_logout :
      (d : Draws) (now : ℕ) (o : Origin) (token user : Text)
      → length d.session.token ≤ token_limit
      → Request p s (logout p d now o token user s).1
  an_unlock : (email : BodyField) → Request p s (unlock_body p email s).1
  a_reset : (email : BodyField) → Request p s (reset_body p email s).1
  a_setup :
      (now : ℕ) (secret : Text) (iv : List ℕ) (user : Text)
      → Request p s (setup p now secret iv user s).1
  a_verify_setup :
      (now : ℕ) (draw : ℕ → List ℕ) (iv : List ℕ) (bearer : Option Text) (user code : Text)
      → Request p s (verify_setup p now draw iv bearer user code s).1
  a_disable :
      (now : ℕ) (bearer : Option Text) (user password code : Text)
      → Request p s (disable p now bearer user password code s).1
  a_status :
      (now : ℕ) (bearer : Option Text) (user : Text)
      → Request p s (get_status p now bearer user s).1
  an_enable_biometric :
      (now : ℕ) (bearer : Option Text) (user : Text) (device : BodyField)
      → Request p s (enable_biometric_login p now bearer user device s).1
  a_disable_biometric :
      (now : ℕ) (bearer : Option Text) (user : Text)
      → Request p s (disable_biometric_login p now bearer user s).1
  a_verify :
      (jti : Text) (now : ℕ) (t : BodyField) (code : Text)
      → Request p s (verify_body p jti now t code s).1
  a_verify_backup :
      (jti : Text) (now : ℕ) (iv : List ℕ) (t : BodyField) (code : Text)
      → Request p s (verify_backup_body p jti now iv t code s).1
  a_verify_biometric :
      (jti : Text) (now : ℕ) (t device : BodyField)
      → Request p s (verify_biometric_body p jti now t device s).1

pub data Reach (p : Platform) (s : System) : System → Type 0 where
  here : Reach p s s
  next : {t u : System} → Reach p s t → Request p t u → Reach p s u

module _ (p : Platform) where
  Request-tables :
      {s t : System} → Request (on_tables p) s t → IsValid p.bcrypt s → IsValid p.bcrypt t
  Request-tables {s} (a_login d now o email password h) v =
      (login_body-Keeps p d now o h email password).at s v
  Request-tables {s} (a_refresh d now o token h) v = (refresh-Keeps p d now o h token).at s v
  Request-tables {s} (a_logout d now o token user h) v =
      (logout-Keeps p d now o h token user).at s v
  Request-tables {s} (an_unlock email) v = (unlock_body-Keeps p email).at s v
  Request-tables {s} (a_reset email) v = (reset_body-Keeps p email).at s v
  Request-tables {s} (a_setup now secret iv user) v = (setup-Keeps p now secret iv user).at s v
  Request-tables {s} (a_verify_setup now draw iv bearer user code) v =
      (verify_setup-Keeps p now draw iv bearer user code).at s v
  Request-tables {s} (a_disable now bearer user password code) v =
      (disable-Keeps p now bearer user password code).at s v
  Request-tables {s} (a_status now bearer user) v = (get_status-Keeps p now bearer user).at s v
  Request-tables {s} (an_enable_biometric now bearer user device) v =
      (enable_biometric_login-Keeps p now bearer user device).at s v
  Request-tables {s} (a_disable_biometric now bearer user) v =
      (disable_biometric_login-Keeps p now bearer user).at s v
  Request-tables {s} (a_verify jti now t code) v = (verify_body-Keeps p jti now t code).at s v
  Request-tables {s} (a_verify_backup jti now iv t code) v =
      (verify_backup_body-Keeps p jti now iv t code).at s v
  Request-tables {s} (a_verify_biometric jti now t device) v =
      (verify_biometric_body-Keeps p jti now t device).at s v

  module _ (db : IsDatabase p) where
    -- No request breaks the invariant.
    Request-IsValid : {s t : System} → Request p s t → IsValid p.bcrypt s → IsValid p.bcrypt t
    Request-IsValid {s} {t} r v = Request-tables (rw (IsDatabase-eq p db) at r) v

    -- On a documented database, any sequence of requests, with any inputs and in any order, keeps a valid
    -- state valid: in each row the lock columns are set exactly from the fifth failed password and the
    -- third failed second factor on, the temporary token has an expiry exactly while it is there, the
    -- ids are distinct, and every session holds the hash of a drawn token.
    pub Reach-IsValid : {s t : System} → IsValid p.bcrypt s → Reach p s t → IsValid p.bcrypt t
    Reach-IsValid v here = v
    Reach-IsValid v (next r q) = Request-IsValid q (Reach-IsValid v r)

    -- On a documented database and bcrypt, and for a JWT library that verifies no token of 52 characters
    -- or fewer: in every state that requests reach from a valid one, `refresh` answers 401 to every
    -- token and writes nothing.
    pub reachable_refresh_refuses :
        BcryptLaws p.bcrypt
        → JwtLaws p.jwt
        → {s t : System} → IsValid p.bcrypt s
        → Reach p s t
        → (d : Draws) (now : ℕ) (o : Origin) (token : Text)
        → (message : String) × (refresh p d now o token t ≡ (throws (unauthorized message), t))
    reachable_refresh_refuses bl jl {t} v r d now o token =
        refresh_always_refuses p d now o db bl token t (Reach-IsValid v r).drawn jl
