-- ===== src/Tests/Bearer.antt =====
-- A bearer token, with a JWT library that writes the claims into the token.
use proyecto_verde_auth.Auth.Bearer.{JwtSigns, login-me}
use proyecto_verde_auth.Auth.Jwt.{generate_access_token, generate_refresh_token}
use proyecto_verde_auth.Auth.Login.{Admissible}
use proyecto_verde_auth.Auth.Profile.{me, profile, profile_of}
use proyecto_verde_auth.Auth.Service.{login, signed_in}
use proyecto_verde_auth.Base.{ℕ, ◌≡◌, ◌++◌, refl, [], ◌∷◌, some, zero, suc, Text, codes, arith}
use proyecto_verde_auth.Exec.{ok}
use proyecto_verde_auth.Platform.{
  Platform, Payload, JwtLibrary, TokenType, access, refresh, IsDatabase,
}
use proyecto_verde_auth.Tests.Demo.{demo, demo-IsDatabase, ann, system, draws, origin}
use proyecto_verde_auth.Tests.Flows.{users_differ, ann_found, pw_is_right}
use proyecto_verde_auth.Tests.Written.{
  put_text, put_option, get_text, get_option, get_text-put, get_option-put,
}
use proyecto_verde_auth.Users.Service.{later_than}

put_type : TokenType → Text
put_type access = 0 ∷ []
put_type refresh = 1 ∷ []

get_type : Text → TokenType
get_type [] = access
get_type (zero ∷ rest) = access
get_type (suc n ∷ rest) = refresh

get_type-put : (t : TokenType) → get_type (put_type t) ≡ t
unfolding get_type put_type
get_type-put access = refl
get_type-put refresh = refl

abbrev written : Payload → Text
written claims =
    put_text claims.sub (put_option claims.email (put_option claims.jti (put_type claims.type)))

read : Text → Payload
read token =
    let (sub, s1) = get_text token in
    let (email, s2) = get_option s1 in
    let (jti, s3) = get_option s2 in
    record { sub = sub; email = email; jti = jti; type = get_type s3 }

read-written : (claims : Payload) → read (written claims) ≡ claims
unfolding read
read-written claims =
    let s3 = put_type claims.type in
    let s2 = put_option claims.jti s3 in
    let s1 = put_option claims.email s2 in
    rw
      (
        get_text-put claims.sub s1,
        get_option-put claims.email s2,
        get_option-put claims.jti s3,
        get_type-put claims.type,
      )
      refl

abbrev signer : JwtLibrary
signer = record {
  sign = λ secret expires now claims. written claims;
  verify = λ secret now token. some (read token);
}

abbrev signing : Platform
signing = record demo { jwt = signer }

abbrev a_second : Text → ℕ
a_second expires = 1000

signer-JwtSigns : JwtSigns a_second signer
signer-JwtSigns = record {
  verify-sign = λ secret expires now later claims from to. rw (read-written claims) refl;
}

signing-IsDatabase : IsDatabase signing
signing-IsDatabase = record {
  users_table = demo-IsDatabase.users_table;
  sessions_table = demo-IsDatabase.sessions_table;
  audit_logs_table = demo-IsDatabase.audit_logs_table;
}

ann-Admissible : Admissible signing 7 (codes "ann@bv") (codes "pw") system ann
unfolding later_than
ann-Admissible = (ann_found, refl, pw_is_right)

login-me_example :
    let (r, s1) = login signing draws 7 origin (codes "ann@bv") (codes "pw") system in
    let token = generate_access_token signing 7 ann.id ann.email in
    (r
      ≡ ok (
          signed_in (record {
            access_token = token;
            refresh_token = generate_refresh_token signing draws.jti 7 ann.id;
            expires_in = 900;
          })))
    × ((me signing 99 (some (codes "Bearer " ++ token)) s1).0 ≡ ok (profile (profile_of ann)))
login-me_example =
    login-me signing draws 7 origin (codes "ann@bv") (codes "pw") system ann ann-Admissible refl
      a_second signer-JwtSigns users_differ 99 signing-IsDatabase (omega arith) (omega arith)
