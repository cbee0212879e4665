-- ===== src/Tests/Biometric.antt =====
-- Ann's token enrols a device for Bob, who has a second factor.
use proyecto_verde_auth.Auth.Guard.{caller_of}
use proyecto_verde_auth.Auth.Jwt.{access_payload, generate_tokens}
use proyecto_verde_auth.Auth.Service.{login, needs_mfa}
use proyecto_verde_auth.Base.{
  ◌≡◌, refl, true, none, some, [], Text, codes, arith, Option, text_field,
}
use proyecto_verde_auth.Exec.{ok}
use proyecto_verde_auth.Mfa.Biometric.{biometric-signs_in}
use proyecto_verde_auth.Mfa.Challenge.{pending}
use proyecto_verde_auth.Mfa.Handlers.{done, enable_biometric_login}
use proyecto_verde_auth.Mfa.Verify.{verify_biometric}
use proyecto_verde_auth.Tests.Demo.{demo, demo-IsDatabase, draws, origin, system, ann, bob}
use proyecto_verde_auth.Tests.Flows.{users_differ, token_is_new, bob-Admissible, factor_unlocked}
use proyecto_verde_auth.Users.Entity.{biometric}

abbrev bearer_of_ann : Option Text
bearer_of_ann = some (demo.jwt.sign [] [] 6 (access_payload ann.id ann.email))

biometric-signs_in_example :
    let (r, s1) =
      enable_biometric_login demo 6 bearer_of_ann bob.id (text_field (codes "phone")) system in
    let (r1, s2) = login demo draws 7 origin (codes "bob@bv") (codes "pw") s1 in
    let (r2, s3) =
      verify_biometric demo (codes "j") 99 draws.temp_token (text_field (codes "phone")) s2 in
    (r ≡ ok (done tt))
    × (r1 ≡ ok (needs_mfa draws.temp_token biometric true))
    × (r2 ≡ ok (done (generate_tokens demo (codes "j") 99 bob.id bob.email)))
    × (pending draws.temp_token s3 ≡ none)
unfolding caller_of
biometric-signs_in_example =
    biometric-signs_in demo demo-IsDatabase draws 7 origin (codes "bob@bv") (codes "pw") system bob
      bob-Admissible users_differ token_is_new refl 6 bearer_of_ann
      (record { user_id = ann.id; email = none }) (codes "phone") refl (codes "j") 99 (omega arith)
      factor_unlocked
