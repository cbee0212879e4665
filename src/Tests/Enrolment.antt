-- ===== src/Tests/Enrolment.antt =====
-- Setting up a second factor: Ann her own, and someone else that of bob.
use proyecto_verde_auth.Auth.Guard.{caller_of}
use proyecto_verde_auth.Auth.Jwt.{access_payload, generate_tokens}
use proyecto_verde_auth.Auth.Service.{login, needs_mfa}
use proyecto_verde_auth.Base.{
  ℕ, ◌≡◌, refl, true, false, List, [], none, some, Text, codes, same, arith, Option,
}
use proyecto_verde_auth.Exec.{ok}
use proyecto_verde_auth.Mfa.BackupCodes.{generate_backup_codes}
use proyecto_verde_auth.Mfa.Challenge.{pending}
use proyecto_verde_auth.Mfa.Enrolment.{setup-takes_over, setup-login-verify}
use proyecto_verde_auth.Mfa.Handlers.{done, setup, verify_setup, generate_setup_response}
use proyecto_verde_auth.Mfa.Verify.{verify}
use proyecto_verde_auth.Platform.{IsPlain}
use proyecto_verde_auth.Tests.Demo.{
  demo, demo-IsDatabase, crypto-CryptoLaws, draws, origin, system, ann, bob,
}
use proyecto_verde_auth.Tests.Flows.{
  users_differ, token_is_new, bob-Admissible, factor_unlocked, ann_found, pw_is_right,
}
use proyecto_verde_auth.Users.Service.{later_than}

abbrev iv : List ℕ
iv = codes "iviviviviviviviv"

abbrev secret : Text
secret = codes "77"

secret-IsPlain : IsPlain secret
secret-IsPlain = omega arith

accepted_at : (n : ℕ) → demo.totp.verify secret secret n ≡ true
unfolding same
accepted_at n = refl

ann_is_open : (n : ℕ) → later_than none n ≡ false
unfolding later_than
ann_is_open n = refl

abbrev draw : ℕ → List ℕ
draw n = codes "abcdefgh"

setup-takes_over_example :
    let (r, s1) = setup demo 6 secret iv bob.id system in
    let (_, s2) = login demo draws 7 origin (codes "bob@bv") (codes "pw") s1 in
    (r ≡ ok (generate_setup_response demo 6 secret bob.email))
    × ((verify demo (codes "j") 99 draws.temp_token secret s2).0
        ≡ ok (done (generate_tokens demo (codes "j") 99 bob.id bob.email)))
setup-takes_over_example =
    setup-takes_over demo demo-IsDatabase crypto-CryptoLaws draws 7 origin (codes "bob@bv")
      (codes "pw") system bob bob-Admissible users_differ token_is_new 6 secret iv refl
      secret-IsPlain refl (codes "j") 99 secret (omega arith) factor_unlocked (accepted_at 99)

abbrev bearer : Option Text
bearer = some (demo.jwt.sign [] [] 6 (access_payload ann.id ann.email))

setup-login-verify_example :
    let (r, s1) = setup demo 5 secret iv ann.id system in
    let (r1, s2) = verify_setup demo 6 draw iv bearer ann.id secret s1 in
    let (r2, s3) = login demo draws 7 origin (codes "ann@bv") (codes "pw") s2 in
    let (r3, s4) = verify demo (codes "j") 99 draws.temp_token secret s3 in
    (r ≡ ok (generate_setup_response demo 5 secret ann.email))
    × (r1 ≡ ok (done (generate_backup_codes draw)))
    × (r2 ≡ ok (needs_mfa draws.temp_token ann.preferred_mfa_method ann.biometric_enabled))
    × (r3 ≡ ok (done (generate_tokens demo (codes "j") 99 ann.id ann.email)))
    × (pending draws.temp_token s4 ≡ none)
unfolding caller_of
setup-login-verify_example =
    setup-login-verify demo demo-IsDatabase crypto-CryptoLaws draws 7 origin (codes "ann@bv")
      (codes "pw") system ann (ann_found, ann_is_open 7, pw_is_right) users_differ token_is_new 5
      secret iv refl secret-IsPlain 6 draw iv bearer (record { user_id = ann.id; email = none })
      secret refl (accepted_at 6) (codes "j") 99 secret (omega arith) (ann_is_open 99)
      (accepted_at 99)
