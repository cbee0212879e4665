-- ===== src/Tests/Factor.antt =====
-- The second factor of the demonstration users.
use proyecto_verde_auth.Auth.Jwt.{Tokens, generate_tokens}
use proyecto_verde_auth.Auth.Login.{UserKeys}
use proyecto_verde_auth.Base.{
  if◌then◌else◌, ◌⊎◌, ℕ, ◌+◌, ◌≡◌, ◌≢◌, ◌↔◌, refl, true, false, List, [], ◌∷◌, some, none, Text,
  All, codes, same, length, first, arith, to_upper_case, Distinct, text_field,
}
use proyecto_verde_auth.Crypt.Token.{decrypt}
use proyecto_verde_auth.Exec.{ok}
use proyecto_verde_auth.Mfa.BackupCodes.{
  Validation, generate_backup_codes, validate_backup_code, count_unused, code_count,
}
use proyecto_verde_auth.Mfa.Challenge.{pending, IsOpen}
use proyecto_verde_auth.Mfa.Code.{BackupCode}
use proyecto_verde_auth.Mfa.CodeLaws.{
  IsCode, IsBytes, Usable, generate_backup_codes-IsCode, validate_backup_code_lem,
  spent_code_refused,
}
use proyecto_verde_auth.Mfa.Guarantees.{
  Sole, IsSameDevice, verify_needs_code, verify_biometric_needs_device, verify_backup_refuses,
  verify_ends_login,
}
use proyecto_verde_auth.Mfa.Handlers.{done}
use proyecto_verde_auth.Mfa.Verify.{is_expired, verify, verify_backup, verify_biometric}
use proyecto_verde_auth.Tests.Codec.{codec, codec-JsonLaws}
use proyecto_verde_auth.Tests.Demo.{demo, demo-IsDatabase, bob, system}
use proyecto_verde_auth.Users.Entity.{User}
use proyecto_verde_auth.Users.Service.{
  find_by_mfa_temp_token, is_mfa_locked, increment_mfa_failed_attempts, reset_mfa_failed_attempts,
  clear_mfa_temp_token, validate_biometric, equals_field, later_than,
}

factors : Unit {0}
unfolding verify verify_biometric find_by_mfa_temp_token is_mfa_locked increment_mfa_failed_attempts
    reset_mfa_failed_attempts clear_mfa_temp_token validate_biometric equals_field later_than
    is_expired pending decrypt generate_tokens same first
factors = tt

abbrev drawn : ℕ → List ℕ
drawn k = 171 ∷ 205 ∷ 239 ∷ 1 ∷ 35 ∷ 69 ∷ 103 ∷ 137 ∷ []

drawn-IsBytes : (k : ℕ) → IsBytes (drawn k)
drawn-IsBytes k = omega arith

generate_backup_codes-IsCode_example :
    (length (generate_backup_codes drawn) ≡ code_count) × All IsCode (generate_backup_codes drawn)
generate_backup_codes-IsCode_example = generate_backup_codes-IsCode drawn drawn-IsBytes

abbrev two_codes : List BackupCode
two_codes =
    record { code = codes "ABCD1234"; used = false; used_at = none }
    ∷ record { code = codes "EFGH5678"; used = true; used_at = some 3 }
    ∷ []

validate_backup_code_lem_example :
    (v : Validation) × (validate_backup_code codec 9
        (some (codec.stringify two_codes))
        (codes "abcd1234")
      ≡ ok v)
    × ((v.valid ≡ true) ↔ Usable (to_upper_case (codes "abcd1234")) two_codes)
    × (count_unused v.remaining_codes + (if v.valid then 1 else 0) ≡ count_unused two_codes)
    × ((v.valid ≡ true) ⊎ (v.remaining_codes ≡ two_codes))
validate_backup_code_lem_example =
    validate_backup_code_lem codec codec-JsonLaws 9 (codes "abcd1234") two_codes

abbrev spent : Validation
spent = record {
  valid = true;
  remaining_codes =
      record { code = codes "ABCD1234"; used = true; used_at = some 9 }
      ∷ record { code = codes "EFGH5678"; used = true; used_at = some 3 }
      ∷ [];
}

code_accepted :
    validate_backup_code codec 9 (some (codec.stringify two_codes)) (codes "abcd1234") ≡ ok spent
unfolding validate_backup_code same
code_accepted = refl

codes_differ : Distinct (λ (c : BackupCode). c.code) two_codes
unfolding same
codes_differ = ground arith

spent_code_refused_example :
    validate_backup_code codec 10 (some (codec.stringify spent.remaining_codes)) (codes "abcd1234")
    ≡ ok (record { valid = false; remaining_codes = spent.remaining_codes })
spent_code_refused_example =
    spent_code_refused codec codec-JsonLaws 9 (codes "abcd1234") two_codes codes_differ spent
      code_accepted refl 10

system_rows : UserKeys system
unfolding same
system_rows = ground arith

abbrev bob_tokens : Tokens
bob_tokens = generate_tokens demo (codes "j") 7 bob.id bob.email

bob-pending : pending (codes "tmp") system ≡ some bob
unfolding factors
bob-pending = refl

bob-IsOpen : IsOpen 7 (codes "tmp") system bob
unfolding factors
bob-IsOpen = (refl, refl, refl)

bob_secret : decrypt demo bob.mfa_secret ≡ ok (codes "42")
unfolding factors
bob_secret = refl

code_right : demo.totp.verify (codes "42") (codes "42") 7 ≡ true
unfolding same
code_right = refl

bob_verifies :
    (verify demo (codes "j") 7 (codes "tmp") (codes "42") system).0 ≡ ok (done bob_tokens)
unfolding factors
bob_verifies = refl

bob_device_verifies :
    (verify_biometric demo (codes "j") 7 (codes "tmp") (text_field (codes "dev")) system).0
    ≡ ok (done bob_tokens)
unfolding factors
bob_device_verifies = refl

verify_needs_code_example :
    (u : User) × IsOpen 7 (codes "tmp") system u
    × ((secret : Text) × (decrypt demo u.mfa_secret ≡ ok secret)
        × (demo.totp.verify (codes "42") secret 7 ≡ true))
    × (bob_tokens ≡ generate_tokens demo (codes "j") 7 u.id u.email)
verify_needs_code_example =
    verify_needs_code demo (codes "j") 7 (codes "tmp") system demo-IsDatabase system_rows
      (codes "42") bob_tokens bob_verifies

verify_biometric_needs_device_example :
    (u : User) × IsOpen 7 (codes "tmp") system u
    × (u.biometric_enabled ≡ true)
    × IsSameDevice u.device_biometric_id (text_field (codes "dev"))
    × (bob_tokens ≡ generate_tokens demo (codes "j") 7 u.id u.email)
verify_biometric_needs_device_example =
    verify_biometric_needs_device demo (codes "j") 7 (codes "tmp") system demo-IsDatabase
      system_rows (text_field (codes "dev")) bob_tokens bob_device_verifies

verify_backup_refuses_example :
    (verify_backup demo (codes "j") 7 [] (codes "tmp") (codes "ABCD1234") system).0
    ≢ ok (done bob_tokens)
verify_backup_refuses_example =
    verify_backup_refuses demo (codes "j") 7 (codes "tmp") system demo-IsDatabase system_rows []
      (codes "ABCD1234") (codes "iviviviviviviviv0123456789abcdef[]") bob bob_tokens bob-pending
      refl refl

bob-Sole : Sole (codes "tmp") bob.id system
unfolding same
bob-Sole = ground arith

verify_ends_login_example :
    let (r, s') = verify demo (codes "j") 7 (codes "tmp") (codes "42") system in
    (r ≡ ok (done (generate_tokens demo (codes "j") 7 bob.id bob.email)))
    × (pending (codes "tmp") s' ≡ none)
verify_ends_login_example =
    verify_ends_login demo (codes "j") 7 (codes "tmp") system demo-IsDatabase system_rows
      (codes "42") (codes "42") bob bob-IsOpen bob-Sole bob_secret code_right
