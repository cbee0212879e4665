-- ===== src/Tests/Absent.antt =====
-- A state whose first row is Bob's, who has a pending login.
use proyecto_verde_auth.Api.Absent.{absent-first}
use proyecto_verde_auth.Auth.Service.{login, login_body}
use proyecto_verde_auth.Base.{◌≡◌, refl, [], ◌∷◌, codes, inl, undefined, text_field}
use proyecto_verde_auth.Exec.{System}
use proyecto_verde_auth.Mfa.Verify.{
  verify, verify_backup, verify_biometric, verify_body, verify_backup_body, verify_biometric_body,
}
use proyecto_verde_auth.Tests.Demo.{demo, demo-IsDatabase, system, ann, bob, draws, origin}

abbrev bob_first : System
bob_first = record system { users = bob ∷ ann ∷ [] }

absent-first_example :
    (login_body demo draws 7 origin undefined (text_field (codes "pw")) bob_first
      ≡ login demo draws 7 origin (codes "bob@bv") (codes "pw") bob_first)
    × (verify_body demo (codes "j") 7 undefined (codes "42") bob_first
        ≡ verify demo (codes "j") 7 (codes "tmp") (codes "42") bob_first)
    × (verify_backup_body demo (codes "j") 7 [] undefined (codes "42") bob_first
        ≡ verify_backup demo (codes "j") 7 [] (codes "tmp") (codes "42") bob_first)
    × (verify_biometric_body demo (codes "j") 7 undefined (text_field (codes "dev")) bob_first
        ≡ verify_biometric demo (codes "j") 7 (codes "tmp") (text_field (codes "dev")) bob_first)
absent-first_example =
    absent-first demo demo-IsDatabase bob_first bob (ann ∷ []) refl 7 draws origin (codes "pw")
      (codes "j") [] (codes "tmp") (codes "42") (text_field (codes "dev")) undefined refl (inl refl)
