-- ===== src/Api/Absent.antt =====
-- Requests whose body lacks a field, or has null for it. src/main.ts installs no validation, so the decorators
-- of src/auth/dto and src/auth/mfa/dto are not run, and the handlers of src/auth/auth.service.ts and
-- src/auth/mfa/mfa.controller.ts look a user up by a value that is undefined or null: TypeORM leaves such a
-- condition out.
use proyecto_verde_auth.Auth.Service.{Draws, Origin, login, login_body, login_user, login_field}
use proyecto_verde_auth.Base.{
  ℕ, ◌≡◌, ap, sym, ◌∙◌, refl, Bool, List, ◌∷◌, Option, some, Text, true, first, same, same_refl,
  holds, BodyField, undefined, null_field, text_field, ◌⊎◌, inl, inr,
}
use proyecto_verde_auth.Exec.{Exec, System, ok, ◌>>=◌, continue}
use proyecto_verde_auth.Mfa.Verify.{
  verify, verify_backup, verify_biometric, verify_body, verify_backup_body, verify_biometric_body,
}
use proyecto_verde_auth.Platform.{Platform, IsDatabase}
use proyecto_verde_auth.Users.Entity.{User}
use proyecto_verde_auth.Users.Service.{find_by_email, find_by_mfa_temp_token, find_user_where}

-- The field is left out or null.
abbrev pub IsLacking : BodyField → Type 0
IsLacking f = (f ≡ undefined) ⊎ (f ≡ null_field)

module _ (p : Platform) where
  module _ (db : IsDatabase p) (s : System) (u : User) (rest : List User)
      (rows : s.users ≡ u ∷ rest) where
    -- A lookup whose test the first row passes.
    first_passes : (test : User → Bool) → test u ≡ true → p.users.find_one test s.users ≡ some u
    unfolding first
    first_passes test h =
        db.users_table.find_one_lem test s.users ∙ ap (first test) rows ∙ rw h refl

    absent_finds :
        (find : Text → Exec (Option User)) (f : BodyField)
        → IsLacking f
        → find_user_where p find f s ≡ (ok (some u), s)
    unfolding find_user_where
    absent_finds find f h =
        let read = ap (λ o. (ok o, s)) (first_passes (λ x. true) refl) in
        elim h [ inl left_out ↦ rw left_out read | inr is_null ↦ rw is_null read ]

    email_finds : find_by_email p u.email s ≡ (ok (some u), s)
    unfolding find_by_email
    email_finds = ap (λ o. (ok o, s)) (first_passes (λ x. same x.email u.email) (same_refl u.email))

    token_finds :
        (t : Text) → u.mfa_temp_token ≡ some t → find_by_mfa_temp_token p t s ≡ (ok (some u), s)
    unfolding find_by_mfa_temp_token
    token_finds t h =
        ap (λ o. (ok o, s))
          (first_passes (λ x. holds x.mfa_temp_token t) (ap (λ o. holds o t) h ∙ same_refl t))

    -- Two lookups that find the same are followed by the same.
    followed :
        {A : Type 0} (a b : Exec (Option User)) (k : Option User → Exec A)
        → a s ≡ (ok (some u), s)
        → b s ≡ (ok (some u), s)
        → (a >>= k) s ≡ (b >>= k) s
    followed a b k h h' =
        ap (λ (r, s'). continue k r s') h ∙ sym (ap (λ (r, s'). continue k r s') h')

    -- On a documented database, in every state whose first row has a pending login: a request to `login`
    -- whose email is left out or null is answered and does what the same request with the first row's email
    -- does, and requests to `verify`, `verifyBackup` and `verifyBiometric` whose temporary token is left out
    -- or null are answered and do what they do with the token of that login.
    pub absent-first :
        (now : ℕ) (d : Draws) (o : Origin) (password jti : Text) (iv : List ℕ) (t code : Text)
        (device lacking : BodyField)
        → u.mfa_temp_token ≡ some t
        → IsLacking lacking
        → (login_body p d now o lacking (text_field password) s
            ≡ login p d now o u.email password s)
          × (verify_body p jti now lacking code s ≡ verify p jti now t code s)
          × (verify_backup_body p jti now iv lacking code s ≡ verify_backup p jti now iv t code s)
          × (verify_biometric_body p jti now lacking device s
              ≡ verify_biometric p jti now t device s)
    unfolding login_body verify_body verify_backup_body verify_biometric_body login verify
        verify_backup verify_biometric login_field
    absent-first now d o password jti iv t code device lacking h l =
        let by_token = token_finds t h in
        let absent = find_user_where p (find_by_mfa_temp_token p) lacking in
        let none_given = absent_finds (find_by_mfa_temp_token p) lacking l in
        (
          followed (find_user_where p (find_by_email p) lacking) (find_by_email p u.email)
              (login_user p d now o password) (absent_finds (find_by_email p) lacking l)
              email_finds,
          followed absent (find_by_mfa_temp_token p t) _ none_given by_token,
          followed absent (find_by_mfa_temp_token p t) _ none_given by_token,
          followed absent (find_by_mfa_temp_token p t) _ none_given by_token,
        )
