-- ===== src/Users/Kept.antt =====
-- The methods of src/users/users.service.ts under the invariant of the stored state.
use proyecto_verde_auth.Base.{
  ℕ, ◌≡◌, refl, Bool, Option, none, some, Text, All, same, first, first-All, List, arith, put-All,
  rewrite-All, BodyField, undefined, null_field, text_field, true, put-Distinct, rewrite-Distinct,
}
use proyecto_verde_auth.Exec.{Exec, ◌>>=◌}
use proyecto_verde_auth.Exec.Keeps.{Keeps, keeps_rules, Keeps-gets_bind}
use proyecto_verde_auth.Platform.{Platform, on_tables}
use proyecto_verde_auth.Valid.{IsValid}
use proyecto_verde_auth.Users.Coherent.{
  IsCoherent, fail_login-IsCoherent, clear_login-IsCoherent, fail_mfa-IsCoherent,
}
use proyecto_verde_auth.Users.Entity.{User}
use proyecto_verde_auth.Users.Service.{
  find_by_email, find_by_id, save_user, update_user, increment_failed_attempts,
  reset_failed_attempts, enable_mfa, disable_mfa, clear_mfa_temp_token, update_backup_codes,
  set_mfa_temp_token, set_mfa_secret, save_failure, increment_mfa_failed_attempts,
  reset_mfa_failed_attempts, is_mfa_locked, enable_biometric, disable_biometric, validate_biometric,
  fail_login, clear_login, fail_mfa, find_user_where,
}

-- A row that a search may have returned.
abbrev pub Found : Option User → Type 0
Found none = Unit
Found (some u) = IsCoherent u

first-Found : (q : User → Bool) (us : List User) → All IsCoherent us → Found (first q us)
first-Found q us h = go (first q us) refl
  where
    go : (o : Option User) → first q us ≡ o → Found o
    go none e = tt
    go (some u) e = first-All IsCoherent q us u h e

module _ (p : Platform) where
  pub save_user-Keeps :
      (u : User) → IsCoherent u → Keeps (IsValid p.bcrypt) (save_user (on_tables p) u)
  save_user-Keeps u c = record {
    at = λ s v. record {
      coherent = put-All IsCoherent (λ x. same x.id u.id) u s.users c v.coherent;
      keys = put-Distinct (λ (x : User). x.id) u s.users v.keys;
      drawn = v.drawn;
    };
  }

  pub update_user-Keeps :
      (id : Text) (f : User → User)
      → ((x : User) → IsCoherent x → IsCoherent (f x))
      → ((x : User) → (f x).id ≡ x.id)
      → Keeps (IsValid p.bcrypt) (update_user (on_tables p) id f)
  update_user-Keeps id f c k = record {
    at = λ s v. record {
      coherent = rewrite-All IsCoherent (λ x. same x.id id) f s.users c v.coherent;
      keys = rewrite-Distinct (λ (x : User). x.id) (λ x. same x.id id) f s.users k v.keys;
      drawn = v.drawn;
    };
  }

  module _ {A : Type 0} (g : Option User → Exec A)
      (k : (o : Option User) → Found o → Keeps (IsValid p.bcrypt) (g o)) where
    pub find_by_email-Keeps :
        (email : Text) → Keeps (IsValid p.bcrypt) (find_by_email (on_tables p) email >>= g)
    unfolding find_by_email
    find_by_email-Keeps email =
        Keeps-gets_bind Found (λ s. first (λ u. same u.email email) s.users) g
          (λ s v. first-Found (λ u. same u.email email) s.users v.coherent) k

    -- After a lookup by a field of the body, whatever it is.
    pub find_user_where-Keeps :
        (find : Text → Exec (Option User)) (field : BodyField)
        → ((t : Text) → Keeps (IsValid p.bcrypt) (find t >>= g))
        → Keeps (IsValid p.bcrypt) (find_user_where (on_tables p) find field >>= g)
    unfolding find_user_where
    find_user_where-Keeps find (text_field t) h = h t
    find_user_where-Keeps find undefined h =
        Keeps-gets_bind Found (λ s. first (λ u. true) s.users) g
          (λ s v. first-Found (λ u. true) s.users v.coherent) k
    find_user_where-Keeps find null_field h =
        Keeps-gets_bind Found (λ s. first (λ u. true) s.users) g
          (λ s v. first-Found (λ u. true) s.users v.coherent) k

    pub find_by_id-Keeps :
        (id : Text) → Keeps (IsValid p.bcrypt) (find_by_id (on_tables p) id >>= g)
    unfolding find_by_id
    find_by_id-Keeps id =
        Keeps-gets_bind Found (λ s. first (λ u. same u.id id) s.users) g
          (λ s v. first-Found (λ u. same u.id id) s.users v.coherent) k

  pub increment_failed_attempts-Keeps :
      (now : ℕ) (u : User)
      → IsCoherent u
      → Keeps (IsValid p.bcrypt) (increment_failed_attempts (on_tables p) now u)
  unfolding increment_failed_attempts
  increment_failed_attempts-Keeps now u c =
      save_user-Keeps (fail_login now u) (fail_login-IsCoherent now u c)

  pub reset_failed_attempts-Keeps :
      (u : User) → IsCoherent u → Keeps (IsValid p.bcrypt) (reset_failed_attempts (on_tables p) u)
  unfolding reset_failed_attempts
  reset_failed_attempts-Keeps u c = save_user-Keeps (clear_login u) (clear_login-IsCoherent u c)

  pub enable_mfa-Keeps : (id t : Text) → Keeps (IsValid p.bcrypt) (enable_mfa (on_tables p) id t)
  unfolding enable_mfa
  enable_mfa-Keeps id t = update_user-Keeps id _ (λ x c. ground arith) (λ x. refl)

  pub disable_mfa-Keeps : (id : Text) → Keeps (IsValid p.bcrypt) (disable_mfa (on_tables p) id)
  unfolding disable_mfa
  disable_mfa-Keeps id = update_user-Keeps id _ (λ x c. ground arith) (λ x. refl)

  pub clear_mfa_temp_token-Keeps :
      (now : ℕ) (id : Text) → Keeps (IsValid p.bcrypt) (clear_mfa_temp_token (on_tables p) now id)
  unfolding clear_mfa_temp_token
  clear_mfa_temp_token-Keeps now id = update_user-Keeps id _ (λ x c. ground arith) (λ x. refl)

  pub update_backup_codes-Keeps :
      (id t : Text) → Keeps (IsValid p.bcrypt) (update_backup_codes (on_tables p) id t)
  unfolding update_backup_codes
  update_backup_codes-Keeps id t = update_user-Keeps id _ (λ x c. ground arith) (λ x. refl)

  pub set_mfa_temp_token-Keeps :
      (id t : Text) (e : ℕ) → Keeps (IsValid p.bcrypt) (set_mfa_temp_token (on_tables p) id t e)
  unfolding set_mfa_temp_token
  set_mfa_temp_token-Keeps id t e = update_user-Keeps id _ (λ x c. ground arith) (λ x. refl)

  pub set_mfa_secret-Keeps :
      (id t : Text) → Keeps (IsValid p.bcrypt) (set_mfa_secret (on_tables p) id t)
  unfolding set_mfa_secret
  set_mfa_secret-Keeps id t = update_user-Keeps id _ (λ x c. ground arith) (λ x. refl)

  pub reset_mfa_failed_attempts-Keeps :
      (id : Text) → Keeps (IsValid p.bcrypt) (reset_mfa_failed_attempts (on_tables p) id)
  unfolding reset_mfa_failed_attempts
  reset_mfa_failed_attempts-Keeps id = update_user-Keeps id _ (λ x c. ground arith) (λ x. refl)

  pub enable_biometric-Keeps :
      (id : Text) (t : BodyField) → Keeps (IsValid p.bcrypt) (enable_biometric (on_tables p) id t)
  unfolding enable_biometric
  enable_biometric-Keeps id t = update_user-Keeps id _ (λ x c. ground arith) (λ x. refl)

  pub disable_biometric-Keeps :
      (id : Text) → Keeps (IsValid p.bcrypt) (disable_biometric (on_tables p) id)
  unfolding disable_biometric
  disable_biometric-Keeps id = update_user-Keeps id _ (λ x c. ground arith) (λ x. refl)

  save_failure-Keeps :
      (now : ℕ) (o : Option User)
      → Found o
      → Keeps (IsValid p.bcrypt) (save_failure (on_tables p) now o)
  unfolding save_failure
  save_failure-Keeps now none c = search keeps_rules
  save_failure-Keeps now (some u) c = save_user-Keeps (fail_mfa now u) (fail_mfa-IsCoherent now u c)

  pub increment_mfa_failed_attempts-Keeps :
      (now : ℕ) (id : Text)
      → Keeps (IsValid p.bcrypt) (increment_mfa_failed_attempts (on_tables p) now id)
  unfolding increment_mfa_failed_attempts
  increment_mfa_failed_attempts-Keeps now id =
      find_by_id-Keeps (save_failure (on_tables p) now) (save_failure-Keeps now) id

  pub is_mfa_locked-Keeps :
      (now : ℕ) (id : Text) → Keeps (IsValid p.bcrypt) (is_mfa_locked (on_tables p) now id)
  unfolding is_mfa_locked
  is_mfa_locked-Keeps now id = record { at = λ s v. v }

  pub validate_biometric-Keeps :
      (id : Text) (t : BodyField) → Keeps (IsValid p.bcrypt) (validate_biometric (on_tables p) id t)
  unfolding validate_biometric
  validate_biometric-Keeps id t = record { at = λ s v. v }

pub ruleset users_rules = (
  keeps_rules, enable_mfa-Keeps, disable_mfa-Keeps, clear_mfa_temp_token-Keeps,
  update_backup_codes-Keeps, set_mfa_temp_token-Keeps, set_mfa_secret-Keeps,
  reset_mfa_failed_attempts-Keeps, enable_biometric-Keeps, disable_biometric-Keeps,
  increment_mfa_failed_attempts-Keeps, is_mfa_locked-Keeps, validate_biometric-Keeps,
  increment_failed_attempts-Keeps, reset_failed_attempts-Keeps,
)
