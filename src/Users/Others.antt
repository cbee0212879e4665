-- ===== src/Users/Others.antt =====
-- The row of one id under the methods of src/users/users.service.ts that write another.
use proyecto_verde_auth.Base.{
  ℕ, ◌≡◌, refl, true, false, List, [], ◌∷◌, Option, none, some, Text, same, same_iff, first,
  first-holds, put, rewrite, arith, BodyField,
}
use proyecto_verde_auth.Exec.{System}
use proyecto_verde_auth.Exec.Keeps.{Keeps, keeps_rules, Keeps-gets_bind}
use proyecto_verde_auth.Platform.{Platform, on_tables}
use proyecto_verde_auth.Users.Entity.{User}
use proyecto_verde_auth.Users.Service.{
  save_user, update_user, fail_login, clear_login, fail_mfa, enable_mfa, disable_mfa,
  clear_mfa_temp_token, update_backup_codes, set_mfa_temp_token, set_mfa_secret,
  reset_mfa_failed_attempts, enable_biometric, disable_biometric, save_failure,
  increment_mfa_failed_attempts, is_mfa_locked, validate_biometric, increment_failed_attempts,
  reset_failed_attempts, find_by_id,
}

abbrev pub row_of : Text → System → Option User
row_of k s = first (λ (x : User). same x.id k) s.users

-- No row, or the row of another id.
abbrev pub IsOther : Text → Option User → Type 0
IsOther k none = Unit
IsOther k (some u) = same u.id k ≡ false

first-rewrite_other :
    (k id : Text) (f : User → User) (xs : List User)
    → same id k ≡ false
    → ((x : User) → (f x).id ≡ x.id)
    → first (λ x. same x.id k) (rewrite (λ x. same x.id id) f xs) ≡ first (λ x. same x.id k) xs
unfolding first rewrite
first-rewrite_other k id f [] h e = refl
first-rewrite_other k id f (x ∷ xs) h e =
    ground (arith, e x, same_iff x.id id, first-rewrite_other k id f xs h e)

first-put_other :
    (k : Text) (u : User) (xs : List User)
    → same u.id k ≡ false
    → first (λ x. same x.id k) (put (λ x. same x.id u.id) u xs) ≡ first (λ x. same x.id k) xs
unfolding first put
first-put_other k u [] h = ground arith
first-put_other k u (x ∷ xs) h = ground (arith, same_iff x.id u.id, first-put_other k u xs h)

-- The row of `k` is `w`.
abbrev pub Row : Text → Option User → System → Type 0
Row k w s = row_of k s ≡ w

module _ (p : Platform) (k : Text) (w : Option User) where
  pub update_user-Row :
      (id : Text) (f : User → User)
      → same id k ≡ false
      → ((x : User) → (f x).id ≡ x.id)
      → Keeps (Row k w) (update_user (on_tables p) id f)
  update_user-Row id f h e = record { at = λ s r. rw (first-rewrite_other k id f s.users h e) r }

  pub save_user-Row : (u : User) → same u.id k ≡ false → Keeps (Row k w) (save_user (on_tables p) u)
  save_user-Row u h = record { at = λ s r. rw (first-put_other k u s.users h) r }

  pub enable_mfa-Row :
      (id t : Text) → same id k ≡ false → Keeps (Row k w) (enable_mfa (on_tables p) id t)
  unfolding enable_mfa
  enable_mfa-Row id t h = update_user-Row id _ h (λ x. refl)

  pub disable_mfa-Row :
      (id : Text) → same id k ≡ false → Keeps (Row k w) (disable_mfa (on_tables p) id)
  unfolding disable_mfa
  disable_mfa-Row id h = update_user-Row id _ h (λ x. refl)

  pub clear_mfa_temp_token-Row :
      (now : ℕ) (id : Text)
      → same id k ≡ false
      → Keeps (Row k w) (clear_mfa_temp_token (on_tables p) now id)
  unfolding clear_mfa_temp_token
  clear_mfa_temp_token-Row now id h = update_user-Row id _ h (λ x. refl)

  pub update_backup_codes-Row :
      (id t : Text) → same id k ≡ false → Keeps (Row k w) (update_backup_codes (on_tables p) id t)
  unfolding update_backup_codes
  update_backup_codes-Row id t h = update_user-Row id _ h (λ x. refl)

  pub set_mfa_temp_token-Row :
      (id t : Text) (e : ℕ)
      → same id k ≡ false
      → Keeps (Row k w) (set_mfa_temp_token (on_tables p) id t e)
  unfolding set_mfa_temp_token
  set_mfa_temp_token-Row id t e h = update_user-Row id _ h (λ x. refl)

  pub set_mfa_secret-Row :
      (id t : Text) → same id k ≡ false → Keeps (Row k w) (set_mfa_secret (on_tables p) id t)
  unfolding set_mfa_secret
  set_mfa_secret-Row id t h = update_user-Row id _ h (λ x. refl)

  pub reset_mfa_failed_attempts-Row :
      (id : Text) → same id k ≡ false → Keeps (Row k w) (reset_mfa_failed_attempts (on_tables p) id)
  unfolding reset_mfa_failed_attempts
  reset_mfa_failed_attempts-Row id h = update_user-Row id _ h (λ x. refl)

  pub enable_biometric-Row :
      (id : Text) (t : BodyField)
      → same id k ≡ false
      → Keeps (Row k w) (enable_biometric (on_tables p) id t)
  unfolding enable_biometric
  enable_biometric-Row id t h = update_user-Row id _ h (λ x. refl)

  pub disable_biometric-Row :
      (id : Text) → same id k ≡ false → Keeps (Row k w) (disable_biometric (on_tables p) id)
  unfolding disable_biometric
  disable_biometric-Row id h = update_user-Row id _ h (λ x. refl)

  pub increment_failed_attempts-Row :
      (now : ℕ) (u : User)
      → same u.id k ≡ false
      → Keeps (Row k w) (increment_failed_attempts (on_tables p) now u)
  unfolding increment_failed_attempts fail_login
  increment_failed_attempts-Row now u h = save_user-Row (fail_login now u) h

  pub reset_failed_attempts-Row :
      (u : User) → same u.id k ≡ false → Keeps (Row k w) (reset_failed_attempts (on_tables p) u)
  unfolding reset_failed_attempts clear_login
  reset_failed_attempts-Row u h = save_user-Row (clear_login u) h

  pub save_failure-Row :
      (now : ℕ) (o : Option User) → IsOther k o → Keeps (Row k w) (save_failure (on_tables p) now o)
  unfolding save_failure fail_mfa
  save_failure-Row now none h = search keeps_rules
  save_failure-Row now (some u) h = save_user-Row (fail_mfa now u) h

  found-IsOther :
      (id : Text) (o : Option User)
      → ((u : User) → o ≡ some u → same u.id id ≡ true)
      → same id k ≡ false
      → IsOther k o
  found-IsOther id none h d = tt
  found-IsOther id (some u) h d = ground (arith, h u refl, same_iff u.id id)

  pub increment_mfa_failed_attempts-Row :
      (now : ℕ) (id : Text)
      → same id k ≡ false
      → Keeps (Row k w) (increment_mfa_failed_attempts (on_tables p) now id)
  unfolding increment_mfa_failed_attempts find_by_id
  increment_mfa_failed_attempts-Row now id h =
      Keeps-gets_bind (IsOther k) (λ s. first (λ (x : User). same x.id id) s.users)
        (save_failure (on_tables p) now)
        (λ s r. found-IsOther id _ (first-holds (λ (x : User). same x.id id) s.users) h)
        (save_failure-Row now)

  pub is_mfa_locked-Row :
      (now : ℕ) (id : Text) → Keeps (Row k w) (is_mfa_locked (on_tables p) now id)
  unfolding is_mfa_locked
  is_mfa_locked-Row now id = record { at = λ s v. v }

  pub validate_biometric-Row :
      (id : Text) (t : BodyField) → Keeps (Row k w) (validate_biometric (on_tables p) id t)
  unfolding validate_biometric
  validate_biometric-Row id t = record { at = λ s v. v }

  pub find_by_id-Row : (id : Text) → Keeps (Row k w) (find_by_id (on_tables p) id)
  unfolding find_by_id
  find_by_id-Row id = search keeps_rules

pub ruleset row_rules = (
  keeps_rules, enable_mfa-Row, disable_mfa-Row, clear_mfa_temp_token-Row, update_backup_codes-Row,
  set_mfa_temp_token-Row, set_mfa_secret-Row, reset_mfa_failed_attempts-Row, enable_biometric-Row,
  disable_biometric-Row, increment_failed_attempts-Row, reset_failed_attempts-Row,
  increment_mfa_failed_attempts-Row, is_mfa_locked-Row, validate_biometric-Row, find_by_id-Row,
)
