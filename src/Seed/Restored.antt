-- ===== src/Seed/Restored.antt =====
-- The rows after the reset script of src/database/seed/reset-users.ts.
use proyecto_verde_auth.Base.{
  ℕ, ◌+◌, ◌≡◌, refl, true, false, List, [], ◌∷◌, Option, none, some, Text, All, same, put-All,
  select, select-All, rewrite, rewrite-All, rewrite-Distinct, arith,
}
use proyecto_verde_auth.Exec.{System, gets, ◌>>=◌}
use proyecto_verde_auth.Exec.Keeps.{Keeps, keeps_rules, Keeps-gets_bind, Keeps-then}
use proyecto_verde_auth.Platform.{Platform, IsDatabase, IsDatabase-eq, on_tables}
use proyecto_verde_auth.Seed.Scripts.{
  RowDraws, reset_row, seed_password, add_unless, ensure_user, rehash, set_passwords, reset_users,
}
use proyecto_verde_auth.Users.Coherent.{IsCoherent}
use proyecto_verde_auth.Users.Entity.{User}
use proyecto_verde_auth.Users.Kept.{save_user-Keeps}
use proyecto_verde_auth.Users.Service.{new_user, save_user}
use proyecto_verde_auth.Valid.{IsValid}

-- No failures, no locks, no second factor, and no login that waits for one.
pub record IsOpened (u : User) : Type 0 where
  pub failures : u.failed_attempts ≡ 0
  pub unlocked : u.locked_until ≡ none
  pub no_mfa : u.mfa_enabled ≡ false
  pub mfa_failures : u.mfa_failed_attempts ≡ 0
  pub mfa_unlocked : u.mfa_locked_until ≡ none
  pub no_token : u.mfa_temp_token ≡ none
  pub no_expiry : u.mfa_temp_token_expires ≡ none

IsOpened-IsCoherent : (u : User) → IsOpened u → IsCoherent u
IsOpened-IsCoherent u h = record {
  login_lock = rw (h.unlocked, h.failures) (omega arith);
  mfa_lock = rw (h.mfa_unlocked, h.mfa_failures) (omega arith);
  temp_token = rw (h.no_token, h.no_expiry) tt;
}

reset_row-IsOpened : (u : User) → IsOpened (reset_row u)
unfolding reset_row
reset_row-IsOpened u = record {
  failures = refl;
  unlocked = refl;
  no_mfa = refl;
  mfa_failures = refl;
  mfa_unlocked = refl;
  no_token = refl;
  no_expiry = refl;
}

rewrite-IsOpened : (us : List User) → All IsOpened (rewrite (λ _. true) reset_row us)
unfolding rewrite
rewrite-IsOpened [] = tt
rewrite-IsOpened (u ∷ us) = (reset_row-IsOpened u, rewrite-IsOpened us)

new_user-IsOpened : (id email hashed : Text) → IsOpened (new_user id email hashed)
unfolding new_user
new_user-IsOpened id email hashed = record {
  failures = refl;
  unlocked = refl;
  no_mfa = refl;
  mfa_failures = refl;
  mfa_unlocked = refl;
  no_token = refl;
  no_expiry = refl;
}

rehashed-IsOpened :
    (u : User) (hashed : Text) → IsOpened u → IsOpened (record u { password_hash = hashed })
rehashed-IsOpened u hashed h = record {
  failures = h.failures;
  unlocked = h.unlocked;
  no_mfa = h.no_mfa;
  mfa_failures = h.mfa_failures;
  mfa_unlocked = h.mfa_unlocked;
  no_token = h.no_token;
  no_expiry = h.no_expiry;
}

module _ (p : Platform) where
  abbrev pub IsRestored : System → Type 0
  IsRestored s = IsValid p.bcrypt s × All IsOpened s.users

  save-IsRestored : (u : User) → IsOpened u → Keeps IsRestored (save_user (on_tables p) u)
  save-IsRestored u h = record {
    at = λ s (v, opened). (
      (save_user-Keeps p u (IsOpened-IsCoherent u h)).at s v,
      put-All IsOpened (λ x. same x.id u.id) u s.users h opened,
    );
  }

  add_unless-IsRestored :
      (d : RowDraws) (email password : Text) (o : Option User)
      → Keeps IsRestored (add_unless (on_tables p) d email password o)
  unfolding add_unless
  add_unless-IsRestored d email password none =
      save-IsRestored (new_user d.id email (p.bcrypt.hash d.salt password))
        (new_user-IsOpened d.id email (p.bcrypt.hash d.salt password))
  add_unless-IsRestored d email password (some u) = search keeps_rules

  ensure_user-IsRestored :
      (d : RowDraws) (email password : Text)
      → Keeps IsRestored (ensure_user (on_tables p) d email password)
  unfolding ensure_user
  ensure_user-IsRestored d email password = search (keeps_rules, add_unless-IsRestored)

  rehash-IsRestored :
      (salt : ℕ → Text) (i : ℕ) (us : List User)
      → All IsOpened us
      → Keeps IsRestored (rehash (on_tables p) salt i us)
  unfolding rehash
  rehash-IsRestored salt i [] h = search keeps_rules
  rehash-IsRestored salt i (u ∷ us) h =
      Keeps-then _ _
        (save-IsRestored _
          (rehashed-IsOpened u (p.bcrypt.hash (salt i) (seed_password u.email)) h.0))
        (rehash-IsRestored salt (i + 1) us h.1)

  set_passwords-IsRestored :
      (salt : ℕ → Text) (d : ℕ → RowDraws) (us : List User)
      → All IsOpened us
      → Keeps IsRestored (set_passwords (on_tables p) salt d us)
  unfolding set_passwords
  set_passwords-IsRestored salt d us h = Keeps-then _ _ (rehash-IsRestored salt 0 us h) (
      Keeps-then _ _ (ensure_user-IsRestored (d 0) _ _)
        (Keeps-then _ _ (ensure_user-IsRestored (d 1) _ _) (ensure_user-IsRestored (d 2) _ _)))

  after_reset-IsRestored :
      (salt : ℕ → Text) (d : ℕ → RowDraws)
      → Keeps IsRestored
          (gets (λ s. select (λ _. true) s.users) >>= set_passwords (on_tables p) salt d)
  after_reset-IsRestored salt d =
      Keeps-gets_bind (All IsOpened) (λ s. select (λ _. true) s.users)
        (set_passwords (on_tables p) salt d)
        (λ s (v, opened). select-All IsOpened (λ _. true) s.users opened)
        (set_passwords-IsRestored salt d)

  reset_tables :
      (salt : ℕ → Text) (d : ℕ → RowDraws) (s : System)
      → IsValid p.bcrypt s
      → IsRestored (reset_users (on_tables p) salt d s).1
  unfolding reset_users reset_row
  reset_tables salt d s v =
      (after_reset-IsRestored salt d).at
        (record s { users = rewrite (λ _. true) reset_row s.users })
        (
          record {
            coherent =
                rewrite-All IsCoherent (λ _. true) reset_row s.users
                  (λ x c. IsOpened-IsCoherent (reset_row x) (reset_row-IsOpened x)) v.coherent;
            keys =
                rewrite-Distinct (λ (x : User). x.id) (λ _. true) reset_row s.users (λ x. refl)
                  v.keys;
            drawn = v.drawn;
          },
          rewrite-IsOpened s.users,
        )

  -- On a documented database: after the reset script has run on a valid state, the state is valid, and no
  -- row has failures, a lock, a second factor or a login that waits for one.
  pub reset_users-IsRestored :
      IsDatabase p
      → (salt : ℕ → Text) (d : ℕ → RowDraws) (s : System) → IsValid p.bcrypt s
      → IsRestored (reset_users p salt d s).1
  reset_users-IsRestored db salt d s v = rw (IsDatabase-eq p db) (reset_tables salt d s v)
