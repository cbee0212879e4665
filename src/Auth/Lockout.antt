-- ===== src/Auth/Lockout.antt =====
-- A run of logins with wrong passwords for one email.
use proyecto_verde_auth.Base.{
  ℕ, ◌+◌, ◌<◌, true, ◌≡◌, refl, false, true, List, [], ◌∷◌, none, some, Text, arith, All, length,
}
use proyecto_verde_auth.Auth.Login.{user_of, UserKeys, login_wrong_password, login_locked}
use proyecto_verde_auth.Auth.Service.{Draws, Origin, login}
use proyecto_verde_auth.Exec.{System, throws, forbidden}
use proyecto_verde_auth.Platform.{Platform, IsDatabase}
use proyecto_verde_auth.Users.Entity.{User}
use proyecto_verde_auth.Users.Service.{fail_login, later_than, lock_time}

pub record Attempt : Type 0 where
  pub draws : Draws
  pub now : ℕ
  pub origin : Origin
  pub password : Text

-- The state after the attempts, in order.
unfoldable pub attempts : Platform → Text → List Attempt → System → System
attempts p email [] s = s
attempts p email (a ∷ more) s =
    attempts p email more (login p a.draws a.now a.origin email a.password s).1

abbrev pub last_time : Attempt → List Attempt → ℕ
last_time a [] = a.now
last_time a (b ∷ more) = last_time b more

module _ (p : Platform) (db : IsDatabase p) (email : Text) where
  abbrev pub IsWrong : User → Attempt → Type 0
  IsWrong u a = p.bcrypt.compare a.password u.password_hash ≡ false

  -- Below the fifth failure the account stays unlocked; the fifth locks it.
  fail_login_below :
      (now : ℕ) (u : User)
      → u.locked_until ≡ none
      → u.failed_attempts + 1 < 5
      → (fail_login now u).locked_until ≡ none
  unfolding fail_login
  fail_login_below now u e h = ground arith

  count : (now : ℕ) (u : User) → (fail_login now u).failed_attempts ≡ u.failed_attempts + 1
  unfolding fail_login
  count now u = refl

  IsWrong-after :
      (now : ℕ) (u : User) (more : List Attempt)
      → All (IsWrong u) more
      → All (IsWrong (fail_login now u)) more
  unfolding fail_login
  IsWrong-after now u [] h = tt
  IsWrong-after now u (a ∷ more) h = (h.0, IsWrong-after now u more h.1)

  unlocked_now :
      (now : ℕ) (u : User) → u.locked_until ≡ none → later_than u.locked_until now ≡ false
  unfolding later_than
  unlocked_now now u e = rw e

  -- What failures leave as it is, and the count and the lock after the fifth.
  pub record IsLockedFrom (time : ℕ) (u v : User) : Type 0 where
    pub count : v.failed_attempts ≡ 5
    pub locked : v.locked_until ≡ some (time + lock_time)
    pub same_id : v.id ≡ u.id
    pub same_email : v.email ≡ u.email
    pub same_hash : v.password_hash ≡ u.password_hash
    pub same_mfa : v.mfa_enabled ≡ u.mfa_enabled

  fifth_IsLockedFrom :
      (now : ℕ) (u : User) → u.failed_attempts + 1 ≡ 5 → IsLockedFrom now u (fail_login now u)
  unfolding fail_login
  fifth_IsLockedFrom now u h = ground arith

  before_IsLockedFrom :
      (now time : ℕ) (u v : User) → IsLockedFrom time (fail_login now u) v → IsLockedFrom time u v
  unfolding fail_login
  before_IsLockedFrom now time u v h = ground arith

  pub failures_lock :
      (a : Attempt) (more : List Attempt) (s : System) (u : User)
      → UserKeys s
      → user_of email s ≡ some u
      → u.locked_until ≡ none
      → u.failed_attempts + length (a ∷ more) ≡ 5
      → All (IsWrong u) (a ∷ more)
      → (v : User) × (user_of email (attempts p email (a ∷ more) s) ≡ some v)
        × IsLockedFrom (last_time a more) u v
        × UserKeys (attempts p email (a ∷ more) s)
  unfolding attempts
  failures_lock a [] s u k e free n w =
      let (_, found, _, keys) =
        login_wrong_password p a.draws a.now a.origin email a.password s db u k e
          (unlocked_now a.now u free) w.0 in
      (fail_login a.now u, found, fifth_IsLockedFrom a.now u (omega arith), keys)
  failures_lock a (b ∷ more) s u k e free n w =
      let (_, found, _, keys) =
        login_wrong_password p a.draws a.now a.origin email a.password s db u k e
          (unlocked_now a.now u free) w.0 in
      let (v, last, locked, kept) =
        failures_lock b more (login p a.draws a.now a.origin email a.password s).1
          (fail_login a.now u) keys found (fail_login_below a.now u free (omega arith))
          (omega (arith, count a.now u)) (IsWrong-after a.now u (b ∷ more) w.1) in
      (v, last, before_IsLockedFrom a.now (last_time b more) u v locked, kept)

  pub still_locked :
      (now t : ℕ) (v : User)
      → v.locked_until ≡ some t
      → now < t
      → later_than v.locked_until now ≡ true
  unfolding later_than
  still_locked now t v e h = ground arith

  -- On a documented database whose users have distinct ids: logins with wrong passwords, one or more,
  -- that bring an account without a lock to five failures lock it: before 15 minutes after the
  -- last of them are over, the next login with any password is answered 403.
  pub failures_lock_out :
      (a : Attempt) (more : List Attempt) (s : System) (u : User)
      → UserKeys s
      → user_of email s ≡ some u
      → u.locked_until ≡ none
      → u.failed_attempts + length (a ∷ more) ≡ 5
      → All (IsWrong u) (a ∷ more)
      → (next : Attempt) → next.now < last_time a more + lock_time
      → (login p next.draws next.now next.origin email next.password
          (attempts p email (a ∷ more) s)).0
        ≡ throws (forbidden "Cuenta bloqueada. Intente más tarde.")
  failures_lock_out a more s u k e free n w next h =
      let (v, found, is_locked, _) = failures_lock a more s u k e free n w in
      (login_locked p next.draws next.now next.origin email next.password
        (attempts p email (a ∷ more) s) db v found
        (still_locked next.now (last_time a more + lock_time) v is_locked.locked h)).0
