-- ===== src/Auth/LockEnds.antt =====
-- Logins after the lock of an account has run out.
use proyecto_verde_auth.Base.{
  ℕ, ◌+◌, ◌<◌, ◌≤◌, true, ◌≡◌, false, true, List, [], ◌∷◌, none, some, Text, arith, All, length,
}
use proyecto_verde_auth.Auth.Jwt.{generate_access_token, generate_refresh_token}
use proyecto_verde_auth.Auth.Login.{
  user_of, UserKeys, login_wrong_password, login_locked, login_admits,
}
use proyecto_verde_auth.Auth.Service.{login, signed_in}
use proyecto_verde_auth.Exec.{System, ok, throws, forbidden}
use proyecto_verde_auth.Platform.{Platform, IsDatabase}
use proyecto_verde_auth.Users.Entity.{User}
use proyecto_verde_auth.Users.Service.{fail_login, later_than, lock_time}
use proyecto_verde_auth.Auth.Lockout.{
  Attempt, attempts, last_time, IsWrong, failures_lock, still_locked,
}

module _ (p : Platform) (db : IsDatabase p) (email : Text) where
  no_longer_locked :
      (now t : ℕ) (v : User)
      → v.locked_until ≡ some t
      → t ≤ now
      → later_than v.locked_until now ≡ false
  unfolding later_than
  no_longer_locked now t v e h = ground arith

  fail_login_again :
      (now : ℕ) (v : User)
      → v.failed_attempts ≡ 5
      → (fail_login now v).locked_until ≡ some (now + lock_time)
  unfolding fail_login
  fail_login_again now v h = ground arith

  -- On a documented database whose users have distinct ids, after logins with wrong passwords that bring an
  -- account without a lock and without a second factor to five failures: from 15 minutes after the last of
  -- them on, a login with a password that matches the account's hash gives its signed tokens.
  pub lock_ends :
      (a : Attempt) (more : List Attempt) (s : System) (u : User)
      → UserKeys s
      → user_of email s ≡ some u
      → u.locked_until ≡ none
      → u.failed_attempts + length (a ∷ more) ≡ 5
      → All (IsWrong p db email u) (a ∷ more)
      → u.mfa_enabled ≡ false
      → (next : Attempt) → last_time a more + lock_time ≤ next.now
      → p.bcrypt.compare next.password u.password_hash ≡ true
      → (login p next.draws next.now next.origin email next.password
          (attempts p email (a ∷ more) s)).0
        ≡ ok (
            signed_in (record {
              access_token = generate_access_token p next.now u.id u.email;
              refresh_token = generate_refresh_token p next.draws.jti next.now u.id;
              expires_in = 900;
            }))
  lock_ends a more s u k e free n w alone next h right =
      let (v, found, l, _) = failures_lock p db email a more s u k e free n w in
      rw (← l.same_id, ← l.same_email)
        (login_admits p next.draws next.now next.origin email next.password
          (attempts p email (a ∷ more) s) db v
          (
            found,
            no_longer_locked next.now (last_time a more + lock_time) v l.locked h,
            rw l.same_hash right,
          )
          (rw l.same_mfa alone))

  -- On a documented database whose users have distinct ids, after logins with wrong passwords that bring an
  -- account without a lock to five failures: from 15 minutes after the last of them on, a single wrong
  -- password locks the account again, so that a login with any password is answered 403 before another 15
  -- minutes are over.
  pub one_failure_relocks :
      (a : Attempt) (more : List Attempt) (s : System) (u : User)
      → UserKeys s
      → user_of email s ≡ some u
      → u.locked_until ≡ none
      → u.failed_attempts + length (a ∷ more) ≡ 5
      → All (IsWrong p db email u) (a ∷ more)
      → (again next : Attempt) → last_time a more + lock_time ≤ again.now
      → IsWrong p db email u again
      → next.now < again.now + lock_time
      → (login p next.draws next.now next.origin email next.password
          (attempts p email (again ∷ []) (attempts p email (a ∷ more) s))).0
        ≡ throws (forbidden "Cuenta bloqueada. Intente más tarde.")
  unfolding attempts
  one_failure_relocks a more s u k e free n w again next h wrong before =
      let (v, found, l, keys) = failures_lock p db email a more s u k e free n w in
      let (_, now_found, _, _) =
        login_wrong_password p again.draws again.now again.origin email again.password
          (attempts p email (a ∷ more) s) db v keys found
          (no_longer_locked again.now (last_time a more + lock_time) v l.locked h)
          (rw l.same_hash wrong) in
      (login_locked p next.draws next.now next.origin email next.password
        (attempts p email (again ∷ []) (attempts p email (a ∷ more) s)) db (fail_login again.now v)
        now_found
        (still_locked p db email next.now (again.now + lock_time) (fail_login again.now v)
          (fail_login_again again.now v l.count) before)).0
