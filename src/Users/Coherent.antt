-- ===== src/Users/Coherent.antt =====
-- The invariant of a user's row: the lock columns are set exactly from the limit of failures on, and
-- the temporary token has an expiry exactly while it is there. The writes of the service are taken one by one.
use proyecto_verde_auth.Base.{ℕ, suc, ◌≤◌, Option, none, some, Text, arith}
use proyecto_verde_auth.Users.Entity.{User}
use proyecto_verde_auth.Users.Service.{fail_login, clear_login, fail_mfa, clear_mfa}

-- `none` below the limit, `some` from it on.
abbrev pub LockedFrom : ℕ → ℕ → Option ℕ → Type 0
LockedFrom limit n none = suc n ≤ limit
LockedFrom limit n (some t) = limit ≤ n

abbrev pub Paired : Option Text → Option ℕ → Type 0
Paired none none = Unit
Paired (some t) (some e) = Unit
Paired _ _ = ⊥

pub record IsCoherent (u : User) : Type 0 where
  pub login_lock : LockedFrom 5 u.failed_attempts u.locked_until
  pub mfa_lock : LockedFrom 3 u.mfa_failed_attempts u.mfa_locked_until
  pub temp_token : Paired u.mfa_temp_token u.mfa_temp_token_expires

pub fail_login-IsCoherent : (now : ℕ) (u : User) → IsCoherent u → IsCoherent (fail_login now u)
unfolding fail_login
fail_login-IsCoherent now u h = ground arith

pub clear_login-IsCoherent : (u : User) → IsCoherent u → IsCoherent (clear_login u)
unfolding clear_login
clear_login-IsCoherent u h = ground arith

pub fail_mfa-IsCoherent : (now : ℕ) (u : User) → IsCoherent u → IsCoherent (fail_mfa now u)
unfolding fail_mfa
fail_mfa-IsCoherent now u h = ground arith

pub clear_mfa-IsCoherent : (u : User) → IsCoherent u → IsCoherent (clear_mfa u)
unfolding clear_mfa
clear_mfa-IsCoherent u h = ground arith
