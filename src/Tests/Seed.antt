-- ===== src/Tests/Seed.antt =====
-- The reset script on a locked account.
use proyecto_verde_auth.Base.{
  ◌≡◌, refl, ℕ, [], ◌∷◌, ◌++◌, some, codes, same, first, arith, length, select, rewrite, put,
}
use proyecto_verde_auth.Exec.{System}
use proyecto_verde_auth.Seed.Restored.{IsRestored, reset_users-IsRestored}
use proyecto_verde_auth.Seed.Scripts.{RowDraws, reset_users}
use proyecto_verde_auth.Tests.Demo.{demo, demo-IsDatabase, bob, bcrypt, system}
use proyecto_verde_auth.Users.Service.{new_user}
use proyecto_verde_auth.Valid.{IsValid}

abbrev locked_bob : System
locked_bob = record system {
  users = record bob { failed_attempts = 5; locked_until = some 900_000 } ∷ [];
}

abbrev row_draws : ℕ → RowDraws
row_draws n = record { id = codes "n" ++ (n ∷ []); salt = codes "x" }

locked_bob-IsValid : IsValid bcrypt locked_bob
locked_bob-IsValid = ground arith

reset_users-IsRestored_example :
    IsRestored demo (reset_users demo (λ n. codes "x") row_draws locked_bob).1
reset_users-IsRestored_example =
    reset_users-IsRestored demo demo-IsDatabase (λ n. codes "x") row_draws locked_bob
      locked_bob-IsValid

three_are_added : length (reset_users demo (λ n. codes "x") row_draws locked_bob).1.users ≡ 4
unfolding reset_users same first select rewrite put new_user
three_are_added = refl
