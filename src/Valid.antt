-- ===== src/Valid.antt =====
-- The invariant of the stored state: the rows of the users are coherent, their ids are distinct, and the
-- sessions hold the hashes of drawn tokens.
use proyecto_verde_auth.Base.{All, Distinct}
use proyecto_verde_auth.Exec.{System}
use proyecto_verde_auth.Platform.{Bcrypt}
use proyecto_verde_auth.Sessions.Drawn.{IsDrawn}
use proyecto_verde_auth.Users.Coherent.{IsCoherent}
use proyecto_verde_auth.Users.Entity.{User}

pub record IsValid (b : Bcrypt) (s : System) : Type 0 where
  pub coherent : All IsCoherent s.users
  pub keys : Distinct (λ (u : User). u.id) s.users
  pub drawn : All (IsDrawn b) s.sessions
