-- ===== src/Tests/Grants.antt =====
-- A run of the sessions service: two sign-ins, a revocation and a clean-up.
use proyecto_verde_auth.Base.{◌+◌, ◌≡◌, refl, true, false, codes, same, arith, put}
use proyecto_verde_auth.Exec.{System, ok}
use proyecto_verde_auth.Sessions.Grants.{Grants, no_grants, grant, withdraw}
use proyecto_verde_auth.Sessions.Refinement.{
  Calls, empty, created, revoked, cleaned, IsNew, validate-Calls,
}
use proyecto_verde_auth.Sessions.Service.{
  SessionDraws, session_time, create_refresh_token, revoke_session, cleanup_expired_sessions,
  validate_refresh_token,
}
use proyecto_verde_auth.Tests.Demo.{demo, demo-IsDatabase, bcrypt-BcryptLaws, system}

abbrev first_draws : SessionDraws
first_draws = record { token = codes "s"; salt = codes "x"; id = codes "n" }

abbrev second_draws : SessionDraws
second_draws = record { token = codes "t"; salt = codes "x"; id = codes "m" }

abbrev one_open : System
one_open =
    (create_refresh_token demo first_draws 7 (codes "1") (codes "curl") (codes "::1") system).1

abbrev two_open : System
two_open =
    (create_refresh_token demo second_draws 8 (codes "1") (codes "curl") (codes "::1") one_open).1

abbrev one_closed : System
one_closed = (revoke_session demo (codes "1") (codes "s") two_open).1

abbrev one_grant : Grants
one_grant = withdraw (codes "1") (codes "s") (
    grant (codes "1") (codes "t") (8 + session_time)
      (grant (codes "1") (codes "s") (7 + session_time) no_grants))

first-IsNew : IsNew demo first_draws system
first-IsNew = ground arith

second-IsNew : IsNew demo second_draws one_open
unfolding create_refresh_token put same
second-IsNew = ground arith

calls : Calls demo 9 (cleanup_expired_sessions demo 9 one_closed).1 one_grant
calls =
    cleaned 9
      (revoked (codes "1") (codes "s") (
        created second_draws 8 (codes "1") (codes "curl") (codes "::1")
          (created first_draws 7 (codes "1") (codes "curl") (codes "::1") (empty system refl)
            (omega arith) first-IsNew)
          (omega arith) second-IsNew))
      (omega arith)

validate-Calls_example :
    (validate_refresh_token demo 20
      (codes "1")
      (codes "t")
      (cleanup_expired_sessions demo 9 one_closed).1).0
    ≡ ok (one_grant (codes "1") (codes "t") 20)
validate-Calls_example =
    validate-Calls demo bcrypt-BcryptLaws demo-IsDatabase calls 20 (codes "1") (codes "t")
      (omega arith)

granted : one_grant (codes "1") (codes "t") 20 ≡ true
unfolding same
granted = refl

not_granted : one_grant (codes "1") (codes "s") 20 ≡ false
unfolding same
not_granted = refl
