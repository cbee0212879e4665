-- ===== src/Tests/Sessions.antt =====
-- Sessions of the demonstration users, opened, revoked and cleaned up.
use proyecto_verde_auth.Base.{◌≡◌, refl, true, false, [], ◌∷◌, codes, same, select, rewrite, put}
use proyecto_verde_auth.Exec.{System, ok}
use proyecto_verde_auth.Sessions.Service.{
  new_session, create_refresh_token, validate_refresh_token, revoke_all_user_sessions,
  cleanup_expired_sessions,
}
use proyecto_verde_auth.Tests.Demo.{demo, system, draws}

-- Ann's session, open until 50, and Bob's, open until 9.
abbrev two_sessions : System
two_sessions = record system {
  sessions =
      record (new_session (codes "a") (codes "1") (codes "ta") (codes "curl") (codes "::1") 0) {
        expires_at = 50;
      }
      ∷ record (new_session (codes "b") (codes "2") (codes "tb") (codes "curl") (codes "::1") 0) {
        expires_at = 9;
      }
      ∷ [];
}

bob_is_open : (validate_refresh_token demo 5 (codes "2") (codes "tb") two_sessions).0 ≡ ok true
unfolding validate_refresh_token same select new_session
bob_is_open = refl

bob_is_closed :
    (validate_refresh_token demo 10
      (codes "2")
      (codes "tb")
      (cleanup_expired_sessions demo 10 two_sessions).1).0
    ≡ ok false
unfolding validate_refresh_token cleanup_expired_sessions same select new_session
bob_is_closed = refl

ann_is_revoked :
    (validate_refresh_token demo 5
      (codes "1")
      (codes "ta")
      (revoke_all_user_sessions demo (codes "1") two_sessions).1).0
    ≡ ok false
unfolding validate_refresh_token revoke_all_user_sessions same select new_session rewrite
ann_is_revoked = refl

new_token_is_good :
    (validate_refresh_token demo 100
      (codes "1")
      (codes "s")
      (create_refresh_token demo draws.session 7
        (codes "1")
        (codes "curl")
        (codes "::1")
        two_sessions).1).0
    ≡ ok true
unfolding validate_refresh_token create_refresh_token same select new_session put
new_token_is_good = refl
