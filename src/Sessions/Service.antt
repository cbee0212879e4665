-- ===== src/Sessions/Service.antt =====
-- src/sessions/sessions.service.ts, method by method. `now` is the instant of the request; the token that
-- `generateToken` draws, the salt and the new row's id are arguments.
use proyecto_verde_auth.Base.{
  ℕ, ◌+◌, Bool, true, false, not, ◌&&◌, List, [], ◌∷◌, Option, none, some, Text, same, ltb,
  if◌then◌else◌,
}
use proyecto_verde_auth.Exec.{Exec, pure, gets, modify, ◌>>=◌, ◌>>◌}
use proyecto_verde_auth.Platform.{Platform}
use proyecto_verde_auth.Sessions.Entity.{Session}

-- 7 * 24 * 60 * 60 * 1000
abbrev pub session_time : ℕ
session_time = 604_800_000

-- `where: { userId, isRevoked: false }`
abbrev pub is_open : Text → Session → Bool
is_open user x = same x.user_id user && not x.is_revoked

-- What one sign-in draws: the random token, the bcrypt salt and the generated id.
pub record SessionDraws : Type 0 where
  pub token : Text
  pub salt : Text
  pub id : Text

unfoldable pub new_session : Text → Text → Text → Text → Text → ℕ → Session
new_session id user hashed device ip now = record {
  id = id;
  user_id = user;
  refresh_token = hashed;
  device_info = some device;
  ip_address = some ip;
  expires_at = now + session_time;
  is_revoked = false;
}

module _ (p : Platform) where
  unfoldable pub create_refresh_token : SessionDraws → ℕ → Text → Text → Text → Exec Text
  unfolding new_session
  create_refresh_token d now user device ip =
      let x = new_session d.id user (p.bcrypt.hash d.salt d.token) device ip now in
      do modify (λ s. record s { sessions = p.sessions.save x s.sessions }); pure d.token

  -- the loop of `validateRefreshToken`
  unfoldable pub accepts : ℕ → Text → List Session → Bool
  accepts now token [] = false
  accepts now token (x ∷ rest) =
      if p.bcrypt.compare token x.refresh_token && ltb now x.expires_at
      then true
      else accepts now token rest

  unfoldable pub validate_refresh_token : ℕ → Text → Text → Exec Bool
  unfolding accepts
  validate_refresh_token now user token =
      gets (λ s. accepts now token (p.sessions.find (is_open user) s.sessions))

  -- the loop of `revokeSession`: the first row that matches, if any
  unfoldable pub matching : Text → List Session → Option Session
  matching token [] = none
  matching token (x ∷ rest) =
      if p.bcrypt.compare token x.refresh_token then some x else matching token rest

  unfoldable pub save_revoked : Option Session → Exec Unit
  save_revoked none = pure tt
  save_revoked (some x) =
      modify
        (λ s. record s { sessions = p.sessions.save (record x { is_revoked = true }) s.sessions })

  unfoldable pub revoke_session : Text → Text → Exec Unit
  unfolding matching save_revoked
  revoke_session user token = do
    found ← gets (λ s. matching token (p.sessions.find (is_open user) s.sessions))
    save_revoked found

  unfoldable pub revoke_all_user_sessions : Text → Exec Unit
  revoke_all_user_sessions user = modify λ s. record s {
    sessions = p.sessions.update (is_open user) (λ x. record x { is_revoked = true }) s.sessions;
  }

  unfoldable pub cleanup_expired_sessions : ℕ → Exec Unit
  cleanup_expired_sessions now =
      modify (λ s. record s { sessions = p.sessions.delete (λ x. ltb x.expires_at now) s.sessions })
