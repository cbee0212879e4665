-- ===== src/Sessions/Laws.antt =====
-- The sessions service on plain tables of sessions.
use proyecto_verde_auth.Base.{
  ℕ, ◌+◌, ◌≤◌, ◌<◌, ◌≡◌, refl, Bool, true, false, not, List, [], ◌∷◌, Text, same, ltb, arith,
  select, put, rewrite, same_iff, same_refl, ap,
}
use proyecto_verde_auth.Exec.{System, ok}
use proyecto_verde_auth.Platform.{Platform, IsDatabase, IsDatabase-eq, on_tables, BcryptLaws}
use proyecto_verde_auth.Sessions.Entity.{Session}
use proyecto_verde_auth.Sessions.Service.{
  SessionDraws, session_time, is_open, accepts, new_session, create_refresh_token,
  validate_refresh_token, revoke_all_user_sessions, cleanup_expired_sessions,
}

-- `validateRefreshToken` as one question to the state.
abbrev pub valid_for : Platform → ℕ → Text → Text → System → Bool
valid_for p now user token s = accepts p now token (p.sessions.find (is_open user) s.sessions)

module _ (p : Platform) where
  -- Dropping what has expired changes no answer, then or later.
  pub accepts-cleanup :
      (now later : ℕ) (user token : Text) (xs : List Session)
      → now ≤ later
      → accepts p later token (select (is_open user) (select (λ x. not (ltb x.expires_at now)) xs))
        ≡ accepts p later token (select (is_open user) xs)
  unfolding accepts select
  accepts-cleanup now later user token [] h = refl
  accepts-cleanup now later user token (x ∷ xs) h =
      ground (arith, accepts-cleanup now later user token xs h)

  -- After revoking, no open session of the user is left.
  none_open :
      (user : Text) (xs : List Session)
      → select (is_open user) (rewrite (is_open user) (λ x. record x { is_revoked = true }) xs) ≡ []
  unfolding select rewrite
  none_open user [] = refl
  none_open user (x ∷ xs) = ground (arith, none_open user xs)

  others_open :
      (user other : Text) (xs : List Session)
      → same user other ≡ false
      → select (is_open other) (rewrite (is_open user) (λ x. record x { is_revoked = true }) xs)
        ≡ select (is_open other) xs
  unfolding select rewrite
  others_open user other [] h = refl
  others_open user other (x ∷ xs) h = ground (
    arith,
    others_open user other xs h,
    same_iff x.user_id user,
    same_iff x.user_id other,
    same_iff user other,
  )

  -- A `createRefreshToken` token is accepted among the user's open sessions, until it expires.
  accepts-put :
      BcryptLaws p.bcrypt
      → (d : SessionDraws) (user device ip : Text) (now later : ℕ) (xs : List Session)
      → later < now + session_time
      → let x = new_session d.id user (p.bcrypt.hash d.salt d.token) device ip now in
        accepts p later d.token (select (is_open user) (put (λ y. same y.id x.id) x xs)) ≡ true
  unfolding accepts select put new_session
  accepts-put laws d user device ip now later [] h =
      ground (arith, same_refl user, laws.compare-hash d.salt d.token)
  accepts-put laws d user device ip now later (y ∷ xs) h = ground (
    arith,
    same_refl user,
    laws.compare-hash d.salt d.token,
    accepts-put laws d user device ip now later xs h,
  )

  revoke_all_tables :
      (now : ℕ) (user other token : Text) (s : System)
      → same user other ≡ false
      → let s' = (revoke_all_user_sessions (on_tables p) user s).1 in
        ((validate_refresh_token (on_tables p) now user token s').0 ≡ ok false)
        × ((validate_refresh_token (on_tables p) now other token s').0
            ≡ (validate_refresh_token (on_tables p) now other token s).0)
  unfolding validate_refresh_token revoke_all_user_sessions accepts
  revoke_all_tables now user other token s h =
      (rw (none_open user s.sessions), rw (others_open user other s.sessions h))

  create_tables :
      BcryptLaws p.bcrypt
      → (d : SessionDraws) (now later : ℕ) (user device ip : Text) (s : System)
      → later < now + session_time
      → let (r, s') = create_refresh_token (on_tables p) d now user device ip s in
        (r ≡ ok d.token)
        × ((validate_refresh_token (on_tables p) later user d.token s').0 ≡ ok true)
  unfolding validate_refresh_token create_refresh_token
  create_tables laws d now later user device ip s h =
      (refl, ap ok (accepts-put laws d user device ip now later s.sessions h))

module _ (p : Platform) (db : IsDatabase p) where
  -- For a documented database and any `now` up to `later`: after `cleanupExpiredSessions` at `now`,
  -- `validateRefreshToken` at `later` answers as it would have answered without it, for every user and token.
  pub validate-cleanup :
      (now later : ℕ) (user token : Text) (s : System)
      → now ≤ later
      → (validate_refresh_token p later user token (cleanup_expired_sessions p now s).1).0
        ≡ (validate_refresh_token p later user token s).0
  unfolding validate_refresh_token cleanup_expired_sessions
  validate-cleanup now later user token s h =
      rw (IsDatabase-eq p db, accepts-cleanup (on_tables p) now later user token s.sessions h)

  -- For a documented database: after `revokeAllUserSessions` of a user, `validateRefreshToken` refuses every
  -- token for that user, at any instant; for any other user it answers as before.
  pub validate-revoke_all :
      (now : ℕ) (user other token : Text) (s : System)
      → same user other ≡ false
      → let s' = (revoke_all_user_sessions p user s).1 in
        ((validate_refresh_token p now user token s').0 ≡ ok false)
        × ((validate_refresh_token p now other token s').0
            ≡ (validate_refresh_token p now other token s).0)
  unfolding validate_refresh_token revoke_all_user_sessions accepts
  validate-revoke_all now user other token s h =
      rw (IsDatabase-eq p db) (revoke_all_tables p now user other token s h)

  -- For a documented database and bcrypt: the token that `createRefreshToken` returns at `now` is accepted by
  -- `validateRefreshToken` for that user, in the state it leaves, at every instant before seven days are over.
  pub validate-create :
      BcryptLaws p.bcrypt
      → (d : SessionDraws) (now later : ℕ) (user device ip : Text) (s : System)
      → later < now + session_time
      → let (r, s') = create_refresh_token p d now user device ip s in
        (r ≡ ok d.token) × ((validate_refresh_token p later user d.token s').0 ≡ ok true)
  unfolding validate_refresh_token create_refresh_token
  validate-create laws d now later user device ip s h =
      rw (IsDatabase-eq p db) (create_tables p laws d now later user device ip s h)
