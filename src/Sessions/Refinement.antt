-- ===== src/Sessions/Refinement.antt =====
-- The calls of src/sessions/sessions.service.ts, in any order, next to the grants that they stand for.
use proyecto_verde_auth.Base.{
  ℕ, ◌+◌, ◌≤◌, ◌≡◌, refl, [], Text, arith, length, same, ap, select, ◌∙◌, ltb, not, ◌&&◌, ◌||◌,
}
use proyecto_verde_auth.Exec.{System, ok}
use proyecto_verde_auth.Platform.{Platform, IsDatabase, IsDatabase-eq, on_tables, BcryptLaws}
use proyecto_verde_auth.Sessions.Apart.{
  IsKept, IsUnmatched, put-IsKept, revoke_found-IsKept, revoke_all-IsKept, select-IsKept,
}
use proyecto_verde_auth.Sessions.Drawn.{token_limit}
use proyecto_verde_auth.Sessions.Grants.{
  Grants, no_grants, grant, withdraw, withdraw_all, reading, HasNewId, reading-put,
  reading-revoke_all, reading-revoke, revoke_found,
}
use proyecto_verde_auth.Sessions.Laws.{accepts-cleanup}
use proyecto_verde_auth.Sessions.Service.{
  SessionDraws, session_time, accepts, is_open, matching, create_refresh_token,
  validate_refresh_token, revoke_session, revoke_all_user_sessions, cleanup_expired_sessions,
}

-- What is drawn for a session is new: no row has the id, and the token matches no row.
pub record IsNew (p : Platform) (d : SessionDraws) (s : System) : Type 0 where
  pub short : length d.token ≤ token_limit
  pub new_id : HasNewId p d.id s.sessions
  pub unmatched : IsUnmatched p d.token s.sessions

-- The states that calls of the service reach from an empty table, at instants that never go back, with the
-- instant of the last call and the grants that the calls make and withdraw. A clean-up withdraws nothing.
pub data Calls (p : Platform) : ℕ → System → Grants → Type 0 where
  empty : (s : System) → s.sessions ≡ [] → Calls p 0 s no_grants
  created :
      {n : ℕ} {s : System} {f : Grants} (d : SessionDraws) (now : ℕ) (user device ip : Text)
      → Calls p n s f
      → n ≤ now
      → IsNew p d s
      → Calls p now
          (create_refresh_token p d now user device ip s).1
          (grant user d.token (now + session_time) f)
  revoked :
      {n : ℕ} {s : System} {f : Grants} (user token : Text)
      → Calls p n s f
      → Calls p n (revoke_session p user token s).1 (withdraw user token f)
  all_revoked :
      {n : ℕ} {s : System} {f : Grants} (user : Text)
      → Calls p n s f
      → Calls p n (revoke_all_user_sessions p user s).1 (withdraw_all user f)
  cleaned :
      {n : ℕ} {s : System} {f : Grants} (now : ℕ)
      → Calls p n s f
      → n ≤ now
      → Calls p now (cleanup_expired_sessions p now s).1 f

module _ (p : Platform) (bl : BcryptLaws p.bcrypt) where
  record Implements (n : ℕ) (s : System) (f : Grants) : Type 0 where
    kept : IsKept p s.sessions
    read : (u t : Text) (m : ℕ) → n ≤ m → reading p s.sessions u t m ≡ f u t m

  revoke_sessions :
      (user token : Text) (s : System)
      → (revoke_session (on_tables p) user token s).1.sessions
        ≡ revoke_found p (matching p token (select (is_open user) s.sessions)) s.sessions
  unfolding revoke_session
  revoke_sessions user token s = ground arith

  Calls-Implements :
      {n : ℕ} {s : System} {f : Grants} → Calls (on_tables p) n s f → Implements n s f
  unfolding create_refresh_token revoke_all_user_sessions cleanup_expired_sessions accepts select
  Calls-Implements (empty s e) = record {
    kept = rw e (record { ids = tt; drawn = tt; apart = tt });
    read = λ u t m h. rw e refl;
  }
  Calls-Implements (created {n} {s} {f} d now user device ip c h new) =
      let i = Calls-Implements c in
      record {
        kept =
            put-IsKept p bl d.id user d.salt d.token device ip now new.short s.sessions new.new_id
              new.unmatched i.kept;
        read = λ u t m l.
            reading-put p bl d.id user d.salt d.token device ip now new.short s.sessions u t m
              new.new_id
            ∙ ap (λ b. b || (same user u && same t d.token && ltb m (now + session_time)))
                (i.read u t m (omega arith));
      }
  Calls-Implements (revoked {n} {s} {f} user token c) =
      let i = Calls-Implements c in
      record {
        kept =
            rw (revoke_sessions user token s) (revoke_found-IsKept p user token s.sessions i.kept);
        read = λ u t m l. rw (revoke_sessions user token s) (
            reading-revoke p bl user token s.sessions u t m i.kept.ids i.kept.drawn i.kept.apart
            ∙ ap (λ b. b && not (same user u && same t token)) (i.read u t m l));
      }
  Calls-Implements (all_revoked {n} {s} {f} user c) =
      let i = Calls-Implements c in
      record {
        kept = revoke_all-IsKept p (is_open user) s.sessions i.kept;
        read = λ u t m l.
            reading-revoke_all p user s.sessions u t m
            ∙ ap (λ b. b && not (same user u)) (i.read u t m l);
      }
  Calls-Implements (cleaned {n} {s} {f} now c h) =
      let i = Calls-Implements c in
      record {
        kept = select-IsKept p (λ x. not (ltb x.expires_at now)) s.sessions i.kept;
        read = λ u t m l. accepts-cleanup p now m u t s.sessions l ∙ i.read u t m (omega arith);
      }

  -- On a documented database and bcrypt: after any calls of the sessions service from an empty table, at
  -- instants that never go back and with new ids and tokens, `validateRefreshToken` answers from then on
  -- what the grants say: a token is good for the user it was made for, for seven days, unless it was revoked
  -- or all of the user's sessions were; cleaning up changes nothing.
  pub validate-Calls :
      IsDatabase p
      → {n : ℕ} {s : System} {f : Grants} → Calls p n s f
      → (later : ℕ) (user token : Text) → n ≤ later
      → (validate_refresh_token p later user token s).0 ≡ ok (f user token later)
  unfolding validate_refresh_token accepts
  validate-Calls db {n} {s} {f} c later user token h =
      let i = Calls-Implements (rw (IsDatabase-eq p db) at c) in
      rw (IsDatabase-eq p db) (ap ok (i.read user token later h))
