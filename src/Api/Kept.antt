-- ===== src/Api/Kept.antt =====
-- The invariant of the stored state under the handlers of src/auth/auth.service.ts and
-- src/auth/admin.controller.ts.
use proyecto_verde_auth.Audit.Service.{log}
use proyecto_verde_auth.Auth.Admin.{
  unlocked, cleared, unlock_body, reset_body, rewrite_found, find_user,
}
use proyecto_verde_auth.Auth.Service.{
  Draws, Origin, start_mfa, issue, refuse, admit, login_user, login_no_password, login_field,
  login_body, rotate, refresh_payload_of, refresh, logout,
}
use proyecto_verde_auth.Base.{
  ℕ, Bool, Option, none, some, Text, true, length, ◌≤◌, put-All, select, select-All, same, arith,
  ◌≡◌, refl, codes, ◌++◌, BodyField, undefined, null_field, text_field, shown,
}
use proyecto_verde_auth.Exec.{Exception}
use proyecto_verde_auth.Exec.Keeps.{Keeps, keeps_rules, Keeps-bind, Keeps-gets, Keeps-gets_bind}
use proyecto_verde_auth.Platform.{Platform, Payload, on_tables}
use proyecto_verde_auth.Sessions.Drawn.{
  token_limit, IsDrawn, FoundSession, new_session-IsDrawn, matching-FoundSession,
}
use proyecto_verde_auth.Sessions.Entity.{Session}
use proyecto_verde_auth.Sessions.Service.{
  SessionDraws, create_refresh_token, revoke_session, save_revoked, validate_refresh_token,
  matching, is_open, new_session,
}
use proyecto_verde_auth.Users.Entity.{User}
use proyecto_verde_auth.Users.Coherent.{IsCoherent}
use proyecto_verde_auth.Users.Kept.{
  Found, find_by_email-Keeps, find_user_where-Keeps, find_by_id-Keeps, update_user-Keeps,
  users_rules,
}
use proyecto_verde_auth.Users.Service.{find_by_email, find_user_where}
use proyecto_verde_auth.Valid.{IsValid}

module _ (p : Platform) where
  log-Keeps :
      (id : Text) (now : ℕ) (action : Text) (user ip device : Option Text) (success : Bool)
      → Keeps (IsValid p.bcrypt) (log (on_tables p) id now action user ip device success)
  unfolding log
  log-Keeps id now action user ip device success = record {
    at = λ s v. record { coherent = v.coherent; keys = v.keys; drawn = v.drawn };
  }

  create_refresh_token-Keeps :
      (d : SessionDraws) (now : ℕ) (user device ip : Text)
      → length d.token ≤ token_limit
      → Keeps (IsValid p.bcrypt) (create_refresh_token (on_tables p) d now user device ip)
  unfolding create_refresh_token
  create_refresh_token-Keeps d now user device ip short = record {
    at = λ s v. record {
      coherent = v.coherent;
      keys = v.keys;
      drawn =
          put-All (IsDrawn p.bcrypt) (λ x. same x.id d.id)
            (new_session d.id user (p.bcrypt.hash d.salt d.token) device ip now) s.sessions
            (new_session-IsDrawn p d.id user d.salt d.token device ip now short) v.drawn;
    };
  }

  save_revoked-Keeps :
      (found : Option Session)
      → FoundSession p.bcrypt found
      → Keeps (IsValid p.bcrypt) (save_revoked (on_tables p) found)
  unfolding save_revoked
  save_revoked-Keeps none h = search keeps_rules
  save_revoked-Keeps (some x) h = record {
    at = λ s v. record {
      coherent = v.coherent;
      keys = v.keys;
      drawn =
          put-All (IsDrawn p.bcrypt) (λ y. same y.id x.id) (record x { is_revoked = true })
            s.sessions h v.drawn;
    };
  }

  revoke_session-Keeps :
      (user token : Text) → Keeps (IsValid p.bcrypt) (revoke_session (on_tables p) user token)
  unfolding revoke_session
  revoke_session-Keeps user token =
      Keeps-gets_bind (FoundSession p.bcrypt)
        (λ s. matching (on_tables p) token (select (is_open user) s.sessions))
        (save_revoked (on_tables p))
        (λ s v.
          matching-FoundSession (on_tables p) token (select (is_open user) s.sessions)
            (select-All (IsDrawn p.bcrypt) (is_open user) s.sessions v.drawn))
        save_revoked-Keeps

  validate_refresh_token-Keeps :
      (now : ℕ) (user token : Text)
      → Keeps (IsValid p.bcrypt) (validate_refresh_token (on_tables p) now user token)
  unfolding validate_refresh_token
  validate_refresh_token-Keeps now user token = search keeps_rules

ruleset api_rules = (
  users_rules, log-Keeps, create_refresh_token-Keeps, revoke_session-Keeps,
  validate_refresh_token-Keeps,
)

module _ (p : Platform) (d : Draws) (now : ℕ) (o : Origin)
    (short : length d.session.token ≤ token_limit) where
  issue-Keeps :
      (action : Text) (u : User) → Keeps (IsValid p.bcrypt) (issue (on_tables p) d now o action u)
  unfolding issue
  issue-Keeps action u = search api_rules

  start_mfa-Keeps : (u : User) → Keeps (IsValid p.bcrypt) (start_mfa (on_tables p) d now o u)
  unfolding start_mfa
  start_mfa-Keeps u = search api_rules

  refuse-Keeps :
      (action : Text) (user : Option Text) (e : Exception)
      → Keeps (IsValid p.bcrypt) (refuse (on_tables p) d now o action user e)
  unfolding refuse
  refuse-Keeps action user e = search api_rules

  admit-Keeps : (u : User) → IsCoherent u → Keeps (IsValid p.bcrypt) (admit (on_tables p) d now o u)
  unfolding admit
  admit-Keeps u c = search (api_rules, issue-Keeps, start_mfa-Keeps)

  login_user-Keeps :
      (password : Text) (found : Option User)
      → Found found
      → Keeps (IsValid p.bcrypt) (login_user (on_tables p) d now o password found)
  unfolding login_user
  login_user-Keeps password none c = refuse-Keeps _ _ _
  login_user-Keeps password (some u) c = search (api_rules, admit-Keeps, refuse-Keeps)

  login_no_password-Keeps :
      (found : Option User)
      → Keeps (IsValid p.bcrypt) (login_no_password (on_tables p) d now o found)
  unfolding login_no_password
  login_no_password-Keeps none = refuse-Keeps _ _ _
  login_no_password-Keeps (some u) = search (api_rules, refuse-Keeps)

  login_field-Keeps :
      (password : BodyField) (found : Option User)
      → Found found
      → Keeps (IsValid p.bcrypt) (login_field (on_tables p) d now o password found)
  unfolding login_field
  login_field-Keeps (text_field password) found c = login_user-Keeps password found c
  login_field-Keeps undefined found c = login_no_password-Keeps found
  login_field-Keeps null_field found c = login_no_password-Keeps found

  pub login_body-Keeps :
      (email password : BodyField)
      → Keeps (IsValid p.bcrypt) (login_body (on_tables p) d now o email password)
  unfolding login_body
  login_body-Keeps email password =
      let after = login_field-Keeps password in
      find_user_where-Keeps p (login_field (on_tables p) d now o password) after
        (find_by_email (on_tables p)) email
        (find_by_email-Keeps p (login_field (on_tables p) d now o password) after)

  rotate-Keeps :
      (token : Text) (found : Option User)
      → Keeps (IsValid p.bcrypt) (rotate (on_tables p) d now o token found)
  unfolding rotate
  rotate-Keeps token none = search keeps_rules
  rotate-Keeps token (some u) = search (api_rules, issue-Keeps)

  refresh_payload_of-Keeps :
      (token : Text) (claims : Option Payload)
      → Keeps (IsValid p.bcrypt) (refresh_payload_of (on_tables p) d now o token claims)
  unfolding refresh_payload_of
  refresh_payload_of-Keeps token none = search keeps_rules
  refresh_payload_of-Keeps token (some claims) = search (
    api_rules,
    find_by_id-Keeps p (rotate (on_tables p) d now o token) (λ f c. rotate-Keeps token f),
  )

  pub refresh-Keeps :
      (token : Text) → Keeps (IsValid p.bcrypt) (refresh (on_tables p) d now o token)
  unfolding refresh
  refresh-Keeps token = refresh_payload_of-Keeps token _

  pub logout-Keeps :
      (token user : Text) → Keeps (IsValid p.bcrypt) (logout (on_tables p) d now o token user)
  unfolding logout
  logout-Keeps token user = search api_rules

module _ (p : Platform) where
  rewrite_found-Keeps :
      (f : User → User) (message : Text) (found : Option User)
      → ((x : User) → IsCoherent x → IsCoherent (f x))
      → ((x : User) → (f x).id ≡ x.id)
      → Keeps (IsValid p.bcrypt) (rewrite_found (on_tables p) f message found)
  unfolding rewrite_found
  rewrite_found-Keeps f message none c k = search keeps_rules
  rewrite_found-Keeps f message (some u) c k = search (keeps_rules, update_user-Keeps p u.id f c k)

  find_user_where-Kept :
      (field : BodyField)
      → Keeps (IsValid p.bcrypt) (find_user_where (on_tables p) (find_user (on_tables p)) field)
  unfolding find_user_where find_user
  find_user_where-Kept (text_field email) = Keeps-gets _
  find_user_where-Kept undefined = Keeps-gets _
  find_user_where-Kept null_field = Keeps-gets _

  pub unlock_body-Keeps :
      (email : BodyField) → Keeps (IsValid p.bcrypt) (unlock_body (on_tables p) email)
  unfolding unlock_body
  unlock_body-Keeps email = Keeps-bind _ _ (find_user_where-Kept email) λ found.
      rewrite_found-Keeps unlocked (codes "User " ++ shown email ++ codes " has been unlocked")
        found (λ x c. ground arith) (λ x. refl)

  pub reset_body-Keeps :
      (email : BodyField) → Keeps (IsValid p.bcrypt) (reset_body (on_tables p) email)
  unfolding reset_body
  reset_body-Keeps email = Keeps-bind _ _ (find_user_where-Kept email) λ found.
      rewrite_found-Keeps cleared (codes "User " ++ shown email ++ codes " has been reset") found
        (λ x c. ground arith) (λ x. refl)
