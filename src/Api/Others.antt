-- ===== src/Api/Others.antt =====
-- The row of one id under the handlers of src/auth/auth.service.ts and src/auth/admin.controller.ts for
-- another.
use proyecto_verde_auth.Audit.Service.{log}
use proyecto_verde_auth.Auth.Admin.{unlocked, cleared, rewrite_found}
use proyecto_verde_auth.Auth.Service.{
  Draws, Origin, start_mfa, issue, refuse, admit, login_user, login_no_password, login_field,
  rotate, refresh_payload_of, refresh, logout,
}
use proyecto_verde_auth.Base.{
  ℕ, Bool, Option, none, some, Text, false, same, ◌≡◌, refl, BodyField, undefined, null_field,
  text_field,
}
use proyecto_verde_auth.Exec.{Exception}
use proyecto_verde_auth.Exec.Keeps.{Keeps, keeps_rules}
use proyecto_verde_auth.Platform.{Platform, Payload, on_tables}
use proyecto_verde_auth.Sessions.Entity.{Session}
use proyecto_verde_auth.Sessions.Service.{
  SessionDraws, create_refresh_token, revoke_session, save_revoked, validate_refresh_token,
}
use proyecto_verde_auth.Users.Entity.{User}
use proyecto_verde_auth.Users.Others.{Row, IsOther, row_rules, update_user-Row}

module _ (p : Platform) (k : Text) (w : Option User) where
  log-Row :
      (id : Text) (now : ℕ) (action : Text) (user ip device : Option Text) (success : Bool)
      → Keeps (Row k w) (log (on_tables p) id now action user ip device success)
  unfolding log
  log-Row id now action user ip device success = record { at = λ s r. r }

  create_refresh_token-Row :
      (d : SessionDraws) (now : ℕ) (user device ip : Text)
      → Keeps (Row k w) (create_refresh_token (on_tables p) d now user device ip)
  unfolding create_refresh_token
  create_refresh_token-Row d now user device ip = record { at = λ s r. r }

  save_revoked-Row : (found : Option Session) → Keeps (Row k w) (save_revoked (on_tables p) found)
  unfolding save_revoked
  save_revoked-Row none = search keeps_rules
  save_revoked-Row (some x) = record { at = λ s r. r }

  revoke_session-Row :
      (user token : Text) → Keeps (Row k w) (revoke_session (on_tables p) user token)
  unfolding revoke_session
  revoke_session-Row user token = search (keeps_rules, save_revoked-Row)

  validate_refresh_token-Row :
      (now : ℕ) (user token : Text)
      → Keeps (Row k w) (validate_refresh_token (on_tables p) now user token)
  unfolding validate_refresh_token
  validate_refresh_token-Row now user token = search keeps_rules

ruleset other_rules =
    (row_rules, log-Row, create_refresh_token-Row, revoke_session-Row, validate_refresh_token-Row)

module _ (p : Platform) (k : Text) (w : Option User) (d : Draws) (now : ℕ) (o : Origin) where
  issue-Row : (action : Text) (u : User) → Keeps (Row k w) (issue (on_tables p) d now o action u)
  unfolding issue
  issue-Row action u = search other_rules

  start_mfa-Row :
      (u : User) → same u.id k ≡ false → Keeps (Row k w) (start_mfa (on_tables p) d now o u)
  unfolding start_mfa
  start_mfa-Row u h = search other_rules

  refuse-Row :
      (action : Text) (user : Option Text) (e : Exception)
      → Keeps (Row k w) (refuse (on_tables p) d now o action user e)
  unfolding refuse
  refuse-Row action user e = search other_rules

  admit-Row : (u : User) → same u.id k ≡ false → Keeps (Row k w) (admit (on_tables p) d now o u)
  unfolding admit
  admit-Row u h = search (other_rules, issue-Row, start_mfa-Row)

  login_user-Row :
      (password : Text) (found : Option User)
      → IsOther k found
      → Keeps (Row k w) (login_user (on_tables p) d now o password found)
  unfolding login_user
  login_user-Row password none h = refuse-Row _ _ _
  login_user-Row password (some u) h = search (other_rules, admit-Row, refuse-Row)

  login_no_password-Row :
      (found : Option User) → Keeps (Row k w) (login_no_password (on_tables p) d now o found)
  unfolding login_no_password
  login_no_password-Row none = refuse-Row _ _ _
  login_no_password-Row (some u) = search (other_rules, refuse-Row)

  pub login_field-Row :
      (password : BodyField) (found : Option User)
      → IsOther k found
      → Keeps (Row k w) (login_field (on_tables p) d now o password found)
  unfolding login_field
  login_field-Row (text_field password) found h = login_user-Row password found h
  login_field-Row undefined found h = login_no_password-Row found
  login_field-Row null_field found h = login_no_password-Row found

  rotate-Row :
      (token : Text) (found : Option User)
      → Keeps (Row k w) (rotate (on_tables p) d now o token found)
  unfolding rotate
  rotate-Row token none = search keeps_rules
  rotate-Row token (some u) = search (other_rules, issue-Row)

  refresh_payload_of-Row :
      (token : Text) (claims : Option Payload)
      → Keeps (Row k w) (refresh_payload_of (on_tables p) d now o token claims)
  unfolding refresh_payload_of
  refresh_payload_of-Row token none = search keeps_rules
  refresh_payload_of-Row token (some claims) = search (other_rules, rotate-Row) depth 7

  pub refresh-Row : (token : Text) → Keeps (Row k w) (refresh (on_tables p) d now o token)
  unfolding refresh
  refresh-Row token = refresh_payload_of-Row token _

  pub logout-Row : (token user : Text) → Keeps (Row k w) (logout (on_tables p) d now o token user)
  unfolding logout
  logout-Row token user = search other_rules

module _ (p : Platform) (k : Text) (w : Option User) where
  pub unlocked_found-Row :
      (message : Text) (found : Option User)
      → IsOther k found
      → Keeps (Row k w) (rewrite_found (on_tables p) unlocked message found)
  unfolding rewrite_found unlocked
  unlocked_found-Row message none h = search keeps_rules
  unlocked_found-Row message (some u) h =
      search (keeps_rules, update_user-Row p k w u.id unlocked h (λ x. refl))

  pub cleared_found-Row :
      (message : Text) (found : Option User)
      → IsOther k found
      → Keeps (Row k w) (rewrite_found (on_tables p) cleared message found)
  unfolding rewrite_found cleared
  cleared_found-Row message none h = search keeps_rules
  cleared_found-Row message (some u) h =
      search (keeps_rules, update_user-Row p k w u.id cleared h (λ x. refl))
