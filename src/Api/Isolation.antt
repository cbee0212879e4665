-- ===== src/Api/Isolation.antt =====
-- Which account a request is about, and the rows of the others.
use proyecto_verde_auth.Api.Invariant.{
  Request, a_login, a_refresh, a_logout, an_unlock, a_reset, a_setup, a_verify_setup, a_disable,
  a_status, an_enable_biometric, a_disable_biometric, a_verify, a_verify_backup, a_verify_biometric,
}
use proyecto_verde_auth.Api.Others.{
  login_field-Row, refresh-Row, logout-Row, unlocked_found-Row, cleared_found-Row,
}
use proyecto_verde_auth.Api.OthersMfa.{
  setup-Row, verify_setup-Row, disable-Row, get_status-Row, enable_biometric_login-Row,
  disable_biometric_login-Row, verify_found-Row, verify_backup_found-Row,
  verify_biometric_found-Row,
}
use proyecto_verde_auth.Auth.Admin.{unlock_body, reset_body, find_user}
use proyecto_verde_auth.Auth.Login.{user_of}
use proyecto_verde_auth.Auth.Service.{login_body}
use proyecto_verde_auth.Base.{
  ◌≡◌, refl, false, Option, none, some, Text, codes, ◌++◌, holds, subst, sym, first, true,
  BodyField, undefined, null_field, text_field, shown,
}
use proyecto_verde_auth.Exec.{System, Exec, ◌>>=◌, gets}
use proyecto_verde_auth.Exec.Keeps.{Keeps}
use proyecto_verde_auth.Mfa.Challenge.{pending}
use proyecto_verde_auth.Mfa.Verify.{verify_body, verify_backup_body, verify_biometric_body}
use proyecto_verde_auth.Platform.{Platform, IsDatabase, IsDatabase-eq, on_tables}
use proyecto_verde_auth.Users.Entity.{User}
use proyecto_verde_auth.Users.Others.{IsOther, Row, row_of}
use proyecto_verde_auth.Users.Service.{find_by_email, find_by_mfa_temp_token, find_user_where}

abbrev pub id_of : Option User → Option Text
id_of none = none
id_of (some u) = some u.id

-- The row that a lookup by a field of the body finds: the one that the field names, or the first one of the
-- table if the field is left out or null.
abbrev pub looked_up : (Text → System → Option User) → BodyField → System → Option User
looked_up by (text_field t) s = by t s
looked_up by undefined s = first (λ u. true) s.users
looked_up by null_field s = first (λ u. true) s.users

-- The account that a request is about: the one that its email or its temporary token names in the state, or the
-- first one of the table if that is left out or null, or the one of the `x-user-id` header; none for a request
-- that is about sessions only, or that reads.
abbrev pub subject : {p : Platform} {s t : System} → Request p s t → Option Text
subject {p} {s} (a_login d now o email password h) = id_of (looked_up user_of email s)
subject {p} {s} (a_refresh d now o token h) = none
subject {p} {s} (a_logout d now o token user h) = none
subject {p} {s} (an_unlock email) = id_of (looked_up user_of email s)
subject {p} {s} (a_reset email) = id_of (looked_up user_of email s)
subject {p} {s} (a_setup now secret iv user) = some user
subject {p} {s} (a_verify_setup now draw iv bearer user code) = some user
subject {p} {s} (a_disable now bearer user password code) = some user
subject {p} {s} (a_status now bearer user) = none
subject {p} {s} (an_enable_biometric now bearer user device) = some user
subject {p} {s} (a_disable_biometric now bearer user) = some user
subject {p} {s} (a_verify jti now t code) = id_of (looked_up pending t s)
subject {p} {s} (a_verify_backup jti now iv t code) = id_of (looked_up pending t s)
subject {p} {s} (a_verify_biometric jti now t device) = id_of (looked_up pending t s)

id_of-IsOther : (k : Text) (found : Option User) → holds (id_of found) k ≡ false → IsOther k found
id_of-IsOther k none h = tt
id_of-IsOther k (some u) h = h

module _ (p : Platform) where
  -- After a lookup by a field of the body, what keeps the row for every other account's row found.
  where_Row :
      {A : Type 0} (find : Text → Exec (Option User)) (by : Text → System → Option User)
      (field : BodyField) (g : Option User → Exec A) (k : Text) (s : System)
      → ((t : Text) → find t ≡ gets (by t))
      → ((found : Option User) → IsOther k found → Keeps (Row k (row_of k s)) (g found))
      → holds (id_of (looked_up by field s)) k ≡ false
      → row_of k ((find_user_where (on_tables p) find field >>= g) s).1 ≡ row_of k s
  unfolding find_user_where
  where_Row find by (text_field t) g k s same_find h other =
      rw (same_find t) ((h (by t s) (id_of-IsOther k (by t s) other)).at s refl)
  where_Row find by undefined g k s same_find h other =
      let found = first (λ u. true) s.users in (h found (id_of-IsOther k found other)).at s refl
  where_Row find by null_field g k s same_find h other =
      let found = first (λ u. true) s.users in (h found (id_of-IsOther k found other)).at s refl

  by_email : (t : Text) → find_by_email (on_tables p) t ≡ gets (user_of t)
  unfolding find_by_email user_of
  by_email t = refl

  by_address : (t : Text) → find_user (on_tables p) t ≡ gets (user_of t)
  unfolding find_user user_of
  by_address t = refl

  by_token : (t : Text) → find_by_mfa_temp_token (on_tables p) t ≡ gets (pending t)
  unfolding find_by_mfa_temp_token pending
  by_token t = refl

  tables-Isolated :
      {s t : System} (r : Request (on_tables p) s t) (k : Text)
      → holds (subject r) k ≡ false
      → row_of k t ≡ row_of k s
  unfolding login_body unlock_body reset_body verify_body verify_backup_body verify_biometric_body
  tables-Isolated {s} (a_login d now o email password short) k h =
      where_Row (find_by_email (on_tables p)) user_of email _ k s by_email
        (login_field-Row p k (row_of k s) d now o password) h
  tables-Isolated {s} (a_refresh d now o token short) k h =
      (refresh-Row p k (row_of k s) d now o token).at s refl
  tables-Isolated {s} (a_logout d now o token user short) k h =
      (logout-Row p k (row_of k s) d now o token user).at s refl
  tables-Isolated {s} (an_unlock email) k h =
      where_Row (find_user (on_tables p)) user_of email _ k s by_address
        (unlocked_found-Row p k (row_of k s)
          (codes "User " ++ shown email ++ codes " has been unlocked"))
        h
  tables-Isolated {s} (a_reset email) k h =
      where_Row (find_user (on_tables p)) user_of email _ k s by_address
        (cleared_found-Row p k (row_of k s)
          (codes "User " ++ shown email ++ codes " has been reset"))
        h
  tables-Isolated {s} (a_setup now secret iv user) k h =
      (setup-Row p k (row_of k s) now secret iv user h).at s refl
  tables-Isolated {s} (a_verify_setup now draw iv bearer user code) k h =
      (verify_setup-Row p k (row_of k s) now draw iv bearer user code h).at s refl
  tables-Isolated {s} (a_disable now bearer user password code) k h =
      (disable-Row p k (row_of k s) now bearer user password code h).at s refl
  tables-Isolated {s} (a_status now bearer user) k h =
      (get_status-Row p k (row_of k s) now bearer user).at s refl
  tables-Isolated {s} (an_enable_biometric now bearer user device) k h =
      (enable_biometric_login-Row p k (row_of k s) now bearer user device h).at s refl
  tables-Isolated {s} (a_disable_biometric now bearer user) k h =
      (disable_biometric_login-Row p k (row_of k s) now bearer user h).at s refl
  tables-Isolated {s} (a_verify jti now t code) k h =
      where_Row (find_by_mfa_temp_token (on_tables p)) pending t _ k s by_token
        (verify_found-Row p k (row_of k s) jti now code) h
  tables-Isolated {s} (a_verify_backup jti now iv t code) k h =
      where_Row (find_by_mfa_temp_token (on_tables p)) pending t _ k s by_token
        (verify_backup_found-Row p k (row_of k s) jti now iv code) h
  tables-Isolated {s} (a_verify_biometric jti now t device) k h =
      where_Row (find_by_mfa_temp_token (on_tables p)) pending t _ k s by_token
        (verify_biometric_found-Row p k (row_of k s) jti now device) h

  -- On a documented database, in every state: a request to one of the endpoints that look an account up or
  -- write one (login, refresh, logout, unlock, reset, and those of the second factor), with texts in its fields
  -- and the `x-user-id` header, except that an email, a temporary token, the password of a login and a
  -- device's id may be left out or null, writes the row of no account but this one: the one that its email or
  -- temporary token names, or the first row of the table where that is left out or null, or, for an endpoint
  -- that has neither, the one of the header; refresh, logout and status write none.
  pub Request-Isolated :
      IsDatabase p
      → {s t : System} (r : Request p s t) (k : Text) → holds (subject r) k ≡ false
      → row_of k t ≡ row_of k s
  Request-Isolated db {s} {t} =
      subst
        (λ q.
          (r : Request q s t) (k : Text) → holds (subject r) k ≡ false → row_of k t ≡ row_of k s)
        (sym (IsDatabase-eq p db)) (λ r k h. tables-Isolated r k h)
