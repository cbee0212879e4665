-- ===== src/Audit/Trail.antt =====
-- What each login of src/auth/auth.service.ts leaves in the audit log and in the security log.
use proyecto_verde_auth.Audit.Entity.{AuditLog}
use proyecto_verde_auth.Audit.Service.{log, audit_row, security_event}
use proyecto_verde_auth.Auth.Controller.{Request, origin_of, login_endpoint}
use proyecto_verde_auth.Auth.Login.{user_of}
use proyecto_verde_auth.Auth.Service.{
  Draws, Origin, LoginReply, login_user, login_no_password, login_field, login_body, refuse,
}
use proyecto_verde_auth.Base.{
  ℕ, ◌≡◌, ◌⊎◌, refl, ap, Bool, true, false, not, [], ◌∷◌, ◌++◌, Option, none, some, Text, codes,
  same, All, put, put_new, first, arith, Bool-cases, inl, inr, BodyField, undefined, null_field,
  text_field,
}
use proyecto_verde_auth.Exec.{
  System, Result, ok, throws, Exception, unauthorized, forbidden, illegal_arguments,
}
use proyecto_verde_auth.Platform.{Platform, IsDatabase, IsDatabase-eq, on_tables}
use proyecto_verde_auth.Sessions.Service.{create_refresh_token}
use proyecto_verde_auth.Users.Entity.{User}
use proyecto_verde_auth.Users.Service.{
  find_by_email, find_user_where, validate_password, increment_failed_attempts,
  reset_failed_attempts, set_mfa_temp_token, later_than,
}

abbrev pub is_ok : {A : Type 0} → Result A → Bool
is_ok (ok a) = true
is_ok (throws e) = false

-- One row and one security event more, for one action, and marked as a success exactly if the answer is one.
abbrev pub Audited : Draws → ℕ → Origin → Result LoginReply → System → System → Type 0
Audited d now o r s s' =
    (action : Text) × (user : Option Text) × (s'.audit_logs
      ≡ s.audit_logs
        ++ audit_row d.audit_id now action user (some o.ip) (some o.device) (is_ok r) ∷ [])
    × (s'.security_log
        ≡ s.security_log ++ security_event action user (some o.ip) (some o.device) (is_ok r) ∷ [])

module _ (p : Platform) (d : Draws) (now : ℕ) (o : Origin) (s : System)
    (new : All (λ (x : AuditLog). same x.id d.audit_id ≡ false) s.audit_logs) where
  abbrev row_of : Text → Option Text → Bool → AuditLog
  row_of action user success =
      audit_row d.audit_id now action user (some o.ip) (some o.device) success

  appended :
      (action : Text) (user : Option Text) (success : Bool)
      → put (λ (x : AuditLog). same x.id d.audit_id) (row_of action user success) s.audit_logs
        ≡ s.audit_logs ++ row_of action user success ∷ []
  appended action user success =
      put_new (λ (x : AuditLog). x.id) (row_of action user success) s.audit_logs new

  refuse-Audited :
      (action : Text) (user : Option Text) (e : Exception)
      → let (r, s') = refuse (on_tables p) d now o action user e s in Audited d now o r s s'
  unfolding refuse log
  refuse-Audited action user e =
      (action, user, ground (arith, appended action user false), ground arith)

  login_user-Audited :
      (password : Text) (found : Option User)
      → let (r, s') = login_user (on_tables p) d now o password found s in Audited d now o r s s'
  unfolding login_user validate_password reset_failed_attempts increment_failed_attempts
      set_mfa_temp_token log create_refresh_token
  login_user-Audited password none =
      refuse-Audited (codes "LOGIN_FAILED") none (unauthorized "Credenciales inválidas")
  login_user-Audited password (some u) = elim (Bool-cases (later_than u.locked_until now)) [
    | inl locked ↦ (
      codes "LOGIN_LOCKED",
      some u.id,
      ground (arith, appended (codes "LOGIN_LOCKED") (some u.id) false),
      ground arith,
    )
    | inr open_account ↦ elim (Bool-cases (p.bcrypt.compare password u.password_hash)) [
      | inr wrong ↦ (
        codes "LOGIN_FAILED",
        some u.id,
        ground (arith, appended (codes "LOGIN_FAILED") (some u.id) false),
        ground arith,
      )
      | inl right ↦ elim (Bool-cases u.mfa_enabled) [
        | inl asks ↦ (
          codes "MFA_PENDING",
          some u.id,
          ground (arith, appended (codes "MFA_PENDING") (some u.id) true),
          ground arith,
        )
        | inr alone ↦ (
          codes "LOGIN_SUCCESS",
          some u.id,
          ground (arith, appended (codes "LOGIN_SUCCESS") (some u.id) true),
          ground arith,
        )
      ]
    ]
  ]

  -- Without a password.
  locked-Audited :
      (u : User)
      → later_than u.locked_until now ≡ true
      → let (r, s') = login_no_password (on_tables p) d now o (some u) s in Audited d now o r s s'
  unfolding login_no_password
  locked-Audited u locked = rw locked (
      refuse-Audited (codes "LOGIN_LOCKED") (some u.id)
        (forbidden "Cuenta bloqueada. Intente más tarde."))

  open_throws :
      (u : User)
      → later_than u.locked_until now ≡ false
      → login_no_password (on_tables p) d now o (some u) s ≡ (throws illegal_arguments, s)
  unfolding login_no_password
  open_throws u open_account = rw open_account refl

-- The row that a login is about: the one of the email, or the first one of the table without an email.
abbrev pub named : BodyField → System → Option User
named (text_field email) s = user_of email s
named undefined s = first (λ u. true) s.users
named null_field s = first (λ u. true) s.users

-- A password is compared that is not there: the account is found and not locked.
abbrev pub compares_nothing : ℕ → BodyField → Option User → Bool
compares_nothing now (text_field password) found = false
compares_nothing now undefined none = false
compares_nothing now undefined (some u) = not (later_than u.locked_until now)
compares_nothing now null_field none = false
compares_nothing now null_field (some u) = not (later_than u.locked_until now)

-- How a login ends: in the log, or in an exception that leaves everything as it was.
abbrev pub Ends :
    Draws → ℕ → Origin → BodyField → Option User → Result LoginReply → System → System → Type 0
Ends d now o password found r s s' =
    ((compares_nothing now password found ≡ false) × Audited d now o r s s')
    ⊎ ((compares_nothing now password found ≡ true) × (r ≡ throws illegal_arguments) × (s' ≡ s))

module _ (p : Platform) (d : Draws) (now : ℕ) (o : Origin) (s : System)
    (new : All (λ (x : AuditLog). same x.id d.audit_id ≡ false) s.audit_logs) where
  no_password-Ends :
      (found : Option User)
      → let (r, s') = login_no_password (on_tables p) d now o found s in
        Ends d now o undefined found r s s'
  unfolding login_no_password
  no_password-Ends none = inl (
    refl,
    refuse-Audited p d now o s new (codes "LOGIN_FAILED") none
        (unauthorized "Credenciales inválidas"),
  )
  no_password-Ends (some u) = elim (Bool-cases (later_than u.locked_until now)) [
    | inl locked ↦ inl (rw locked refl, locked-Audited p d now o s new u locked)
    | inr open_account ↦
        let thrown = open_throws p d now o s new u open_account in
        inr (rw open_account refl, ap (λ q. q.0) thrown, ap (λ q. q.1) thrown)
  ]

  login_field-Ends :
      (password : BodyField) (found : Option User)
      → let (r, s') = login_field (on_tables p) d now o password found s in
        Ends d now o password found r s s'
  unfolding login_field
  login_field-Ends (text_field password) found =
      inl (refl, login_user-Audited p d now o s new password found)
  login_field-Ends undefined none = no_password-Ends none
  login_field-Ends null_field none = no_password-Ends none
  login_field-Ends undefined (some u) = no_password-Ends (some u)
  login_field-Ends null_field (some u) = no_password-Ends (some u)

  login_body-Ends :
      (email password : BodyField)
      → let (r, s') = login_body (on_tables p) d now o email password s in
        Ends d now o password (named email s) r s s'
  unfolding login_body find_user_where find_by_email user_of
  login_body-Ends (text_field email) password = login_field-Ends password (user_of email s)
  login_body-Ends undefined password = login_field-Ends password (first (λ u. true) s.users)
  login_body-Ends null_field password = login_field-Ends password (first (λ u. true) s.users)

module _ (p : Platform) (d : Draws) (now : ℕ) (request : Request) (email password : BodyField)
    (s : System) where
  -- On a documented database, and for an id that is new to the audit log: every request to the `login`
  -- endpoint whose email and password are texts, left out or null, however it ends, adds exactly one row at the
  -- end of the audit log and one event at the end of the security log, with the request's address and user
  -- agent (`unknown` where it has none), for the same action and user, and both say success exactly if the
  -- login was answered and not refused; except that, if the password is not there and the account is found and
  -- not locked, the request fails in bcryptjs and no table and no log is changed. The account is the one of the
  -- email, or the first one of the table without an email.
  pub login-Audited :
      IsDatabase p
      → All (λ (x : AuditLog). same x.id d.audit_id ≡ false) s.audit_logs
      → let (r, s') = login_endpoint p now d request email password s in
        Ends d now (origin_of request) password (named email s) r s s'
  unfolding login_endpoint
  login-Audited db new =
      rw (IsDatabase-eq p db) (login_body-Ends p d now (origin_of request) s new email password)
