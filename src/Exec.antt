-- ===== src/Exec.antt =====
-- A request handler: it reads and writes the stored state, and returns or throws. What was written
-- before a throw stays written.
pub mod Keeps
use proyecto_verde_auth.Base.{String, Text, List, ◌≡◌, refl, ◌⊎◌, inl, inr}
use proyecto_verde_auth.Users.Entity.{User}
use proyecto_verde_auth.Sessions.Entity.{Session}
use proyecto_verde_auth.Audit.Entity.{AuditLog}

-- One record passed to the security logger's `info`: the message and its metadata.
pub record SecurityEvent : Type 0 where
  pub message : Text
  pub event_type : Text
  pub user_id : Text
  pub action : Text
  pub ip : Text
  pub device : Text
  pub success : Text

-- The three tables, and the records that went to the security logger, oldest first.
pub record System : Type 0 where
  pub users : List User
  pub sessions : List Session
  pub audit_logs : List AuditLog
  pub security_log : List SecurityEvent

-- The exceptions: Nest's, with their messages, a `TypeError` from a property of null, a failed decryption,
-- and that of bcryptjs for an argument that is no text.
pub data Exception : Type 0 where
  unauthorized forbidden : String → Exception
  type_error bad_ciphertext illegal_arguments : Exception

pub data Result (A : Type 0) : Type 0 where
  ok : A → Result A
  throws : Exception → Result A

abbrev pub Exec : Type 0 → Type 0
Exec A = System → Result A × System

module _ {A : Type 0} where
  abbrev pub pure : A → Exec A
  pure a s = (ok a, s)

  abbrev pub throw : Exception → Exec A
  throw e s = (throws e, s)

  abbrev pub gets : (System → A) → Exec A
  gets f s = (ok (f s), s)

  abbrev pub lift : Result A → Exec A
  lift r s = (r, s)

abbrev pub modify : (System → System) → Exec Unit
modify f s = (ok tt, f s)

-- What follows an action, on its result and its state.
abbrev pub continue : {A B : Type 0} → (A → Exec B) → Result A → Exec B
continue f (ok a) s = f a s
continue f (throws e) s = (throws e, s)

infixl 5 ◌>>=◌ ◌>>◌
abbrev pub ◌>>=◌ : {A B : Type 0} → Exec A → (A → Exec B) → Exec B
◌>>=◌ m f s = let (r, s') = m s in continue f r s'

abbrev pub ◌>>◌ : {A B : Type 0} → Exec A → Exec B → Exec B
m >> k = m >>= λ _. k

pub Result-cases :
    {A : Type 0} (r : Result A) → ((a : A) × (r ≡ ok a)) ⊎ ((e : Exception) × (r ≡ throws e))
Result-cases (ok a) = inl (a, refl)
Result-cases (throws e) = inr (e, refl)
