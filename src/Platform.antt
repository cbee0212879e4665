-- ===== src/Platform.antt =====
-- What the service uses and does not implement: the TypeORM repositories, bcryptjs, the JWT
-- library, the TOTP library and the settings. Every handler takes them as a `Platform`.
use proyecto_verde_auth.Base.{
  ℕ, ◌≡◌, Bool, true, not, List, Text, same, Option, first, select, rewrite, put, take, length, All,
  ◌<◌, ◌⊎◌, some, [],
}
use proyecto_verde_auth.Users.Entity.{User}
use proyecto_verde_auth.Sessions.Entity.{Session}
use proyecto_verde_auth.Audit.Entity.{AuditLog}
use proyecto_verde_auth.Mfa.Code.{BackupCode, Parsed, array}

-- The calls of a TypeORM repository that the code makes, on the rows of its table. A `where` clause
-- is a test on rows and a partial entity a function on rows.
pub record Repository (Row : Type 0) : Type 0 where
  pub find : (Row → Bool) → List Row → List Row
  pub find_one : (Row → Bool) → List Row → Option Row
  pub update : (Row → Bool) → (Row → Row) → List Row → List Row
  pub save : Row → List Row → List Row
  pub delete : (Row → Bool) → List Row → List Row

-- What TypeORM documents of these calls, for a table whose rows have the primary key `key`.
pub record IsTable {Row : Type 0} (key : Row → Text) (r : Repository Row) : Type 0 where
  pub find_lem : (p : Row → Bool) (rows : List Row) → r.find p rows ≡ select p rows
  pub find_one_lem : (p : Row → Bool) (rows : List Row) → r.find_one p rows ≡ first p rows
  pub update_lem :
      (p : Row → Bool) (f : Row → Row) (rows : List Row) → r.update p f rows ≡ rewrite p f rows
  pub save_lem :
      (a : Row) (rows : List Row) → r.save a rows ≡ put (λ x. same (key x) (key a)) a rows
  pub delete_lem :
      (p : Row → Bool) (rows : List Row) → r.delete p rows ≡ select (λ x. not (p x)) rows

-- The table itself, as a repository: the behaviour above, as functions.
abbrev pub table : {Row : Type 0} → (Row → Text) → Repository Row
table key = record {
  find = select;
  find_one = first;
  update = rewrite;
  save = λ a rows. put (λ x. same (key x) (key a)) a rows;
  delete = λ p rows. select (λ x. not (p x)) rows;
}

pub IsTable-eq :
    {Row : Type 0} (key : Row → Text) (r : Repository Row) → IsTable key r → r ≡ table key
IsTable-eq key r h = λ i. record {
  find = λ p rows. h.find_lem p rows i;
  find_one = λ p rows. h.find_one_lem p rows i;
  update = λ p f rows. h.update_lem p f rows i;
  save = λ a rows. h.save_lem a rows i;
  delete = λ p rows. h.delete_lem p rows i;
}

-- The payload of a signed token: `AccessTokenPayload` has an email, `RefreshTokenPayload` a `jti`.
pub data TokenType : Type 0 where
  access refresh : TokenType

pub record Payload : Type 0 where
  pub sub : Text
  pub email : Option Text
  pub jti : Option Text
  pub type : TokenType

-- The JWT library: `sign` takes the secret, `expiresIn`, the instant and the payload; `verify`
-- takes the secret, the instant and the token, and is `none` where the library throws.
pub record JwtLibrary : Type 0 where
  pub sign : Text → Text → ℕ → Payload → Text
  pub verify : Text → ℕ → Text → Option Payload

-- bcryptjs, at cost 10: `hash` takes the salt that it draws and the plain text.
pub record Bcrypt : Type 0 where
  pub hash : Text → Text → Text
  pub compare : Text → Text → Bool

-- What bcryptjs documents: a plain text matches its own hash, and what matches a hash has the hashed
-- text's first 72 bytes (all of it, where that is shorter); the service's tokens are ASCII.
pub record BcryptLaws (b : Bcrypt) : Type 0 where
  pub compare-hash : (salt plain : Text) → b.compare plain (b.hash salt plain) ≡ true
  pub compare-hash_sound :
      (salt plain other : Text)
      → b.compare other (b.hash salt plain) ≡ true
      → take 72 other ≡ take 72 plain

-- Node's crypto and buffers, as `TokenCryptService` uses them: a key from a password, a salt and a
-- length; AES-256-GCM with a key and an initialisation vector, giving the encrypted bytes and the
-- tag, and back (`none` where `setAuthTag` or `final` throws); base64 and UTF-8.
pub record Crypto : Type 0 where
  pub scrypt : Text → Text → ℕ → List ℕ
  pub seal : List ℕ → List ℕ → List ℕ → List ℕ × List ℕ
  pub unseal : List ℕ → List ℕ → List ℕ → List ℕ → Option (List ℕ)
  pub to_base64 : List ℕ → Text
  pub from_base64 : Text → List ℕ
  pub to_utf8 : Text → List ℕ
  pub from_utf8 : List ℕ → Text

-- No code unit is a surrogate, so UTF-8 encoding loses nothing.
abbrev pub IsPlain : Text → Type 0
IsPlain = All (λ c. (c < 55296) ⊎ (57343 < c))

-- What Node documents of them: decryption undoes encryption, the tag has the 16 bytes asked for, and
-- the encodings are undone by the decodings.
pub record CryptoLaws (c : Crypto) : Type 0 where
  pub unseal-seal :
      (key iv plain : List ℕ)
      → c.unseal key iv (c.seal key iv plain).1 (c.seal key iv plain).0 ≡ some plain
  pub tag_length : (key iv plain : List ℕ) → length (c.seal key iv plain).1 ≡ 16
  pub from_base64-to_base64 : (bytes : List ℕ) → c.from_base64 (c.to_base64 bytes) ≡ bytes
  pub from_base64-nil : c.from_base64 [] ≡ []
  pub from_utf8-to_utf8 : (t : Text) → IsPlain t → c.from_utf8 (c.to_utf8 t) ≡ t

-- The TOTP and QR libraries: `verify` takes the code, the secret and the instant.
pub record Totp : Type 0 where
  pub to_uri : Text → Text → Text
  pub verify : Text → Text → ℕ → Bool
  pub to_data_url : Text → Text

-- `JSON.stringify` and `JSON.parse`, on backup codes.
pub record Json : Type 0 where
  pub stringify : List BackupCode → Text
  pub parse : Text → Parsed

pub record JsonLaws (j : Json) : Type 0 where
  pub parse-stringify : (l : List BackupCode) → j.parse (j.stringify l) ≡ array l

-- `ConfigService.get`, for the settings that the modelled code reads.
pub record Config : Type 0 where
  pub jwt_access_secret : Text
  pub jwt_refresh_secret : Text
  pub jwt_access_expires : Option Text
  pub jwt_refresh_expires : Option Text
  pub mfa_encryption_key : Text

pub record Platform : Type 0 where
  pub users : Repository User
  pub sessions : Repository Session
  pub audit_logs : Repository AuditLog
  pub bcrypt : Bcrypt
  pub jwt : JwtLibrary
  pub crypto : Crypto
  pub totp : Totp
  pub json : Json
  pub config : Config

pub record IsDatabase (p : Platform) : Type 0 where
  pub users_table : IsTable (λ (u : User). u.id) p.users
  pub sessions_table : IsTable (λ (s : Session). s.id) p.sessions
  pub audit_logs_table : IsTable (λ (a : AuditLog). a.id) p.audit_logs

abbrev pub on_tables : Platform → Platform
on_tables p = record p {
  users = table (λ (u : User). u.id);
  sessions = table (λ (s : Session). s.id);
  audit_logs = table (λ (a : AuditLog). a.id);
}

-- A platform with a documented database is one on plain tables: proofs run on those.
pub IsDatabase-eq : (p : Platform) → IsDatabase p → p ≡ on_tables p
IsDatabase-eq p h = λ i. record p {
  users = IsTable-eq (λ (u : User). u.id) p.users h.users_table i;
  sessions = IsTable-eq (λ (s : Session). s.id) p.sessions h.sessions_table i;
  audit_logs = IsTable-eq (λ (a : AuditLog). a.id) p.audit_logs h.audit_logs_table i;
}
