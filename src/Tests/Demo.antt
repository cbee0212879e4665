-- ===== src/Tests/Demo.antt =====
-- A small platform that meets every documented law, and a database with two users.
use proyecto_verde_auth.Base.{
  ◌+◌, ◌≤◌, ◌≡◌, refl, true, false, [], ◌∷◌, ◌++◌, none, some, Text, codes, same, same_refl,
  same_iff, take, drop, length, ltb, if◌then◌else◌, arith,
}
use proyecto_verde_auth.Auth.Refresh.{JwtLaws}
use proyecto_verde_auth.Auth.Service.{Draws, Origin}
use proyecto_verde_auth.Exec.{System}
use proyecto_verde_auth.Platform.{
  Platform, Payload, access, table, BcryptLaws, CryptoLaws, IsDatabase, Bcrypt, JwtLibrary, Crypto,
}
use proyecto_verde_auth.Sessions.Entity.{Session}
use proyecto_verde_auth.Audit.Entity.{AuditLog}
use proyecto_verde_auth.Tests.Codec.{codec}
use proyecto_verde_auth.Users.Entity.{User, totp}

-- A hash keeps the text, and a comparison looks at 72 characters of it.
abbrev pub bcrypt : Bcrypt
bcrypt = record { hash = λ salt plain. plain; compare = λ a b. same (take 72 a) (take 72 b) }

pub bcrypt-BcryptLaws : BcryptLaws bcrypt
bcrypt-BcryptLaws = record {
  compare-hash = λ salt plain. same_refl (take 72 plain);
  compare-hash_sound = λ salt plain other h. (same_iff (take 72 other) (take 72 plain)).0 h;
}

-- A signature of sixty characters, and the subject behind it.
abbrev sixty : Text
sixty = codes "xxxxxxxxxxxxxxxxxxxxxxxxxxxxxxxxxxxxxxxxxxxxxxxxxxxxxxxxxxxx"

abbrev claims_of : Text → Payload
claims_of token = record { sub = drop 60 token; email = none; jti = none; type = access }

abbrev pub jwt : JwtLibrary
jwt = record {
  sign = λ secret expires now claims. sixty ++ claims.sub;
  verify = λ secret now token. if ltb 52 (length token) then some (claims_of token) else none;
}

verified_is_long :
    (token : Text) (claims : Payload)
    → (if ltb 52 (length token) then some (claims_of token) else none) ≡ some claims
    → 52 + 1 ≤ length token
verified_is_long token claims h = ground arith

pub jwt-JwtLaws : JwtLaws jwt
jwt-JwtLaws = record {
  verify_length = λ secret now token claims h. verified_is_long token claims h;
}

abbrev pub crypto : Crypto
crypto = record {
  scrypt = λ password salt n. [];
  seal = λ key iv plain. (plain, codes "0123456789abcdef");
  unseal = λ key iv tag encrypted. some encrypted;
  to_base64 = λ bytes. bytes;
  from_base64 = λ t. t;
  to_utf8 = λ t. t;
  from_utf8 = λ bytes. bytes;
}

pub crypto-CryptoLaws : CryptoLaws crypto
crypto-CryptoLaws = record {
  unseal-seal = λ key iv plain. refl;
  tag_length = λ key iv plain. refl;
  from_base64-to_base64 = λ bytes. refl;
  from_base64-nil = refl;
  from_utf8-to_utf8 = λ t h. refl;
}

abbrev pub demo : Platform
demo = record {
  users = table (λ (u : User). u.id);
  sessions = table (λ (x : Session). x.id);
  audit_logs = table (λ (a : AuditLog). a.id);
  bcrypt = bcrypt;
  jwt = jwt;
  crypto = crypto;
  totp = record {
    to_uri = λ secret email. secret;
    verify = λ code secret now. same code secret;
    to_data_url = λ uri. uri;
  };
  json = codec;
  config = record {
    jwt_access_secret = codes "a";
    jwt_refresh_secret = codes "r";
    jwt_access_expires = none;
    jwt_refresh_expires = some (codes "7d");
    mfa_encryption_key = codes "k";
  };
}

pub demo-IsDatabase : IsDatabase demo
demo-IsDatabase = record {
  users_table = record {
    find_lem = λ p rows. refl;
    find_one_lem = λ p rows. refl;
    update_lem = λ p f rows. refl;
    save_lem = λ a rows. refl;
    delete_lem = λ p rows. refl;
  };
  sessions_table = record {
    find_lem = λ p rows. refl;
    find_one_lem = λ p rows. refl;
    update_lem = λ p f rows. refl;
    save_lem = λ a rows. refl;
    delete_lem = λ p rows. refl;
  };
  audit_logs_table = record {
    find_lem = λ p rows. refl;
    find_one_lem = λ p rows. refl;
    update_lem = λ p f rows. refl;
    save_lem = λ a rows. refl;
    delete_lem = λ p rows. refl;
  };
}

-- `ann` signs in with her password alone; `bob` waits for his second factor.
abbrev pub ann : User
ann = record {
  id = codes "1";
  email = codes "ann@bv";
  password_hash = codes "pw";
  is_active = true;
  failed_attempts = 0;
  locked_until = none;
  mfa_enabled = false;
  mfa_secret = none;
  mfa_backup_codes = none;
  mfa_temp_token = none;
  mfa_temp_token_expires = none;
  mfa_last_verified = none;
  mfa_failed_attempts = 0;
  mfa_locked_until = none;
  biometric_enabled = false;
  device_biometric_id = none;
  preferred_mfa_method = totp;
}

-- The secret is sixteen bytes of vector, sixteen of tag, and `42`.
abbrev pub bob : User
bob = record ann {
  id = codes "2";
  email = codes "bob@bv";
  mfa_enabled = true;
  mfa_secret = some (codes "iviviviviviviviv0123456789abcdef42");
  mfa_backup_codes = some (codes "iviviviviviviviv0123456789abcdef[]");
  mfa_temp_token = some (codes "tmp");
  mfa_temp_token_expires = some 1000;
  biometric_enabled = true;
  device_biometric_id = some (codes "dev");
}

abbrev pub system : System
system = record { users = ann ∷ bob ∷ []; sessions = []; audit_logs = []; security_log = [] }

abbrev pub draws : Draws
draws = record {
  temp_token = codes "t";
  jti = codes "j";
  session = record { token = codes "s"; salt = codes "x"; id = codes "n" };
  audit_id = codes "l";
}

abbrev pub origin : Origin
origin = record { ip = codes "::1"; device = codes "curl" }
