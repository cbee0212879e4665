-- ===== src/Crypt/Token.antt =====
-- src/auth/token-crypt/token-crypt.service.ts: AES-256-GCM, stored as base64 of iv, tag and encrypted bytes.
use proyecto_verde_auth.Base.{ℕ, ◌+◌, ◌++◌, List, Option, none, some, Text, codes, take, drop}
use proyecto_verde_auth.Exec.{Result, ok, throws, type_error, bad_ciphertext}
use proyecto_verde_auth.Platform.{Platform}

abbrev pub key_length : ℕ
key_length = 32

abbrev pub iv_length : ℕ
iv_length = 16

abbrev pub auth_tag_length : ℕ
auth_tag_length = 16

abbrev pub crypt_salt : Text
crypt_salt = codes "BancoVerdeMFA2024"

-- The bytes of a decryption, or the exception of `final()`.
abbrev pub opened : (List ℕ → Text) → Option (List ℕ) → Result Text
opened decode none = throws bad_ciphertext
opened decode (some bytes) = ok (decode bytes)

module _ (p : Platform) where
  unfoldable pub derive_key : List ℕ
  derive_key = p.crypto.scrypt p.config.mfa_encryption_key crypt_salt key_length

  -- `iv` is drawn at random.
  unfoldable pub encrypt : List ℕ → Text → Text
  unfolding derive_key
  encrypt iv plaintext =
      let (encrypted, auth_tag) = p.crypto.seal derive_key iv (p.crypto.to_utf8 plaintext) in
      p.crypto.to_base64 (iv ++ (auth_tag ++ encrypted))

  -- The three slices of the stored bytes.
  unfoldable pub decrypt_bytes : List ℕ → Result Text
  unfolding derive_key
  decrypt_bytes buffer =
      let iv = take iv_length buffer in
      let auth_tag = take auth_tag_length (drop iv_length buffer) in
      let encrypted = drop (iv_length + auth_tag_length) buffer in
      opened p.crypto.from_utf8 (p.crypto.unseal derive_key iv auth_tag encrypted)

  -- `Buffer.from(null, 'base64')` is a TypeError.
  unfoldable pub decrypt : Option Text → Result Text
  unfolding decrypt_bytes
  decrypt none = throws type_error
  decrypt (some ciphertext) = decrypt_bytes (p.crypto.from_base64 ciphertext)
