-- ===== src/Crypt/Endpoints.antt =====
-- src/encryption/encryption.controller.ts
use proyecto_verde_auth.Auth.Guard.{Caller, caller_of, guarded}
use proyecto_verde_auth.Base.{ℕ, ◌≡◌, refl, Bool, true, List, Option, some, Text, codes, length}
use proyecto_verde_auth.Crypt.Fields.{
  AsymmetricKeyPair, encrypt_field, decrypt_field, generate_and_encrypt_key_pair,
}
use proyecto_verde_auth.Crypt.RoundTrip.{decrypt-encrypt}
use proyecto_verde_auth.Crypt.Token.{iv_length}
use proyecto_verde_auth.Exec.{Exec, System, ok, pure, lift, ◌>>=◌}
use proyecto_verde_auth.Platform.{Platform, CryptoLaws, IsPlain}

pub record EncryptReply : Type 0 where
  pub success : Bool
  pub encrypted_data : Text

pub record DecryptReply : Type 0 where
  pub success : Bool
  pub decrypted : Text

pub record KeysReply : Type 0 where
  pub success : Bool
  pub public_key : Text
  pub encrypted_private_key : Text

pub record HealthReply : Type 0 where
  pub success : Bool
  pub status : Text
  pub algorithm : Text
  pub key_derivation : Text

-- The one endpoint without a guard.
unfoldable pub health : HealthReply
health = record {
  success = true;
  status = codes "Encryption module operational";
  algorithm = codes "AES-256-GCM";
  key_derivation = codes "scrypt";
}

module _ (p : Platform) where
  unfoldable pub encrypt_data : ℕ → Option Text → List ℕ → Text → Exec EncryptReply
  unfolding guarded encrypt_field
  encrypt_data now bearer iv plain =
      guarded p now bearer
        (pure (record { success = true; encrypted_data = encrypt_field p iv plain }))

  unfoldable pub decrypt_data : ℕ → Option Text → Text → Exec DecryptReply
  unfolding guarded decrypt_field
  decrypt_data now bearer encrypted = guarded p now bearer do
    plain ← lift (decrypt_field p encrypted)
    pure (record { success = true; decrypted = plain })

  -- The pair and the vector are drawn.
  unfoldable pub generate_key_pair : ℕ → Option Text → AsymmetricKeyPair → List ℕ → Exec KeysReply
  unfolding guarded generate_and_encrypt_key_pair
  generate_key_pair now bearer pair iv =
      let drawn = generate_and_encrypt_key_pair p pair iv in
      guarded p now bearer (
        pure (record {
          success = true;
          public_key = drawn.public_key;
          encrypted_private_key = drawn.encrypted_private_key;
        }))

  guarded-known :
      {A : Type 0} (now : ℕ) (bearer : Option Text) (c : Caller) (handler : Exec A)
      → caller_of p now bearer ≡ some c
      → guarded p now bearer handler ≡ handler
  unfolding guarded
  guarded-known now bearer c handler known = rw (known, guarded) refl

  module _ (laws : CryptoLaws p.crypto) (now later : ℕ) (bearer other : Option Text) (c d : Caller)
      (iv : List ℕ) where
    -- For a documented crypto library, vectors of 16 bytes and texts without surrogates: what the endpoints
    -- have encrypted for one caller, a text or the private key of a fresh pair, the `decrypt` endpoint gives in
    -- clear to any caller whose bearer token verifies, then or later, the same or another.
    pub any_caller_decrypts :
        caller_of p now bearer ≡ some c
        → caller_of p later other ≡ some d
        → length iv ≡ iv_length
        → (plain : Text) (pair : AsymmetricKeyPair) (s : System) → IsPlain plain
        → IsPlain pair.private_key
        → ((encrypt_data now bearer iv plain >>= λ r. decrypt_data later other r.encrypted_data) s
            ≡ (ok (record { success = true; decrypted = plain }), s))
          × ((generate_key_pair now bearer pair iv >>= λ r.
                  decrypt_data later other r.encrypted_private_key)
                s
              ≡ (ok (record { success = true; decrypted = pair.private_key }), s))
    unfolding encrypt_data decrypt_data generate_key_pair encrypt_field decrypt_field
        generate_and_encrypt_key_pair
    any_caller_decrypts known known' h plain pair s k k' = (
      rw
          (
            guarded-known now bearer c _ known,
            guarded-known later other d _ known',
            decrypt-encrypt p laws iv plain h k,
          )
          refl,
      rw
          (
            guarded-known now bearer c _ known,
            guarded-known later other d _ known',
            decrypt-encrypt p laws iv pair.private_key h k',
          )
          refl,
    )
