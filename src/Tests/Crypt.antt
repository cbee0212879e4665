-- ===== src/Tests/Crypt.antt =====
-- Encryption on the demonstration platform.
use proyecto_verde_auth.Base.{
  ◌≡◌, refl, some, none, [], codes, arith, List, ℕ, ◌∷◌, true, Option, Text,
}
use proyecto_verde_auth.Auth.Guard.{caller_of}
use proyecto_verde_auth.Auth.Jwt.{refresh_payload}
use proyecto_verde_auth.Crypt.Endpoints.{
  encrypt_data, decrypt_data, generate_key_pair, any_caller_decrypts,
}
use proyecto_verde_auth.Crypt.Keys.{generate_symmetric_key}
use proyecto_verde_auth.Crypt.Fields.{AsymmetricKeyPair, UserData, UserIvs}
use proyecto_verde_auth.Crypt.RoundTrip.{IsDrawnIvs, IsPlainData, decrypt-encrypt}
use proyecto_verde_auth.Crypt.Token.{encrypt, decrypt}
use proyecto_verde_auth.Exec.{ok, ◌>>=◌}
use proyecto_verde_auth.Tests.Demo.{demo, system, crypto-CryptoLaws}

abbrev iv : List ℕ
iv = codes "iviviviviviviviv"

decrypt-encrypt_example : decrypt demo (some (encrypt demo iv (codes "42"))) ≡ ok (codes "42")
decrypt-encrypt_example = decrypt-encrypt demo crypto-CryptoLaws iv (codes "42") refl (omega arith)

abbrev ivs : UserIvs
ivs = record { email = iv; first_name = iv; last_name = iv; phone = iv; address = iv }

abbrev person : UserData
person = record {
  email = some (codes "a@b");
  first_name = some (codes "Ana");
  last_name = none;
  phone = some [];
  address = none;
}

ivs_drawn : IsDrawnIvs ivs
ivs_drawn = omega arith

person_plain : IsPlainData person
person_plain = omega arith

-- Ann has a text encrypted, and bob reads it.
abbrev bearer_of : Text → Option Text
bearer_of id = some (demo.jwt.sign [] [] 7 (refresh_payload id []))

abbrev pair : AsymmetricKeyPair
pair = record { public_key = codes "pub"; private_key = codes "priv" }

any_caller_decrypts_example :
    ((encrypt_data demo 7 (bearer_of (codes "1")) iv (codes "42") >>= λ r.
    decrypt_data demo 8 (bearer_of (codes "2")) r.encrypted_data)
        system
      ≡ (ok (record { success = true; decrypted = codes "42" }), system))
    × ((generate_key_pair demo 7 (bearer_of (codes "1")) pair iv >>= λ r.
            decrypt_data demo 8 (bearer_of (codes "2")) r.encrypted_private_key)
          system
        ≡ (ok (record { success = true; decrypted = codes "priv" }), system))
unfolding caller_of
any_caller_decrypts_example =
    any_caller_decrypts demo crypto-CryptoLaws 7 8 (bearer_of (codes "1")) (bearer_of (codes "2"))
      (record { user_id = codes "1"; email = none }) (record { user_id = codes "2"; email = none })
      iv refl refl refl (codes "42") pair system (omega arith) (omega arith)

-- Two bytes give four digits.
hex_key : generate_symmetric_key (10 ∷ 255 ∷ []) ≡ codes "0aff"
unfolding generate_symmetric_key
hex_key = refl
