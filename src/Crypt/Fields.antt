-- ===== src/Crypt/Fields.antt =====
-- src/encryption/encryption.service.ts and src/encryption/key-management.service.ts, on top of the token
-- service.
use proyecto_verde_auth.Base.{ℕ, List, Option, none, some, [], ◌∷◌, Text}
use proyecto_verde_auth.Crypt.Token.{encrypt, decrypt}
use proyecto_verde_auth.Exec.{Result, ok, throws}
use proyecto_verde_auth.Platform.{Platform}

-- The optional fields of a user's personal data, in clear or encrypted.
pub record UserData : Type 0 where
  pub email : Option Text
  pub first_name : Option Text
  pub last_name : Option Text
  pub phone : Option Text
  pub address : Option Text

-- The initialisation vectors that `encryptUserData` draws, one for each field.
pub record UserIvs : Type 0 where
  pub email : List ℕ
  pub first_name : List ℕ
  pub last_name : List ℕ
  pub phone : List ℕ
  pub address : List ℕ

infixl 5 ◌>>=◌
abbrev pub ◌>>=◌ : {A B : Type 0} → Result A → (A → Result B) → Result B
ok a >>= f = f a
throws e >>= f = throws e

module _ (p : Platform) where
  unfoldable pub encrypt_field : List ℕ → Text → Text
  encrypt_field iv t = encrypt p iv t

  unfoldable pub decrypt_field : Text → Result Text
  decrypt_field t = decrypt p (some t)

  -- `if (data.x) encrypted.x = …`: an absent or empty field stays absent.
  abbrev pub encrypt_present : List ℕ → Option Text → Option Text
  encrypt_present iv none = none
  encrypt_present iv (some []) = none
  encrypt_present iv (some (c ∷ t)) = some (encrypt_field iv (c ∷ t))

  abbrev pub decrypt_present : Option Text → Result (Option Text)
  decrypt_present none = ok none
  decrypt_present (some []) = ok none
  decrypt_present (some (c ∷ t)) = do plain ← decrypt_field (c ∷ t); ok (some plain)

  unfoldable pub encrypt_user_data : UserIvs → UserData → UserData
  unfolding encrypt_field
  encrypt_user_data ivs u = record {
    email = encrypt_present ivs.email u.email;
    first_name = encrypt_present ivs.first_name u.first_name;
    last_name = encrypt_present ivs.last_name u.last_name;
    phone = encrypt_present ivs.phone u.phone;
    address = encrypt_present ivs.address u.address;
  }

  unfoldable pub decrypt_user_data : UserData → Result UserData
  unfolding decrypt_field
  decrypt_user_data u = do
    email ← decrypt_present u.email
    first_name ← decrypt_present u.first_name
    last_name ← decrypt_present u.last_name
    phone ← decrypt_present u.phone
    address ← decrypt_present u.address
    ok (record {
      email = email;
      first_name = first_name;
      last_name = last_name;
      phone = phone;
      address = address;
    })

-- `interface AsymmetricKeyPair` and `interface UserKeyPair`.
pub record AsymmetricKeyPair : Type 0 where
  pub public_key : Text
  pub private_key : Text

pub record UserKeyPair : Type 0 where
  pub public_key : Text
  pub encrypted_private_key : Text

module _ (p : Platform) where
  -- The pair is drawn by `generateECDHKeyPair`.
  unfoldable pub generate_and_encrypt_key_pair : AsymmetricKeyPair → List ℕ → UserKeyPair
  generate_and_encrypt_key_pair pair iv = record {
    public_key = pair.public_key;
    encrypted_private_key = encrypt p iv pair.private_key;
  }

  unfoldable pub encrypt_private_key : List ℕ → Text → Text
  encrypt_private_key iv k = encrypt p iv k

  unfoldable pub decrypt_private_key : Text → Result Text
  decrypt_private_key t = decrypt p (some t)
