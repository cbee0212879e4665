-- ===== src/Crypt/RoundTrip.antt =====
-- Encryption and decryption together, for one text and for a record of fields.
use proyecto_verde_auth.Base.{
  ℕ, ◌≡◌, ◌≢◌, refl, List, Option, none, some, [], ◌∷◌, ◌++◌, Text, length, arith, ◌∙◌, take-append,
  drop-append, drop-drop,
}
use proyecto_verde_auth.Crypt.Fields.{
  UserData, UserIvs, encrypt_field, decrypt_field, encrypt_present, decrypt_present,
  encrypt_user_data, decrypt_user_data, ◌>>=◌,
}
use proyecto_verde_auth.Crypt.Token.{encrypt, decrypt, decrypt_bytes, derive_key, iv_length, opened}
use proyecto_verde_auth.Exec.{ok}
use proyecto_verde_auth.Platform.{Platform, CryptoLaws, IsPlain}

-- An absent field, or an empty one, which the source takes for absent.
abbrev pub present : Option Text → Option Text
present none = none
present (some []) = none
present (some (c ∷ t)) = some (c ∷ t)

abbrev pub IsPlainField : Option Text → Type 0
IsPlainField none = Unit
IsPlainField (some t) = IsPlain t

-- Every vector has 16 bytes.
pub record IsDrawnIvs (ivs : UserIvs) : Type 0 where
  pub email : length ivs.email ≡ iv_length
  pub first_name : length ivs.first_name ≡ iv_length
  pub last_name : length ivs.last_name ≡ iv_length
  pub phone : length ivs.phone ≡ iv_length
  pub address : length ivs.address ≡ iv_length

pub record IsPlainData (u : UserData) : Type 0 where
  pub email : IsPlainField u.email
  pub first_name : IsPlainField u.first_name
  pub last_name : IsPlainField u.last_name
  pub phone : IsPlainField u.phone
  pub address : IsPlainField u.address

module _ (p : Platform) (laws : CryptoLaws p.crypto) where
  -- What `encrypt` packs, the slices of `decrypt` take apart.
  decrypt_bytes-pack :
      (iv tag encrypted : List ℕ)
      → length iv ≡ 16
      → length tag ≡ 16
      → decrypt_bytes p (iv ++ (tag ++ encrypted))
        ≡ opened p.crypto.from_utf8 (p.crypto.unseal (derive_key p) iv tag encrypted)
  unfolding decrypt_bytes
  decrypt_bytes-pack iv tag encrypted h k = rw (
    take-append 16 iv (tag ++ encrypted) h,
    drop-drop 16 16 (iv ++ (tag ++ encrypted)),
    drop-append 16 iv (tag ++ encrypted) h,
    take-append 16 tag encrypted k,
    drop-append 16 tag encrypted k,
  )

  -- For a documented crypto library: a text without surrogates, encrypted with any vector of 16 bytes,
  -- decrypts to itself.
  pub decrypt-encrypt :
      (iv : List ℕ) (t : Text)
      → length iv ≡ iv_length
      → IsPlain t
      → decrypt p (some (encrypt p iv t)) ≡ ok t
  unfolding decrypt encrypt
  decrypt-encrypt iv t h k =
      let (encrypted, tag) = p.crypto.seal (derive_key p) iv (p.crypto.to_utf8 t) in
      rw (
        laws.from_base64-to_base64 (iv ++ (tag ++ encrypted)),
        decrypt_bytes-pack iv tag encrypted h
            (laws.tag_length (derive_key p) iv (p.crypto.to_utf8 t)),
        laws.unseal-seal (derive_key p) iv (p.crypto.to_utf8 t),
        laws.from_utf8-to_utf8 t k,
      )

  -- The packed bytes are never empty, so neither is their text.
  encrypt-ne-nil : (iv : List ℕ) (t : Text) → length iv ≡ iv_length → encrypt p iv t ≢ []
  unfolding encrypt
  encrypt-ne-nil [] t h e = absurd (omega arith)
  encrypt-ne-nil (b ∷ iv) t h e =
      let (encrypted, tag) = p.crypto.seal (derive_key p) (b ∷ iv) (p.crypto.to_utf8 t) in
      cc (laws.from_base64-to_base64 (b ∷ iv ++ (tag ++ encrypted)), laws.from_base64-nil)

  decrypt_present_of_ne-nil :
      (t : Text) → t ≢ [] → decrypt_present p (some t) ≡ (decrypt_field p t >>= λ x. ok (some x))
  decrypt_present_of_ne-nil [] h = absurd (h refl)
  decrypt_present_of_ne-nil (c ∷ t) h = refl

  decrypt_present-encrypt_present :
      (iv : List ℕ) (o : Option Text)
      → length iv ≡ iv_length
      → IsPlainField o
      → decrypt_present p (encrypt_present p iv o) ≡ ok (present o)
  unfolding encrypt_field decrypt_field
  decrypt_present-encrypt_present iv none h k = refl
  decrypt_present-encrypt_present iv (some []) h k = refl
  decrypt_present-encrypt_present iv (some (c ∷ t)) h k =
      decrypt_present_of_ne-nil (encrypt p iv (c ∷ t)) (encrypt-ne-nil iv (c ∷ t) h)
      ∙ rw (decrypt-encrypt iv (c ∷ t) h k)

  -- For a documented crypto library: a user's data without surrogates, encrypted with vectors of 16
  -- bytes, decrypts to itself, but that an empty field comes back absent.
  pub decrypt_user_data-encrypt_user_data :
      (ivs : UserIvs) (u : UserData)
      → IsDrawnIvs ivs
      → IsPlainData u
      → decrypt_user_data p (encrypt_user_data p ivs u)
        ≡ ok (record {
          email = present u.email;
          first_name = present u.first_name;
          last_name = present u.last_name;
          phone = present u.phone;
          address = present u.address;
        })
  unfolding decrypt_user_data encrypt_user_data
  decrypt_user_data-encrypt_user_data ivs u h k = rw (
    decrypt_present-encrypt_present ivs.email u.email h.email k.email,
    decrypt_present-encrypt_present ivs.first_name u.first_name h.first_name k.first_name,
    decrypt_present-encrypt_present ivs.last_name u.last_name h.last_name k.last_name,
    decrypt_present-encrypt_present ivs.phone u.phone h.phone k.phone,
    decrypt_present-encrypt_present ivs.address u.address h.address k.address,
  )
