-- ===== src/Crypt/Keys.antt =====
-- The generators of src/encryption/key-management.service.ts and its shared secret. The bytes are drawn.
use proyecto_verde_auth.Base.{List, ℕ, Option, Text}
use proyecto_verde_auth.Mfa.BackupCodes.{to_hex}
use proyecto_verde_auth.Platform.{Platform}

unfoldable pub generate_symmetric_key : List ℕ → Text
unfolding to_hex
generate_symmetric_key bytes = to_hex bytes

unfoldable pub generate_random_iv : List ℕ → Text
unfolding to_hex
generate_random_iv bytes = to_hex bytes

module _ (p : Platform) where
  unfoldable pub generate_ephemeral_key : List ℕ → Text
  generate_ephemeral_key bytes = p.crypto.to_base64 bytes

  -- `compute_secret` is `setPrivateKey` and `computeSecret` on the curve, `none` where one throws.
  unfoldable pub derive_shared_secret :
      (List ℕ → List ℕ → Option (List ℕ)) → Text → Text → Option (List ℕ)
  derive_shared_secret compute_secret private_key public_key =
      compute_secret (p.crypto.from_base64 private_key) (p.crypto.from_base64 public_key)
