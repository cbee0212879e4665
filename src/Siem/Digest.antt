-- ===== src/Siem/Digest.antt =====
-- The pattern `^[a-f0-9]{64}$` of a digest, which src/common/logging/json-log-format.ts and
-- docker/siem/wazuh/filebeat/validate-hash.js name.
use proyecto_verde_auth.Base.{
  ℕ, ◌≡◌, ◌≢◌, refl, Bool, true, ◌&&◌, ◌||◌, [], ◌∷◌, ◌++◌, Text, leb, ◌==◌, length, All, arith,
}

unfoldable pub is_hex_unit : ℕ → Bool
is_hex_unit c = (leb b'a' c && leb c b'f') || (leb b'0' c && leb c b'9')

unfoldable pub every : (ℕ → Bool) → Text → Bool
every p [] = true
every p (c ∷ t) = p c && every p t

-- `/^[a-f0-9]{64}$/.test(t)`
unfoldable pub sha256_regex : Text → Bool
unfolding every is_hex_unit
sha256_regex t = (length t == 64) && every is_hex_unit t

-- No unit is the brace that opens an object of JSON.
abbrev pub HasNoBrace : Text → Type 0
HasNoBrace = All λ c. c ≢ b'{'

every_hex-HasNoBrace : (t : Text) → every is_hex_unit t ≡ true → HasNoBrace t
unfolding every is_hex_unit
every_hex-HasNoBrace [] h = tt
every_hex-HasNoBrace (c ∷ t) h = (λ e. ground arith, every_hex-HasNoBrace t (ground arith))

pub digest-length : (t : Text) → sha256_regex t ≡ true → length t ≡ 64
unfolding sha256_regex
digest-length t h = ground arith

pub digest-HasNoBrace : (t : Text) → sha256_regex t ≡ true → HasNoBrace t
unfolding sha256_regex
digest-HasNoBrace t h = every_hex-HasNoBrace t (ground arith)

-- Texts before the first brace are equal where the whole texts are, and so is what follows.
pub brace_splits :
    (a b x y : Text)
    → HasNoBrace a
    → HasNoBrace b
    → a ++ b'{' ∷ x ≡ b ++ b'{' ∷ y
    → (a ≡ b) × (x ≡ y)
brace_splits [] [] x y ha hb e = (refl, cc e)
brace_splits [] (d ∷ b) x y ha hb e = absurd (hb.0 (cc e))
brace_splits (c ∷ a) [] x y ha hb e = absurd (ha.0 (cc e))
brace_splits (c ∷ a) (d ∷ b) x y ha hb e =
    let (tails, rests) = brace_splits a b x y ha.1 hb.1 (cc e) in
    let heads : c ≡ d = cc e in (cc (heads, tails), rests)
