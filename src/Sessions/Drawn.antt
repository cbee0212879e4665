-- ===== src/Sessions/Drawn.antt =====
-- Sessions that hold the hash of a token that `generateToken` may have drawn.
use proyecto_verde_auth.Base.{
  ℕ, zero, suc, ◌+◌, ◌++◌, take, drop, ◌≤◌, ◌≡◌, refl, List, [], ◌∷◌, Option, none, some, Text, All,
  length, arith,
}
use proyecto_verde_auth.Platform.{Platform, Bcrypt}
use proyecto_verde_auth.Sessions.Entity.{Session}
use proyecto_verde_auth.Sessions.Service.{new_session, matching}

-- `substring(2, 15)` of one draw, a number below one in base 36.
unfoldable pub piece : Text → Text
piece drawn = take 13 (drop 2 drawn)

-- `generateToken`, of four draws.
unfoldable pub generate_token : Text → Text → Text → Text → Text
unfolding piece
generate_token a b c d = piece a ++ piece b ++ piece c ++ piece d

-- Four pieces of at most 13 characters.
abbrev pub token_limit : ℕ
token_limit = 52

length-append : (s t : Text) → length (s ++ t) ≡ length s + length t
length-append [] t = omega arith
length-append (c ∷ s) t = omega (arith, length-append s t)

length-take : (n : ℕ) (t : Text) → length (take n t) ≤ n
length-take zero t = omega arith
length-take (suc n) [] = omega arith
length-take (suc n) (c ∷ t) = omega (arith, length-take n t)

piece-length : (drawn : Text) → length (piece drawn) ≤ 13
unfolding piece
piece-length drawn = length-take 13 (drop 2 drawn)

four_pieces :
    (a b c d : Text)
    → length a ≤ 13
    → length b ≤ 13
    → length c ≤ 13
    → length d ≤ 13
    → length (a ++ b ++ c ++ d) ≤ token_limit
four_pieces a b c d ha hb hc hd =
    omega (arith, length-append (a ++ b ++ c) d, length-append (a ++ b) c, length-append a b)

-- Whatever is drawn, a token has at most 52 characters.
pub generate_token-length : (a b c d : Text) → length (generate_token a b c d) ≤ token_limit
unfolding generate_token
generate_token-length a b c d =
    four_pieces (piece a) (piece b) (piece c) (piece d) (piece-length a) (piece-length b)
      (piece-length c) (piece-length d)

abbrev pub IsDrawn : Bcrypt → Session → Type 0
IsDrawn b x =
    (salt : Text) × (token : Text) × (x.refresh_token ≡ b.hash salt token)
    × (length token ≤ token_limit)

abbrev pub FoundSession : Bcrypt → Option Session → Type 0
FoundSession b none = Unit
FoundSession b (some x) = IsDrawn b x

module _ (p : Platform) where
  pub new_session-IsDrawn :
      (id user salt token device ip : Text) (now : ℕ)
      → length token ≤ token_limit
      → IsDrawn p.bcrypt (new_session id user (p.bcrypt.hash salt token) device ip now)
  unfolding new_session
  new_session-IsDrawn id user salt token device ip now h = (salt, token, refl, h)

  pub matching-FoundSession :
      (token : Text) (xs : List Session)
      → All (IsDrawn p.bcrypt) xs
      → FoundSession p.bcrypt (matching p token xs)
  unfolding matching
  matching-FoundSession token [] h = tt
  matching-FoundSession token (x ∷ xs) h = ground (arith, matching-FoundSession token xs h.1)
