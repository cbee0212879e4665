-- ===== src/Tests/Written.antt =====
-- Texts and marks written one after the other, each text after its length, and read back.
use proyecto_verde_auth.Base.{
  ℕ, suc, zero, ◌≡◌, refl, [], ◌∷◌, ◌++◌, Option, none, some, Text, length, take, drop, take-append,
  drop-append,
}

abbrev pub put_text : Text → Text → Text
put_text t rest = length t ∷ t ++ rest

abbrev pub put_mark : Option ℕ → Text → Text
put_mark none rest = 0 ∷ rest
put_mark (some n) rest = suc n ∷ rest

abbrev pub put_option : Option Text → Text → Text
put_option none rest = 0 ∷ rest
put_option (some t) rest = 1 ∷ put_text t rest

unfoldable pub get_text : Text → Text × Text
get_text [] = ([], [])
get_text (n ∷ r) = (take n r, drop n r)

unfoldable pub get_mark : Text → Option ℕ × Text
get_mark [] = (none, [])
get_mark (zero ∷ r) = (none, r)
get_mark (suc n ∷ r) = (some n, r)

unfoldable pub get_option : Text → Option Text × Text
get_option [] = (none, [])
get_option (zero ∷ r) = (none, r)
get_option (suc n ∷ r) = (some (get_text r).0, (get_text r).1)

pub get_text-put : (t rest : Text) → get_text (put_text t rest) ≡ (t, rest)
unfolding get_text
get_text-put t rest =
    λ i. (take-append (length t) t rest refl i, drop-append (length t) t rest refl i)

pub get_mark-put : (m : Option ℕ) (rest : Text) → get_mark (put_mark m rest) ≡ (m, rest)
unfolding get_mark
get_mark-put none rest = refl
get_mark-put (some n) rest = refl

pub get_option-put : (o : Option Text) (rest : Text) → get_option (put_option o rest) ≡ (o, rest)
unfolding get_option
get_option-put none rest = refl
get_option-put (some t) rest = rw (get_text-put t rest) refl
