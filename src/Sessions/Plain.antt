-- ===== src/Sessions/Plain.antt =====
-- The plain text behind a session's hash: bcrypt looks at 72 bytes, and a drawn token is shorter.
use proyecto_verde_auth.Base.{
  ℕ, zero, suc, ◌≤◌, ◌<◌, ◌≡◌, refl, false, [], ◌∷◌, Text, arith, length, take, ap, Bool-cases, inl,
  inr, same, same_iff, ◌∙◌,
}
use proyecto_verde_auth.Platform.{Platform, BcryptLaws}
use proyecto_verde_auth.Sessions.Drawn.{token_limit, IsDrawn}
use proyecto_verde_auth.Sessions.Entity.{Session}

pub take_short : (n : ℕ) (t : Text) → length t ≤ n → take n t ≡ t
take_short zero [] h = refl
take_short zero (c ∷ t) h = absurd (omega arith)
take_short (suc n) [] h = refl
take_short (suc n) (c ∷ t) h = ap (◌∷◌ c) (take_short n t (omega arith))

long_take : (m n : ℕ) (t : Text) → m < n → m < length t → m < length (take n t)
long_take m zero t h k = absurd (omega arith)
long_take m (suc n) [] h k = absurd (omega arith)
long_take zero (suc n) (c ∷ t) h k = omega arith
long_take (suc m) (suc n) (c ∷ t) h k = omega (arith, long_take m n t (omega arith) (omega arith))

take_below : (n : ℕ) (t u : Text) → take n t ≡ u → length u < n → t ≡ u
take_below zero t u e h = absurd (omega arith)
take_below (suc n) [] u e h = e
take_below (suc n) (c ∷ t) [] e h = cc
take_below (suc n) (c ∷ t) (d ∷ u) e h = ground (arith, take_below n t u)

module _ (p : Platform) (bl : BcryptLaws p.bcrypt) where
  -- No signed token matches a session.
  pub drawn_refuses :
      (x : Session) (token : Text)
      → IsDrawn p.bcrypt x
      → token_limit < length token
      → p.bcrypt.compare token x.refresh_token ≡ false
  drawn_refuses x token (salt, plain, stored, short) long =
      elim (Bool-cases (p.bcrypt.compare token x.refresh_token)) [
        | inr no_match ↦ no_match
        | inl same_text ↦ absurd (
            omega (
              arith,
              long_take token_limit 72 token (omega arith) long,
              ap (λ (t : Text). length t)
                  (bl.compare-hash_sound salt plain token (rw stored at same_text)),
              ap (λ (t : Text). length t) (take_short 72 plain (omega arith)),
            ))
      ]

  -- A text that matches a drawn session is the one that was drawn.
  pub matches_plain :
      (salt plain other : Text)
      → length plain ≤ token_limit
      → p.bcrypt.compare other (p.bcrypt.hash salt plain) ≡ same other plain
  matches_plain salt plain other short = elim (Bool-cases (same other plain)) [
    | inl equal ↦ rw (equal, (same_iff other plain).0 equal) (bl.compare-hash salt plain)
    | inr differs ↦ elim (Bool-cases (p.bcrypt.compare other (p.bcrypt.hash salt plain))) [
      | inr no_match ↦ rw (differs, no_match) refl
      | inl match ↦ ground (
        arith,
        same_iff other plain,
        differs,
        match,
        take_below 72 other plain
            (bl.compare-hash_sound salt plain other match ∙ take_short 72 plain (omega arith))
            (omega arith),
      )
    ]
  ]
