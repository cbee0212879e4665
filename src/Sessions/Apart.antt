-- ===== src/Sessions/Apart.antt =====
-- What the writes of the sessions service keep: distinct ids, drawn tokens, and no two sessions for one text.
use proyecto_verde_auth.Base.{
  ℕ, ◌≤◌, ◌≡◌, refl, Bool, true, false, ◌&&◌, ◌∙◌, List, [], ◌∷◌, Text, same, same_iff, arith,
  Bool-cases, inl, inr, All, Distinct, select, select-All, put, put-All, put-Distinct, rewrite,
  rewrite-All, rewrite-Distinct, length,
}
use proyecto_verde_auth.Platform.{Platform, BcryptLaws}
use proyecto_verde_auth.Sessions.Drawn.{token_limit, IsDrawn}
use proyecto_verde_auth.Sessions.Entity.{Session}
use proyecto_verde_auth.Sessions.Grants.{
  IsApart, HasNewId, revoke_found, revoked_first, revoke_found-first,
}
use proyecto_verde_auth.Sessions.Plain.{matches_plain}
use proyecto_verde_auth.Sessions.Service.{is_open, matching, new_session}

abbrev pub revoke_row : Session → Session
revoke_row x = record x { is_revoked = true }

module _ (p : Platform) where
  pub record IsKept (xs : List Session) : Type 0 where
    pub ids : Distinct (λ (x : Session). x.id) xs
    pub drawn : All (IsDrawn p.bcrypt) xs
    pub apart : IsApart p xs

  -- The text matches none of the sessions.
  abbrev pub IsUnmatched : Text → List Session → Type 0
  IsUnmatched t = All (λ y. p.bcrypt.compare t y.refresh_token ≡ false)

  rewrite-IsApart :
      (q : Session → Bool) (xs : List Session) → IsApart p xs → IsApart p (rewrite q revoke_row xs)
  unfolding rewrite
  rewrite-IsApart q [] a = tt
  rewrite-IsApart q (x ∷ xs) a = (
    λ t m.
        rewrite-All (λ y. p.bcrypt.compare t y.refresh_token ≡ false) q revoke_row xs (λ y h. h)
          (a.0 t (ground arith)),
    rewrite-IsApart q xs a.1,
  )

  select-IsApart : (q : Session → Bool) (xs : List Session) → IsApart p xs → IsApart p (select q xs)
  unfolding select
  select-IsApart q [] a = tt
  select-IsApart q (x ∷ xs) a = elim (Bool-cases (q x)) [
    | inl kept ↦ rw kept (
      λ t m. select-All (λ y. p.bcrypt.compare t y.refresh_token ≡ false) q xs (a.0 t m),
      select-IsApart q xs a.1,
    )
    | inr dropped ↦ rw dropped (select-IsApart q xs a.1)
  ]

  select-Distinct :
      (q : Session → Bool) (xs : List Session)
      → Distinct (λ (x : Session). x.id) xs
      → Distinct (λ (x : Session). x.id) (select q xs)
  unfolding select
  select-Distinct q [] d = tt
  select-Distinct q (x ∷ xs) d =
      ground (arith, select-All (λ y. same x.id y.id ≡ false) q xs d.0, select-Distinct q xs d.1)

  revoked_first-All :
      (P : Session → Type 0) (user token : Text) (xs : List Session)
      → ((x : Session) → P x → P (revoke_row x))
      → All P xs
      → All P (revoked_first p user token xs)
  unfolding revoked_first
  revoked_first-All P user token [] f h = tt
  revoked_first-All P user token (x ∷ xs) f h =
      ground (arith, f x h.0, revoked_first-All P user token xs f h.1)

  revoked_first-Distinct :
      (user token : Text) (xs : List Session)
      → Distinct (λ (x : Session). x.id) xs
      → Distinct (λ (x : Session). x.id) (revoked_first p user token xs)
  unfolding revoked_first
  revoked_first-Distinct user token [] d = tt
  revoked_first-Distinct user token (x ∷ xs) d = ground (
    arith,
    revoked_first-All (λ y. same x.id y.id ≡ false) user token xs (λ y h. h) d.0,
    revoked_first-Distinct user token xs d.1,
  )

  revoked_first-IsApart :
      (user token : Text) (xs : List Session)
      → IsApart p xs
      → IsApart p (revoked_first p user token xs)
  unfolding revoked_first
  revoked_first-IsApart user token [] a = tt
  revoked_first-IsApart user token (x ∷ xs) a =
      elim (Bool-cases (is_open user x && p.bcrypt.compare token x.refresh_token)) [
        | inl here ↦ rw here (λ t m. a.0 t m, a.1)
        | inr there ↦ rw there (
          λ t m.
              revoked_first-All (λ y. p.bcrypt.compare t y.refresh_token ≡ false) user token xs
                (λ y h. h) (a.0 t m),
          revoked_first-IsApart user token xs a.1,
        )
      ]

  pub revoke_found-IsKept :
      (user token : Text) (xs : List Session)
      → IsKept xs
      → IsKept (revoke_found p (matching p token (select (is_open user) xs)) xs)
  revoke_found-IsKept user token xs k = rw (revoke_found-first p user token xs k.ids) (record {
    ids = revoked_first-Distinct user token xs k.ids;
    drawn = revoked_first-All (IsDrawn p.bcrypt) user token xs (λ y h. h) k.drawn;
    apart = revoked_first-IsApart user token xs k.apart;
  })

  pub revoke_all-IsKept :
      (q : Session → Bool) (xs : List Session) → IsKept xs → IsKept (rewrite q revoke_row xs)
  revoke_all-IsKept q xs k = record {
    ids = rewrite-Distinct (λ (x : Session). x.id) q revoke_row xs (λ x. refl) k.ids;
    drawn = rewrite-All (IsDrawn p.bcrypt) q revoke_row xs (λ y h. h) k.drawn;
    apart = rewrite-IsApart q xs k.apart;
  }

  pub select-IsKept : (q : Session → Bool) (xs : List Session) → IsKept xs → IsKept (select q xs)
  select-IsKept q xs k = record {
    ids = select-Distinct q xs k.ids;
    drawn = select-All (IsDrawn p.bcrypt) q xs k.drawn;
    apart = select-IsApart q xs k.apart;
  }

  module _ (bl : BcryptLaws p.bcrypt) (id user salt token device ip : Text) (now : ℕ)
      (short : length token ≤ token_limit) where
    abbrev opened : Session
    opened = new_session id user (p.bcrypt.hash salt token) device ip now

    -- The new session matches nothing that an older one does.
    new_unmatched :
        (x : Session) (t : Text)
        → p.bcrypt.compare token x.refresh_token ≡ false
        → p.bcrypt.compare t x.refresh_token ≡ true
        → p.bcrypt.compare t opened.refresh_token ≡ false
    unfolding new_session
    new_unmatched x t fresh m = elim (Bool-cases (same t token)) [
      | inl equal ↦ cc ((same_iff t token).0 equal, m, fresh)
      | inr differs ↦ matches_plain p bl salt token t short ∙ differs
    ]

    put-IsApart :
        (xs : List Session)
        → HasNewId p id xs
        → IsUnmatched token xs
        → IsApart p xs
        → IsApart p (put (λ y. same y.id id) opened xs)
    unfolding put
    put-IsApart [] h f a = (λ t m. tt, tt)
    put-IsApart (x ∷ xs) h f a = rw h.0 (
      λ t m.
          put-All (λ y. p.bcrypt.compare t y.refresh_token ≡ false) (λ y. same y.id id) opened xs
            (new_unmatched x t f.0 m) (a.0 t m),
      put-IsApart xs h.1 f.1 a.1,
    )

    pub put-IsKept :
        (xs : List Session)
        → HasNewId p id xs
        → IsUnmatched token xs
        → IsKept xs
        → IsKept (put (λ y. same y.id opened.id) opened xs)
    unfolding new_session
    put-IsKept xs h f k = record {
      ids = put-Distinct (λ (x : Session). x.id) opened xs k.ids;
      drawn =
          put-All (IsDrawn p.bcrypt) (λ y. same y.id opened.id) opened xs (salt, token, refl, short)
            k.drawn;
      apart = put-IsApart xs h f k.apart;
    }
