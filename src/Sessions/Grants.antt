-- ===== src/Sessions/Grants.antt =====
-- What the sessions service promises: which tokens of which users are good at which instants. The calls of
-- src/sessions/sessions.service.ts on plain tables, read as such a function.
use proyecto_verde_auth.Base.{
  ℕ, ◌+◌, ◌≤◌, ◌≡◌, refl, Bool, true, false, not, ◌&&◌, ◌||◌, List, [], ◌∷◌, none, some, Option,
  Option-cases, inl, inr, Text, same, same_iff, same_refl, ltb, arith, All, Distinct, select, put,
  rewrite, length, if◌then◌else◌,
}
use proyecto_verde_auth.Platform.{Platform, BcryptLaws}
use proyecto_verde_auth.Sessions.Drawn.{token_limit, IsDrawn}
use proyecto_verde_auth.Sessions.Entity.{Session}
use proyecto_verde_auth.Sessions.Plain.{matches_plain}
use proyecto_verde_auth.Sessions.Service.{is_open, accepts, matching, new_session, session_time}

-- A user, a token and an instant: the token is accepted for the user then.
abbrev pub Grants : Type 0
Grants = Text → Text → ℕ → Bool

abbrev pub no_grants : Grants
no_grants user token now = false

abbrev pub grant : Text → Text → ℕ → Grants → Grants
grant user token expires f u t n = f u t n || (same user u && same t token && ltb n expires)

abbrev pub withdraw : Text → Text → Grants → Grants
withdraw user token f u t n = f u t n && not (same user u && same t token)

abbrev pub withdraw_all : Text → Grants → Grants
withdraw_all user f u t n = f u t n && not (same user u)

module _ (p : Platform) where
  -- What a table of sessions accepts.
  abbrev pub reading : List Session → Grants
  reading xs u t n = accepts p n t (select (is_open u) xs)

  abbrev pub HasNewId : Text → List Session → Type 0
  HasNewId id = All (λ y. same y.id id ≡ false)

  module _ (bl : BcryptLaws p.bcrypt) (id user salt token device ip : Text) (now : ℕ)
      (short : length token ≤ token_limit) where
    pub reading-put :
        (xs : List Session) (u t : Text) (n : ℕ)
        → HasNewId id xs
        → let x = new_session id user (p.bcrypt.hash salt token) device ip now in
          reading (put (λ y. same y.id x.id) x xs) u t n
          ≡ grant user token (now + session_time) (reading xs) u t n
    unfolding accepts select put new_session
    reading-put [] u t n h = ground (arith, matches_plain p bl salt token t short)
    reading-put (y ∷ xs) u t n h = ground (arith, reading-put xs u t n h.1)

  pub reading-revoke_all :
      (user : Text) (xs : List Session) (u t : Text) (n : ℕ)
      → reading (rewrite (is_open user) (λ x. record x { is_revoked = true }) xs) u t n
        ≡ withdraw_all user (reading xs) u t n
  unfolding accepts select rewrite
  reading-revoke_all user [] u t n = refl
  reading-revoke_all user (x ∷ xs) u t n = ground (
    arith,
    reading-revoke_all user xs u t n,
    same_iff x.user_id user,
    same_iff x.user_id u,
    same_iff user u,
  )

  -- The rows after `revokeSession`.
  abbrev pub revoke_found : Option Session → List Session → List Session
  revoke_found none xs = xs
  revoke_found (some x) xs = put (λ y. same y.id x.id) (record x { is_revoked = true }) xs

  unfoldable pub revoked_first : Text → Text → List Session → List Session
  revoked_first user token [] = []
  revoked_first user token (x ∷ xs) =
      if is_open user x && p.bcrypt.compare token x.refresh_token
      then record x { is_revoked = true } ∷ xs
      else x ∷ revoked_first user token xs

  pub matching-All :
      (P : Session → Type 0) (user token : Text) (xs : List Session) (x : Session)
      → All P xs
      → matching p token (select (is_open user) xs) ≡ some x
      → P x
  unfolding matching select
  matching-All P user token [] x h e = cc
  matching-All P user token (y ∷ xs) x h e = ground (arith, matching-All P user token xs x h.1)

  pub revoke_found-first :
      (user token : Text) (xs : List Session)
      → Distinct (λ (x : Session). x.id) xs
      → revoke_found (matching p token (select (is_open user) xs)) xs ≡ revoked_first user token xs
  unfolding matching select revoked_first put
  revoke_found-first user token [] d = refl
  revoke_found-first user token (x ∷ xs) d =
      elim (Option-cases (matching p token (select (is_open user) xs))) [
        | inl nobody ↦ ground (arith, nobody, same_refl x.id, revoke_found-first user token xs d.1)
        | inr (y, found) ↦ ground (
          arith,
          found,
          same_refl x.id,
          revoke_found-first user token xs d.1,
          matching-All (λ z. same x.id z.id ≡ false) user token xs y d.0,
        )
      ]

  -- No text matches two sessions.
  abbrev pub IsApart : List Session → Type 0
  IsApart [] = Unit
  IsApart (x ∷ xs) =
      ((t : Text)
        → p.bcrypt.compare t x.refresh_token ≡ true
        → All (λ y. p.bcrypt.compare t y.refresh_token ≡ false) xs)
      × IsApart xs

  refused_by_all :
      (n : ℕ) (u t : Text) (xs : List Session)
      → All (λ y. p.bcrypt.compare t y.refresh_token ≡ false) xs
      → reading xs u t n ≡ false
  unfolding accepts select
  refused_by_all n u t [] h = refl
  refused_by_all n u t (x ∷ xs) h = ground (arith, refused_by_all n u t xs h.1)

  later_refused :
      (n : ℕ) (u t token : Text) (x : Session) (xs : List Session)
      → IsApart (x ∷ xs)
      → p.bcrypt.compare token x.refresh_token ≡ true
      → same t token ≡ true
      → reading xs u t n ≡ false
  later_refused n u t token x xs apart m e =
      refused_by_all n u t xs (apart.0 t (rw ((same_iff t token).0 e) m))

  module _ (bl : BcryptLaws p.bcrypt) where
    matches_drawn :
        (x : Session) (d : IsDrawn p.bcrypt x) (t : Text)
        → p.bcrypt.compare t x.refresh_token ≡ same t d.1
    matches_drawn x (salt, plain, stored, short) t =
        rw stored (matches_plain p bl salt plain t short)

    reading-revoked_first :
        (user token : Text) (xs : List Session) (u t : Text) (n : ℕ)
        → All (IsDrawn p.bcrypt) xs
        → IsApart xs
        → reading (revoked_first user token xs) u t n ≡ withdraw user token (reading xs) u t n
    unfolding accepts select revoked_first
    reading-revoked_first user token [] u t n d a = refl
    reading-revoked_first user token (x ∷ xs) u t n d a =
        let (salt, plain, stored, short) = d.0 in
        ground (
          arith,
          matches_drawn x d.0 t,
          matches_drawn x d.0 token,
          same_iff t plain,
          same_iff token plain,
          same_iff t token,
          same_iff x.user_id user,
          same_iff x.user_id u,
          same_iff user u,
          later_refused n u t token x xs a,
          reading-revoked_first user token xs u t n d.1 a.1,
        )

    pub reading-revoke :
        (user token : Text) (xs : List Session) (u t : Text) (n : ℕ)
        → Distinct (λ (x : Session). x.id) xs
        → All (IsDrawn p.bcrypt) xs
        → IsApart xs
        → reading (revoke_found (matching p token (select (is_open user) xs)) xs) u t n
          ≡ withdraw user token (reading xs) u t n
    reading-revoke user token xs u t n ids d a =
        rw (revoke_found-first user token xs ids) (reading-revoked_first user token xs u t n d a)
