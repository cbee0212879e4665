-- ===== src/Auth/Refresh.antt =====
-- What becomes of the refresh tokens. A sign-in of src/auth/auth.service.ts stores the hash of one random
-- token and gives out another, signed one.
use proyecto_verde_auth.Base.{
  ℕ, ◌<◌, ◌≡◌, refl, false, List, [], ◌∷◌, none, some, Text, arith, All, length, inl, inr,
  Option-cases, String, select, select-All,
}
use proyecto_verde_auth.Audit.Service.{log}
use proyecto_verde_auth.Auth.Jwt.{verify_refresh_token}
use proyecto_verde_auth.Auth.Service.{Draws, Origin, refresh, logout}
use proyecto_verde_auth.Exec.{System, throws, unauthorized}
use proyecto_verde_auth.Platform.{
  Platform, BcryptLaws, JwtLibrary, Payload, IsDatabase, IsDatabase-eq, on_tables,
}
use proyecto_verde_auth.Sessions.Plain.{drawn_refuses}
use proyecto_verde_auth.Sessions.Drawn.{token_limit, IsDrawn}
use proyecto_verde_auth.Sessions.Entity.{Session}
use proyecto_verde_auth.Sessions.Service.{
  accepts, matching, validate_refresh_token, revoke_session, is_open,
}

-- A signed token is longer: a header, a payload and a signature of 43 characters, with two dots.
pub record JwtLaws (j : JwtLibrary) : Type 0 where
  pub verify_length :
      (secret : Text) (now : ℕ) (token : Text) (claims : Payload)
      → j.verify secret now token ≡ some claims
      → token_limit < length token

module _ (p : Platform) (bl : BcryptLaws p.bcrypt) where
  accepts_none :
      (now : ℕ) (token : Text) (xs : List Session)
      → All (IsDrawn p.bcrypt) xs
      → token_limit < length token
      → accepts p now token xs ≡ false
  unfolding accepts
  accepts_none now token [] h long = refl
  accepts_none now token (x ∷ xs) h long =
      rw (drawn_refuses p bl x token h.0 long) (accepts_none now token xs h.1 long)

  matches_none :
      (token : Text) (xs : List Session)
      → All (IsDrawn p.bcrypt) xs
      → token_limit < length token
      → matching p token xs ≡ none
  unfolding matching
  matches_none token [] h long = refl
  matches_none token (x ∷ xs) h long =
      rw (drawn_refuses p bl x token h.0 long) (matches_none token xs h.1 long)

module _ (p : Platform) (d : Draws) (now : ℕ) (o : Origin) where
  module _ (bl : BcryptLaws p.bcrypt) (token : Text) (s : System)
      (drawn : All (IsDrawn p.bcrypt) s.sessions) where
    refresh_tables :
        JwtLaws p.jwt
        → (message : String) × (refresh (on_tables p) d now o token s
            ≡ (throws (unauthorized message), s))
    unfolding refresh verify_refresh_token validate_refresh_token
    refresh_tables jl = elim (Option-cases (p.jwt.verify p.config.jwt_refresh_secret now token)) [
      | inl bad ↦ ("Refresh token inválido", rw bad)
      | inr (claims, good) ↦ (
        "Refresh token inválido o expirado",
        rw (
          good,
          accepts_none (on_tables p) bl now token (select (is_open claims.sub) s.sessions)
              (select-All (IsDrawn p.bcrypt) (is_open claims.sub) s.sessions drawn)
              (jl.verify_length p.config.jwt_refresh_secret now token claims good),
        ),
      )
    ]

    logout_tables :
        (user : Text)
        → token_limit < length token
        → (logout (on_tables p) d now o token user s).1.sessions ≡ s.sessions
    unfolding logout revoke_session log
    logout_tables user long = ground (
      arith,
      matches_none (on_tables p) bl token (select (is_open user) s.sessions)
          (select-All (IsDrawn p.bcrypt) (is_open user) s.sessions drawn) long,
    )

  module _ (db : IsDatabase p) (bl : BcryptLaws p.bcrypt) (token : Text) (s : System)
      (drawn : All (IsDrawn p.bcrypt) s.sessions) where
    -- While every session holds the hash of a token that `generateToken` may have drawn, as all
    -- sessions that the program writes do, `refresh` answers 401 to every token and writes nothing.
    pub refresh_always_refuses :
        JwtLaws p.jwt
        → (message : String) × (refresh p d now o token s ≡ (throws (unauthorized message), s))
    refresh_always_refuses jl = rw (IsDatabase-eq p db) (refresh_tables bl token s drawn jl)

    -- On a documented database and bcrypt, while every session holds the hash of a token that
    -- `generateToken` may have drawn: `logout` with a token longer than those, as every signed refresh
    -- token is, leaves the sessions as they are.
    pub logout_revokes_nothing :
        (user : Text)
        → token_limit < length token
        → (logout p d now o token user s).1.sessions ≡ s.sessions
    logout_revokes_nothing user long =
        rw (IsDatabase-eq p db) (logout_tables bl token s drawn user long)
