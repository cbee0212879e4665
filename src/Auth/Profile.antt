-- ===== src/Auth/Profile.antt =====
-- The requests that only read: `verify` of src/auth/auth.service.ts and `me` of src/auth/auth.controller.ts.
use Prim.Native.Nat.{◌%◌}
use proyecto_verde_auth.Auth.Jwt.{verify_access_token}
use proyecto_verde_auth.Base.{
  ℕ, ◌≡◌, Option, none, some, Text, List, codes, map, starts_with, drop, if◌then◌else◌,
  Option-cases, Bool, inl, inr, arith, first, same,
}
use proyecto_verde_auth.Exec.{Exec, System, ok, pure, ◌>>=◌}
use proyecto_verde_auth.Platform.{Platform, Payload, IsDatabase, IsDatabase-eq, on_tables}
use proyecto_verde_auth.Users.Entity.{User, MfaMethod}
use proyecto_verde_auth.Users.Service.{find_by_id}

-- What `verify` answers: the payload, or `Token Inválido`.
pub data TokenReply : Type 0 where
  valid_token : Payload → TokenReply
  invalid_token : TokenReply

pub record Profile : Type 0 where
  pub user_id : Text
  pub email : Text
  pub mfa_enabled : Bool
  pub biometric_enabled : Bool
  pub preferred_mfa_method : MfaMethod

pub data ProfileReply : Type 0 where
  no_token bad_token no_user : ProfileReply
  profile : Profile → ProfileReply

unfoldable pub profile_of : User → Profile
profile_of u = record {
  user_id = u.id;
  email = u.email;
  mfa_enabled = u.mfa_enabled;
  biometric_enabled = u.biometric_enabled;
  preferred_mfa_method = u.preferred_mfa_method;
}

-- `buffer.toString('ascii')` keeps seven bits of each byte.
unfoldable pub to_ascii : List ℕ → Text
to_ascii bytes = map (λ b. b % 128) bytes

abbrev reply_of : Option Payload → TokenReply
reply_of none = invalid_token
reply_of (some claims) = valid_token claims

module _ (p : Platform) (now : ℕ) where
  unfoldable pub verify_token : Text → TokenReply
  unfolding to_ascii
  verify_token token = reply_of (verify_access_token p now (to_ascii (p.crypto.from_base64 token)))

  unfoldable pub profile_found : Option User → Exec ProfileReply
  unfolding profile_of
  profile_found none = pure no_user
  profile_found (some u) = pure (profile (profile_of u))

  unfoldable pub holder_profile : Option Payload → Exec ProfileReply
  unfolding profile_found
  holder_profile none = pure bad_token
  holder_profile (some claims) = find_by_id p claims.sub >>= profile_found

  unfoldable pub me : Option Text → Exec ProfileReply
  unfolding holder_profile
  me none = pure no_token
  me (some header) =
      if starts_with header (codes "Bearer ")
      then holder_profile (verify_access_token p now (drop 7 header))
      else pure no_token

-- The row that an id names.
unfoldable pub holder_of : Text → System → Option User
holder_of id s = first (λ u. same u.id id) s.users

module _ (p : Platform) (now : ℕ) (s : System) where
  me_tables :
      (header : Text) (d : Profile)
      → (me (on_tables p) now (some header) s).0 ≡ ok (profile d)
      → (claims : Payload) × (u : User) × (verify_access_token p now (drop 7 header) ≡ some claims)
        × (holder_of claims.sub s ≡ some u)
        × (d ≡ profile_of u)
  unfolding me find_by_id holder_of verify_access_token
  me_tables header d h =
      elim (Option-cases (verify_access_token (on_tables p) now (drop 7 header))) [
        | inl bad ↦ ground (arith, bad)
        | inr (claims, good) ↦ elim (Option-cases (first (λ u. same u.id claims.sub) s.users)) [
          | inl nobody ↦ ground (arith, good, nobody)
          | inr (u, found) ↦ (claims, u, good, found, ground (arith, good, found))
        ]
      ]

  -- On a documented database, `me` gives a profile only for a header whose text after the first seven
  -- characters verifies as an access token at this instant, and then it is the profile of the user whose id is
  -- the token's subject.
  pub me_names_holder :
      IsDatabase p
      → (header : Text) (d : Profile) → (me p now (some header) s).0 ≡ ok (profile d)
      → (claims : Payload) × (u : User) × (verify_access_token p now (drop 7 header) ≡ some claims)
        × (holder_of claims.sub s ≡ some u)
        × (d ≡ profile_of u)
  me_names_holder db header d h = me_tables header d (rw (IsDatabase-eq p db) at h)
