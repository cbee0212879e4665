-- ===== src/Auth/Guard.antt =====
-- `AuthGuard('jwt')` with src/auth/strategies/jwt.strategy.ts: the bearer token of the request, if there is
-- one, must verify under the access secret; `validate` names the caller.
use proyecto_verde_auth.Base.{ℕ, Option, none, some, Text}
use proyecto_verde_auth.Exec.{Exec, unauthorized, throw}
use proyecto_verde_auth.Platform.{Platform, Payload}

pub record Caller : Type 0 where
  pub user_id : Text
  pub email : Option Text

unfoldable pub validate : Payload → Caller
validate claims = record { user_id = claims.sub; email = claims.email }

module _ (p : Platform) (now : ℕ) where
  unfoldable pub caller_of : Option Text → Option Caller
  unfolding validate
  caller_of none = none
  caller_of (some token) = elim (p.jwt.verify p.config.jwt_access_secret now token) [
    | none ↦ none
    | some claims ↦ some (validate claims)
  ]

  unfoldable pub guarded : {A : Type 0} → Option Text → Exec A → Exec A
  unfolding caller_of
  guarded bearer handler = elim (caller_of bearer) [
    | none ↦ throw (unauthorized "Unauthorized")
    | some _ ↦ handler
  ]
