-- ===== src/Auth/Controller.antt =====
-- The endpoints of src/auth/auth.controller.ts that call the service; `me` stands in Auth/Profile.
use proyecto_verde_auth.Auth.Jwt.{Tokens}
use proyecto_verde_auth.Auth.Profile.{TokenReply, verify_token}
use proyecto_verde_auth.Auth.Service.{Draws, Origin, LoginReply, login_body, refresh, logout}
use proyecto_verde_auth.Base.{ℕ, Option, Text, codes, or_else, BodyField}
use proyecto_verde_auth.Exec.{Exec}
use proyecto_verde_auth.Platform.{Platform}

-- The address and the headers that the endpoints read.
pub record Request : Type 0 where
  pub ip : Text
  pub user_agent : Option Text
  pub x_user_id : Text

unfoldable pub origin_of : Request → Origin
origin_of request = record {
  ip = request.ip;
  device = or_else request.user_agent (codes "unknown");
}

module _ (p : Platform) (now : ℕ) where
  unfoldable pub login_endpoint : Draws → Request → BodyField → BodyField → Exec LoginReply
  unfolding origin_of login_body
  login_endpoint d request email password = login_body p d now (origin_of request) email password

  unfoldable pub refresh_endpoint : Draws → Request → Text → Exec Tokens
  unfolding origin_of refresh
  refresh_endpoint d request token = refresh p d now (origin_of request) token

  -- The user is the one that the header names, not the one of the token.
  unfoldable pub logout_endpoint : Draws → Request → Text → Exec Unit
  unfolding origin_of logout
  logout_endpoint d request token = logout p d now (origin_of request) token request.x_user_id

  unfoldable pub verify_endpoint : Text → TokenReply
  unfolding verify_token
  verify_endpoint token = verify_token p now token
