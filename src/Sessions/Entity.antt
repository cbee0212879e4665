-- ===== src/Sessions/Entity.antt =====
-- src/sessions/entities/session.entity.ts, without `created_at`, which the database keeps and no code
-- reads, and the relation `user`, which no code loads.
use proyecto_verde_auth.Base.{ℕ, Bool, Option, Text}

pub record Session : Type 0 where
  pub id : Text
  pub user_id : Text
  pub refresh_token : Text
  pub device_info : Option Text
  pub ip_address : Option Text
  pub expires_at : ℕ
  pub is_revoked : Bool
