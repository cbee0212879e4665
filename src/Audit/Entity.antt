-- ===== src/Audit/Entity.antt =====
-- src/audit-log/entities/audit-log.entity.ts
use proyecto_verde_auth.Base.{ℕ, Bool, Option, Text}

pub record AuditLog : Type 0 where
  pub id : Text
  pub user_id : Option Text
  pub action : Text
  pub ip : Option Text
  pub device : Option Text
  pub timestamp : ℕ
  pub success : Bool
