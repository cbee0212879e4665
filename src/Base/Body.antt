-- ===== src/Base/Body.antt =====
-- A field of a request's body, which src/main.ts does not validate: it may be left out, null, or a text.
use proyecto_verde_auth.Base.Strings.{Text, codes}

pub data BodyField : Type 0 where
  undefined null_field : BodyField
  text_field : Text → BodyField

-- The field in a template literal.
unfoldable pub shown : BodyField → Text
shown undefined = codes "undefined"
shown null_field = codes "null"
shown (text_field t) = t
