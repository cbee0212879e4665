-- ===== src/Tests/Codec.antt =====
-- A text format for backup codes that stands for `JSON.stringify` and `JSON.parse`, with its round trip.
use proyecto_verde_auth.Base.{
  ℕ, zero, suc, ◌≡◌, refl, Bool, true, false, List, [], ◌∷◌, Option, none, some, Text, ◌==◌,
  if◌then◌else◌, ap,
}
use proyecto_verde_auth.Mfa.Code.{BackupCode, Parsed, array, syntax_error}
use proyecto_verde_auth.Platform.{Json, JsonLaws}

-- A text is pairs of a tag and a value, read from its end: 0 begins an entry, 1 marks it used, 2 gives
-- the instant of use, 3 adds a unit to the code.
abbrev units : Text → Text → Text
units [] rest = rest
units (u ∷ t) rest = 3 ∷ u ∷ units t rest

abbrev date_units : Option ℕ → Text → Text
date_units none rest = rest
date_units (some t) rest = 2 ∷ t ∷ rest

abbrev used_units : Bool → Text → Text
used_units true rest = 1 ∷ 0 ∷ rest
used_units false rest = rest

abbrev encode : List BackupCode → Text
encode [] = []
encode (c ∷ l) = units c.code (date_units c.used_at (used_units c.used (0 ∷ 0 ∷ encode l)))

abbrev on_head : (BackupCode → BackupCode) → List BackupCode → List BackupCode
on_head f [] = []
on_head f (c ∷ l) = f c ∷ l

abbrev item : ℕ → ℕ → List BackupCode → List BackupCode
item zero v l = record { code = []; used = false; used_at = none } ∷ l
item (suc zero) v l = on_head (λ c. record c { used = true }) l
item (suc (suc zero)) v l = on_head (λ c. record c { used_at = some v }) l
item _ v l = on_head (λ c. record c { code = v ∷ c.code }) l

abbrev decode : Text → List BackupCode
decode [] = []
decode (t ∷ []) = []
decode (t ∷ v ∷ rest) = item t v (decode rest)

abbrev read : Text → Parsed
read [] = syntax_error
read (u ∷ rest) = if u == b'[' then array (decode rest) else syntax_error

abbrev pub codec : Json
codec = record { stringify = λ l. b'[' ∷ encode l; parse = read }

decode-units :
    (t rest : Text) (used : Bool) (at : Option ℕ) (l : List BackupCode)
    → decode rest ≡ record { code = []; used = used; used_at = at } ∷ l
    → decode (units t rest) ≡ record { code = t; used = used; used_at = at } ∷ l
decode-units [] rest used at l h = h
decode-units (u ∷ t) rest used at l h = rw (decode-units t rest used at l h)

decode-flags :
    (used : Bool) (at : Option ℕ) (l : List BackupCode)
    → decode (encode l) ≡ l
    → decode (date_units at (used_units used (0 ∷ 0 ∷ encode l)))
      ≡ record { code = []; used = used; used_at = at } ∷ l
decode-flags true none l h = rw h
decode-flags true (some t) l h = rw h
decode-flags false none l h = rw h
decode-flags false (some t) l h = rw h

decode-encode : (l : List BackupCode) → decode (encode l) ≡ l
decode-encode [] = refl
decode-encode (c ∷ l) =
    decode-units c.code (date_units c.used_at (used_units c.used (0 ∷ 0 ∷ encode l))) c.used
      c.used_at l (decode-flags c.used c.used_at l (decode-encode l))

pub codec-JsonLaws : JsonLaws codec
codec-JsonLaws = record { parse-stringify = λ l. ap array (decode-encode l) }
