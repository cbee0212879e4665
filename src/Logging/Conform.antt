-- ===== src/Logging/Conform.antt =====
-- What a schema of src/common/logging/json-log-format.ts asks of a value, by draft 7 of JSON Schema, which the
-- document names: nothing in the program runs it. `matches` is the test of a regular expression;
-- `format` is a remark there, as `description` and `examples` are.
use Prim.Native.Nat.{◌^◌, ◌%◌}
use proyecto_verde_auth.Base.{
  ℕ, ◌*◌, Bool, true, false, ◌&&◌, ◌||◌, List, [], ◌∷◌, Option, none, some, Text, codes, same, leb,
  ◌==◌, if◌then◌else◌,
}
use proyecto_verde_auth.Logging.Format.{includes_value, is_text}
use proyecto_verde_auth.Logging.Json.{
  Decimal, Json, null, boolean, number, string, array, object, field,
}
use proyecto_verde_auth.Logging.LogSchema.{
  Keyword, schema_uri, type, required, properties, format, pattern, enum, const, minimum, maximum,
  examples, description, Schema, any_value, ◌▷◌, property, Properties, no_properties, ◌⨾◌,
}

abbrev pub is_whole : Decimal → Bool
is_whole n = n.digits % 10 ^ n.places == 0

abbrev pub at_least : ℕ → Decimal → Bool
at_least m n = if n.negative then (m == 0) && (n.digits == 0) else leb (m * 10 ^ n.places) n.digits

abbrev pub at_most : ℕ → Decimal → Bool
at_most m n = n.negative || leb n.digits (m * 10 ^ n.places)

unfoldable pub has_type : Text → Json → Bool
has_type t null = same t (codes "null")
has_type t (boolean b) = same t (codes "boolean")
has_type t (number n) = same t (codes "number") || (same t (codes "integer") && is_whole n)
has_type t (string s) = same t (codes "string")
has_type t (array xs) = same t (codes "array")
has_type t (object ms) = same t (codes "object")

abbrev pub is_there : Option Json → Bool
is_there none = false
is_there (some v) = true

unfoldable pub are_there : List Text → Json → Bool
unfolding field
are_there [] v = true
are_there (name ∷ names) v = is_there (field name v) && are_there names v

module _ (matches : Text → Text → Bool) where
  unfoldable mutual
    unfolding has_type are_there field includes_value is_text

    pub conforms : Schema → Json → Bool
    conforms any_value v = true
    conforms (k ▷ rest) v = meets k v && conforms rest v

    pub meets : Keyword → Json → Bool
    meets (schema_uri t) v = true
    meets (type t) v = has_type t v
    meets (required names) (object ms) = are_there names (object ms)
    meets (required names) v = true
    meets (properties ps) v = all_conform ps v
    meets (format t) v = true
    meets (pattern t) (string s) = matches t s
    meets (pattern t) v = true
    meets (enum l) v = includes_value l v
    meets (const t) v = is_text t v
    meets (minimum m) (number n) = at_least m n
    meets (minimum m) v = true
    meets (maximum m) (number n) = at_most m n
    meets (maximum m) v = true
    meets (examples l) v = true
    meets (description t) v = true

    pub all_conform : Properties → Json → Bool
    all_conform no_properties v = true
    all_conform (property name s ⨾ rest) v =
        elim (field name v) [ none ↦ true | some u ↦ conforms s u ] && all_conform rest v
