-- ===== src/Logging/Format.antt =====
-- `validateLogEntry` of src/common/logging/json-log-format.ts, on any value of JSON.
use proyecto_verde_auth.Base.{
  Bool, true, false, ◌&&◌, not, List, [], ◌∷◌, ◌++◌, Option, none, some, Text, codes, same,
  if◌then◌else◌,
}
use proyecto_verde_auth.Logging.Json.{Json, string, array, object, field, is_truthy}
use proyecto_verde_auth.Logging.LogSchema.{valid_services, valid_results}

-- `list.includes(t)`
unfoldable pub is_member : Text → List Text → Bool
is_member t [] = false
is_member t (u ∷ l) = if same t u then true else is_member t l

-- `list.includes(value as string)`
unfoldable pub includes_value : List Text → Json → Bool
unfolding is_member
includes_value l (string t) = is_member t l
includes_value l _ = false

-- `value === t`
unfoldable pub is_text : Text → Json → Bool
is_text u (string t) = same t u
is_text u _ = false

-- `list.join(', ')`
unfoldable pub join : List Text → Text
join [] = []
join (t ∷ []) = t
join (t ∷ u ∷ l) = t ++ codes ", " ++ join (u ∷ l)

-- `if (!value) errors.push(message)`
unfoldable pub required : Option Json → Text → List Text
unfolding is_truthy
required value message = if is_truthy value then [] else message ∷ []

-- `if (value && !test(value)) errors.push(message)`
unfoldable pub checked : (Json → Bool) → Option Json → Text → List Text
unfolding is_truthy
checked test none message = []
checked test (some v) message = if is_truthy (some v) && not (test v) then message ∷ [] else []

-- The messages that `validateLogEntry` collects of an object, in order.
unfoldable pub entry_errors : Json → List Text
unfolding field required checked includes_value is_text join valid_services valid_results
entry_errors obj =
    required (field (codes "timestamp") obj) (codes "timestamp is required")
    ++ required (field (codes "service") obj) (codes "service is required")
    ++ required (field (codes "action") obj) (codes "action is required")
    ++ required (field (codes "result") obj) (codes "result is required")
    ++ required (field (codes "hash") obj) (codes "hash is required")
    ++ required (field (codes "hashAlgorithm") obj) (codes "hashAlgorithm is required")
    ++ checked (includes_value valid_services) (field (codes "service") obj)
        (codes "service must be one of: " ++ join valid_services)
    ++ checked (includes_value valid_results) (field (codes "result") obj)
        (codes "result must be one of: " ++ join valid_results)
    ++ checked (is_text (codes "SHA-256")) (field (codes "hashAlgorithm") obj)
        (codes "hashAlgorithm must be SHA-256")

pub record Validation : Type 0 where
  pub valid : Bool
  pub errors : Option (List Text)

unfoldable pub validation : List Text → Validation
validation [] = record { valid = true; errors = none }
validation (m ∷ ms) = record { valid = false; errors = some (m ∷ ms) }

-- `typeof` is `object` for an array too.
unfoldable pub validate_log_entry : Json → Validation
unfolding entry_errors validation
validate_log_entry (object ms) = validation (entry_errors (object ms))
validate_log_entry (array xs) = validation (entry_errors (array xs))
validate_log_entry _ = validation (codes "Entry must be an object" ∷ [])
