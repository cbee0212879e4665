-- ===== src/Logging/Json.antt =====
-- The values of JSON that src/common/logging/json-log-format.ts looks into.
use proyecto_verde_auth.Base.{
  ℕ, Bool, true, false, not, [], Option, none, some, Text, same, ◌==◌, if◌then◌else◌,
}

-- A number by its decimal digits, some of them after the point.
pub record Decimal : Type 0 where
  pub negative : Bool
  pub digits : ℕ
  pub places : ℕ

mutual
  pub data Json : Type 0 where
    null : Json
    boolean : Bool → Json
    number : Decimal → Json
    string : Text → Json
    array : Items → Json
    object : Members → Json

  pub data Items : Type 0 where
    no_items : Items
    item : Json → Items → Items

  pub data Members : Type 0 where
    no_members : Members
    member : Text → Json → Members → Members

abbrev pub whole : ℕ → Json
whole n = number (record { negative = false; digits = n; places = 0 })

unfoldable pub member_of : Text → Members → Option Json
member_of name no_members = none
member_of name (member k v rest) = if same k name then some v else member_of name rest

-- `obj[name]`; an array has no field of a name that is asked for here.
unfoldable pub field : Text → Json → Option Json
unfolding member_of
field name (object ms) = member_of name ms
field name _ = none

-- `!!value`
unfoldable pub is_truthy : Option Json → Bool
is_truthy none = false
is_truthy (some null) = false
is_truthy (some (boolean b)) = b
is_truthy (some (number n)) = not (n.digits == 0)
is_truthy (some (string t)) = not (same t [])
is_truthy (some (array xs)) = true
is_truthy (some (object ms)) = true
