-- ===== src/Publishing/Json.antt =====
-- The values of the API's `Record<string, unknown>`: what a property of a payload's options may be,
-- and the conversions that PublishingActions.tsx makes.
use stridetastic.Prelude.{String, Bool, true, false, not, Option, none, some, ◌==◌, if◌then◌else◌}
use stridetastic.Prelude.Int.{Decimal, is_zero}

-- A JavaScript number; NaN is what `Number(text)` gives for a text that is no number.
pub data Number : Type 0 where
  nan : Number
  dec : Decimal → Number

-- An array reads as an object without named properties.
mutual
  pub data Json : Type 0 where
    null : Json
    flag_value : Bool → Json
    number : Number → Json
    text_value : String → Json
    object : Fields → Json

  pub data Fields : Type 0 where
    no_fields : Fields
    field : String → Json → Fields → Fields

-- `props[key]`; none is `undefined`.
unfoldable pub property : String → Fields → Option Json
property key no_fields = none
property key (field name value rest) = if name == key then some value else property key rest

-- `Boolean(n)` for a number
abbrev pub is_nonzero : Number → Bool
is_nonzero nan = false
is_nonzero (dec d) = not (is_zero d)

-- `Boolean(value)`
abbrev pub truthy : Json → Bool
truthy null = false
truthy (flag_value b) = b
truthy (number n) = is_nonzero n
truthy (text_value s) = not (s == "")
truthy (object props) = true

abbrev pub truthy_property : Option Json → Bool
truthy_property none = false
truthy_property (some value) = truthy value

-- `typeof value === 'string' ? value : ''`
abbrev pub text_property : Option Json → String
text_property (some (text_value s)) = s
text_property _ = ""

-- The properties of `value`, if `typeof value === 'object' && value`.
abbrev pub object_property : Option Json → Option Fields
object_property (some (object props)) = some props
object_property _ = none

-- `value ?? ''`
abbrev pub or_blank : Option Json → Json
or_blank none = text_value ""
or_blank (some null) = text_value ""
or_blank (some value) = value

module _ (to_number : String → Number) where
  -- `typeof value === 'number' ? value : typeof value === 'string' && value !== '' ? Number(value) : ''`;
  -- none is the empty text of a number input.
  abbrev pub number_property : Option Json → Option Number
  number_property (some (number n)) = some n
  number_property (some (text_value s)) = if s == "" then none else some (to_number s)
  number_property _ = none
