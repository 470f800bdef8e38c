-- ===== src/Visibility/Values.antt =====
-- The values of a record's data (`unknown`, which a JSON column holds) and what JavaScript does with
-- them: field reads, strict equality with a text, and `String(value)`, which throws on an object
-- that has a field `toString`.
use managed_oss_cloud.Common.{
  String, Bool, true, false, ◌||◌, Option, none, some, str_eq, if◌then◌else◌,
}
use Prim.Native.String

mutual
  pub data Value : Type 0 where
    null : Value
    flag : Bool → Value
    -- a number, as the text that it prints as
    number : String → Value
    text : String → Value
    arr : Items → Value
    obj : Fields → Value

  pub data Items : Type 0 where
    nil : Items
    cons : Value → Items → Items

  pub data Fields : Type 0 where
    end : Fields
    entry : String → Value → Fields → Fields

-- `data[name]`; the fields read are no names of `Object.prototype`.
abbrev pub field_of : Fields → String → Option Value
field_of end name = none
field_of (entry k v rest) name = if str_eq k name then some v else field_of rest name

-- `value === text`
abbrev pub is_text : Option Value → String → Bool
is_text (some (text s)) t = str_eq s t
is_text _ t = false

-- `Array.isArray(value) && value.some((item) => item === text)`
abbrev pub items_include : Items → String → Bool
items_include nil t = false
items_include (cons v rest) t = is_text (some v) t || items_include rest t

abbrev pub array_includes : Option Value → String → Bool
array_includes (some (arr items)) t = items_include items t
array_includes _ t = false

-- What a check returns, or that it throws a `TypeError`.
pub data Access : Type 0 where
  allowed denied type_error : Access

abbrev pub allow_if : Bool → Access
allow_if true = allowed
allow_if false = denied

abbrev join : Option String → Option String → Option String
join (some s) (some t) = some (String.◌++◌ s t)
join _ _ = none

-- `String(value)`; `none` where the conversion throws. An array joins its items by commas, and
-- prints `null` items as nothing.
unfoldable mutual
  pub to_text : Value → Option String
  to_text null = some "null"
  to_text (flag true) = some "true"
  to_text (flag false) = some "false"
  to_text (number s) = some s
  to_text (text s) = some s
  to_text (arr items) = join_items items
  to_text (obj fields) = elim (field_of fields "toString") [
    | none ↦ some "[object Object]"
    | some v ↦ none
  ]

  pub item_text : Value → Option String
  item_text null = some ""
  item_text (flag true) = some "true"
  item_text (flag false) = some "false"
  item_text (number s) = some s
  item_text (text s) = some s
  item_text (arr items) = join_items items
  item_text (obj fields) = elim (field_of fields "toString") [
    | none ↦ some "[object Object]"
    | some v ↦ none
  ]

  pub join_items : Items → Option String
  join_items nil = some ""
  join_items (cons v rest) = join (item_text v) (join_rest rest)

  -- a comma before each further item
  pub join_rest : Items → Option String
  join_rest nil = some ""
  join_rest (cons v rest) = join (some ",") (join (item_text v) (join_rest rest))

abbrev pub text_of : Option Value → Option String
text_of none = some "undefined"
text_of (some v) = to_text v
