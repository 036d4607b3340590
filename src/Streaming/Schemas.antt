-- ===== src/Streaming/Schemas.antt =====
-- src/millrace/streaming/schemas.py
pub mod Rows
use millrace.Base.{
  ℕ, String, ◌<>◌, Bool, true, false, ◌&&◌, not, Option, none, some, List, [], ◌∷◌, map,
  if◌then◌else◌, str_le, strip, is_empty, split_on, last_part, join, all, keep,
}
use millrace.Base.Dict.{Dict, lookup}
use millrace.Base.Sort.{sort_by}
use millrace.Streaming.Json.{
  JsonValue, null, boolean, integer, float, text, array, object, JsonObject, empty, field, get,
  Library,
}
use millrace.Streaming.Models.{Entity, entity_of}

pub data ValueKind : Type 0 where
  boolean_kind integer_kind decimal_kind string_kind timestamp_kind : ValueKind

unfoldable pub kind_value : ValueKind → String
kind_value boolean_kind = "boolean"
kind_value integer_kind = "integer"
kind_value decimal_kind = "decimal"
kind_value string_kind = "string"
kind_value timestamp_kind = "timestamp"

pub record EntitySpec : Type 0 where
  pub entity : Entity
  pub key_candidates : List (List String)
  pub required_fields : List String
  pub fields : Dict ValueKind

-- `value is None`
abbrev pub is_none : JsonValue → Bool
is_none null = true
is_none _ = false

abbrev pub has_text : String → Bool
has_text s = not (is_empty (strip s))

module _ (lib : Library) where
  -- `_matches_kind`; the `str` of an integer is always a decimal
  unfoldable pub matches_kind : JsonValue → ValueKind → Bool
  matches_kind (boolean b) boolean_kind = true
  matches_kind (integer i) integer_kind = true
  matches_kind (integer i) decimal_kind = true
  matches_kind (float s) decimal_kind = lib.is_decimal s
  matches_kind (text s) decimal_kind = lib.is_decimal s
  matches_kind (text s) timestamp_kind = has_text s
  matches_kind (integer i) timestamp_kind = true
  matches_kind (text s) string_kind = true
  matches_kind _ _ = false

  -- `entity_from_topic`
  unfoldable pub entity_from_topic : String → Option Entity
  entity_from_topic topic = entity_of (lib.lower (last_part (split_on b'.' topic)))

-- `_is_key_value`
unfoldable pub is_key_value : JsonValue → Bool
is_key_value (text s) = has_text s
is_key_value (integer i) = true
is_key_value _ = false

-- `{name: value[name] for name in candidate}`
unfoldable pub project : List String → JsonObject → JsonObject
project [] value = empty
project (name ∷ names) value = field name (get name value) (project names value)

unfoldable pub find_among : List (List String) → JsonObject → Option JsonObject
find_among [] value = none
find_among (candidate ∷ rest) value =
    if all (λ name. is_key_value (get name value)) candidate
    then some (project candidate value)
    else find_among rest value

-- `EntitySpec.find_key`
unfoldable pub find_key : EntitySpec → JsonObject → Option JsonObject
unfolding find_among
find_key spec value = find_among spec.key_candidates value

-- the loop of `validate_row` over the row's items
unfoldable pub first_mismatch : Library → Dict ValueKind → JsonObject → Option String
first_mismatch lib fields empty = none
first_mismatch lib fields (field name value rest) =
    let later = first_mismatch lib fields rest in
    elim (lookup name fields) [
      | none ↦ later
      | some expected ↦
          if not (is_none value) && not (matches_kind lib value expected)
          then some ("field '" <> (name <> ("' must be " <> kind_value expected)))
          else later
    ]

abbrev pub is_empty_row : JsonObject → Bool
is_empty_row empty = true
is_empty_row (field k v rest) = false

abbrev pub is_nil : List String → Bool
is_nil [] = true
is_nil (x ∷ xs) = false

abbrev pub is_found : Option JsonObject → Bool
is_found none = false
is_found (some k) = true

-- `sorted(name for name in self.required_fields if row.get(name) is None)`
unfoldable pub missing_fields : EntitySpec → JsonObject → List String
missing_fields spec row =
    sort_by str_le (keep (λ name. is_none (get name row)) spec.required_fields)

unfoldable pub key_check : EntitySpec → JsonObject → Option String
key_check spec row =
    if is_found (find_key spec row)
    then none
    else some ("row must contain key " <> join " or " (map (join "+") spec.key_candidates))

-- `EntitySpec.validate_row`: the error, or `none`
unfoldable pub validate_row : Library → EntitySpec → JsonObject → Option String
unfolding key_check
validate_row lib spec row =
    let missing = missing_fields spec row in
    let mismatch = first_mismatch lib spec.fields row in
    if is_empty_row row
    then some "row must not be empty"
    else if not (is_nil missing)
    then some ("row is missing required fields: " <> join ", " missing)
    else elim mismatch [ some error ↦ some error | none ↦ key_check spec row ]

-- `ENTITY_SPECS`
unfoldable pub entity_spec : Entity → EntitySpec
entity_spec Entity.customers = record {
  entity = Entity.customers;
  key_candidates = ("customer_id" ∷ []) ∷ [];
  required_fields =
      "customer_id" ∷ "email" ∷ "first_name" ∷ "last_name" ∷ "status" ∷ "updated_at" ∷ [];
  fields =
      ("customer_id", integer_kind)
      ∷ ("email", string_kind)
      ∷ ("first_name", string_kind)
      ∷ ("last_name", string_kind)
      ∷ ("status", string_kind)
      ∷ ("updated_at", timestamp_kind)
      ∷ ("batch_id", integer_kind)
      ∷ [];
}
entity_spec Entity.products = record {
  entity = Entity.products;
  key_candidates = ("product_id" ∷ []) ∷ [];
  required_fields =
      "product_id" ∷ "sku" ∷ "name" ∷ "category" ∷ "unit_price" ∷ "active" ∷ "updated_at" ∷ [];
  fields =
      ("product_id", integer_kind)
      ∷ ("sku", string_kind)
      ∷ ("name", string_kind)
      ∷ ("category", string_kind)
      ∷ ("unit_price", decimal_kind)
      ∷ ("active", boolean_kind)
      ∷ ("updated_at", timestamp_kind)
      ∷ ("batch_id", integer_kind)
      ∷ [];
}
entity_spec Entity.orders = record {
  entity = Entity.orders;
  key_candidates = ("order_id" ∷ []) ∷ [];
  required_fields = "order_id" ∷ "customer_id" ∷ "ordered_at" ∷ "status" ∷ "updated_at" ∷ [];
  fields =
      ("order_id", integer_kind)
      ∷ ("customer_id", integer_kind)
      ∷ ("status", string_kind)
      ∷ ("ordered_at", timestamp_kind)
      ∷ ("updated_at", timestamp_kind)
      ∷ ("batch_id", integer_kind)
      ∷ [];
}
entity_spec Entity.order_items = record {
  entity = Entity.order_items;
  key_candidates = ("order_id" ∷ "line_number" ∷ []) ∷ [];
  required_fields =
      "order_id" ∷ "line_number" ∷ "product_id" ∷ "quantity" ∷ "unit_price" ∷ "updated_at" ∷ [];
  fields =
      ("order_id", integer_kind)
      ∷ ("line_number", integer_kind)
      ∷ ("product_id", integer_kind)
      ∷ ("quantity", integer_kind)
      ∷ ("unit_price", decimal_kind)
      ∷ ("updated_at", timestamp_kind)
      ∷ ("batch_id", integer_kind)
      ∷ [];
}
