-- ===== src/Streaming/Parser/Decode.antt =====
-- The helpers of src/millrace/streaming/parser.py: decoding, unwrapping, decimals and numbers.
use Prim.Native.Nat.{◌^◌}
use millrace.Base.{
  ℕ, zero, suc, ◌+◌, ◌-◌, ◌*◌, String, ◌<>◌, Bool, true, false, ◌&&◌, not, Option, none, some, List,
  [], ◌∷◌, Result, ok, raise, value_error, ◌>>=◌, if◌then◌else◌, ltb, ◌==◌, str_eq, length,
  is_empty,
}
use millrace.Base.Int.{ℤ, pos, negsuc, int_eq}
use millrace.Streaming.Json.{
  JsonValue, integer, text, array, object, JsonList, nil, cons, JsonObject, empty, field, get,
  contains, put, optional_object, Library, decoded, decode_error, other_error,
}

-- `str | bytes`
pub data RawText : Type 0 where
  string : String → RawText
  bytes : List ℕ → RawText

-- a text of digits holds at most this many, or `int` raises (`sys.int_info.default_max_str_digits`)
abbrev pub max_str_digits : ℕ
max_str_digits = 4300

unfoldable pub count_chars : String → ℕ
count_chars String.[] = 0
count_chars (String.◌∷◌ c s) = suc (count_chars s)

-- the value of the bytes, most significant first
unfoldable pub from_bytes : ℕ → List ℕ → ℕ
from_bytes acc [] = acc
from_bytes acc (b ∷ bs) = from_bytes (acc * 256 + b) bs

-- `int.from_bytes(encoded, byteorder="big", signed=True)`, for a list that is not empty
unfoldable pub signed_from_bytes : List ℕ → ℤ
unfolding from_bytes
signed_from_bytes bs =
    let n = from_bytes 0 bs in
    let modulus = 256 ^ length bs in if ltb (2 * n) modulus then pos n else negsuc (modulus - n - 1)

-- `_named_field_schema`
unfoldable pub named_field_schema : String → JsonList → Option JsonObject
named_field_schema name nil = none
named_field_schema name (cons (object spec) fields) =
    let rest = named_field_schema name fields in
    if (elim (get "field" spec) [ text s ↦ str_eq s name | _ ↦ false ]) then some spec else rest
named_field_schema name (cons _ fields) = named_field_schema name fields

module _ (lib : Library) where
  -- `_decode`
  unfoldable pub decode : Option RawText → Option String
  decode none = none
  decode (some (string s)) = some s
  decode (some (bytes b)) = elim (lib.utf8 b) [ some s ↦ some s | none ↦ some (lib.utf8_replace b) ]

  -- `_parse_object`
  unfoldable pub parse_object : Option String → Result (JsonObject × Option String)
  parse_object none = ok (empty, some "payload is null")
  parse_object (some payload) = elim (lib.loads payload) [
    | decoded (object o) ↦ ok (o, none)
    | decoded _ ↦ ok (empty, some "payload must be a JSON object")
    | decode_error message ↦ ok (empty, some ("payload is not valid JSON: " <> message))
    | other_error e ↦ raise e
  ]

  -- `value.isdigit()`: not empty, and every character a digit
  all_digits : String → Bool
  all_digits String.[] = true
  all_digits (String.◌∷◌ c s) = lib.is_digit c && all_digits s

  unfoldable pub isdigit : String → Bool
  unfolding all_digits
  isdigit s = not (is_empty s) && all_digits s

  digits_value : ℕ → String → Option ℕ
  digits_value acc String.[] = some acc
  digits_value acc (String.◌∷◌ c s) = elim (lib.digit_value c) [
    | none ↦ none
    | some d ↦ digits_value (acc * 10 + d) s
  ]

  -- `int(value)` for a text of digits. `isdigit` also takes characters such as a superscript two,
  -- which `int` refuses.
  unfoldable pub int_of_digits : String → Result ℕ
  unfolding digits_value count_chars
  int_of_digits s =
      if ltb max_str_digits (count_chars s)
      then raise (value_error "Exceeds the limit for integer string conversion")
      else elim (digits_value 0 s) [
        | some n ↦ ok n
        | none ↦ raise (value_error "invalid literal for int() with base 10")
      ]

  -- `_non_negative_int`
  unfoldable pub non_negative_int : JsonValue → Result (Option ℕ)
  non_negative_int (integer (pos n)) = ok (some n)
  non_negative_int (integer (negsuc n)) = ok none
  non_negative_int (text s) = if isdigit s then (int_of_digits s >>= λ n. ok (some n)) else ok none
  non_negative_int _ = ok none

  -- `_positive_int`
  unfoldable pub positive_int : JsonValue → Result (Option ℕ)
  positive_int value = non_negative_int value >>= λ parsed. elim parsed [
    | none ↦ ok none
    | some zero ↦ ok none
    | some (suc n) ↦ ok (some (suc n))
  ]

  -- `_decode_decimal`
  unfoldable pub decode_decimal : String → ℕ → Result (Option String)
  unfolding signed_from_bytes
  decode_decimal value scale = elim (lib.b64decode value) [
    | none ↦ ok none
    | some [] ↦ ok none
    | some (b ∷ bs) ↦ lib.scale_decimal (signed_from_bytes (b ∷ bs)) scale >>= λ s. ok (some s)
  ]

  -- `_decimal_scale`
  unfoldable pub decimal_scale : JsonObject → Result (Option ℕ)
  decimal_scale spec =
      if (elim (get "name" spec) [
        | text s ↦ str_eq s "org.apache.kafka.connect.data.Decimal"
        | _ ↦ false
      ])
      then elim (optional_object (get "parameters" spec)) [
        | none ↦ ok none
        | some parameters ↦ non_negative_int (get "scale" parameters)
      ]
      else ok none

  -- one round of the loop of `_normalize_decimal_row`, for a field that is an object
  unfoldable pub normalize_field : JsonObject → JsonObject → JsonObject → Result JsonObject
  normalize_field row spec normalized = elim (get "field" spec) [
    | text field_name ↦ decimal_scale spec >>= λ scale. elim scale [
      | none ↦ ok normalized
      | some n ↦ elim (get field_name row) [
        | text value ↦ decode_decimal value n >>= λ found. elim found [
          | none ↦ ok normalized
          | some s ↦ ok (put field_name (text s) normalized)
        ]
        | _ ↦ ok normalized
      ]
    ]
    | _ ↦ ok normalized
  ]

  -- `_normalize_decimal_row`
  unfoldable pub normalize_row : JsonObject → JsonList → JsonObject → Result JsonObject
  normalize_row row nil normalized = ok normalized
  normalize_row row (cons (object spec) fields) normalized =
      normalize_field row spec normalized >>= λ updated. normalize_row row fields updated
  normalize_row row (cons _ fields) normalized = normalize_row row fields normalized

  -- one round of the loop of `_normalize_decimal_fields`
  unfoldable pub normalize_image : JsonObject → JsonList → String → JsonObject → Result JsonObject
  normalize_image envelope fields image_name normalized =
      elim (optional_object (get image_name envelope)) [
        | none ↦ ok normalized
        | some image ↦ elim (named_field_schema image_name fields) [
          | none ↦ ok normalized
          | some image_schema ↦ elim (get "fields" image_schema) [
            | array image_fields ↦ normalize_row image image_fields image >>= λ updated.
                ok (put image_name (object updated) normalized)
            | _ ↦ ok normalized
          ]
        ]
      ]

  -- `_normalize_decimal_fields`
  unfoldable pub normalize_decimal_fields : JsonObject → JsonObject → Result JsonObject
  normalize_decimal_fields document envelope = elim (optional_object (get "schema" document)) [
    | none ↦ ok envelope
    | some schema ↦ elim (get "fields" schema) [
      | array fields ↦ normalize_image envelope fields "before" envelope >>= λ normalized.
          normalize_image envelope fields "after" normalized
      | _ ↦ ok envelope
    ]
  ]

-- `_unwrap_payload`
unfoldable pub unwrap_payload : JsonObject → Option JsonObject
unwrap_payload value =
    if not (contains "schema" value) && not (contains "payload" value)
    then some value
    else optional_object (get "payload" value)

-- `_parse_key`
unfoldable pub parse_key : Library → Option RawText → Result (JsonObject × Option String)
parse_key lib payload = elim (decode lib payload) [
  | none ↦ ok (empty, some "Kafka key is missing")
  | some raw ↦ parse_object lib (some raw) >>= λ parsed.
      let (key, error) = parsed in
      elim error [
        | some e ↦ ok (empty, some ("Kafka key is invalid: " <> e))
        | none ↦ elim (unwrap_payload key) [
          | none ↦ ok (empty, some "Kafka key payload must be an object")
          | some unwrapped ↦ ok (unwrapped, none)
        ]
      ]
]

-- `==` of two values that `find_key` lets through: texts and integers.
unfoldable pub key_value_eq : JsonValue → JsonValue → Bool
key_value_eq (text s) (text t) = str_eq s t
key_value_eq (integer a) (integer b) = int_eq a b
key_value_eq _ _ = false

unfoldable pub count_fields : JsonObject → ℕ
count_fields empty = 0
count_fields (field k v rest) = suc (count_fields rest)

-- every item of the first dict is an item of the second
pub items_in : JsonObject → JsonObject → Bool
items_in empty other = true
items_in (field k v rest) other =
    contains k other && key_value_eq v (get k other) && items_in rest other

-- `==` of two dicts that `find_key` returns
unfoldable pub key_eq : JsonObject → JsonObject → Bool
unfolding items_in
key_eq a b = (count_fields a == count_fields b) && items_in a b
