-- ===== src/Streaming/Json.antt =====
-- `JsonValue` and `JsonObject` of streaming/models.py, and what the parser asks of Python's library.
-- JSON's null is Python's `None`. An object is its items in order; `json.loads` repeats no key.
use millrace.Base.{
  ℕ, String, Char, Bool, true, false, Option, none, some, List, Result, Error, if◌then◌else◌,
  str_eq,
}
use millrace.Base.Int.{ℤ}

-- A float is given by its `str`: the code only tests its type and parses that text.
mutual
  pub data JsonValue : Type 0 where
    null : JsonValue
    boolean : Bool → JsonValue
    integer : ℤ → JsonValue
    float : String → JsonValue
    text : String → JsonValue
    array : JsonList → JsonValue
    object : JsonObject → JsonValue

  pub data JsonList : Type 0 where
    nil : JsonList
    cons : JsonValue → JsonList → JsonList

  pub data JsonObject : Type 0 where
    empty : JsonObject
    field : String → JsonValue → JsonObject → JsonObject

-- `obj.get(name)`: `None` for a missing name.
unfoldable pub get : String → JsonObject → JsonValue
get name empty = null
get name (field k v rest) = if str_eq k name then v else get name rest

-- `name in obj`
unfoldable pub contains : String → JsonObject → Bool
contains name empty = false
contains name (field k v rest) = if str_eq k name then true else contains name rest

-- `obj[name] = value`
unfoldable pub put : String → JsonValue → JsonObject → JsonObject
put name value empty = field name value empty
put name value (field k v rest) =
    if str_eq k name then field k value rest else field k v (put name value rest)

-- `value if isinstance(value, dict) else None`
unfoldable pub optional_object : JsonValue → Option JsonObject
optional_object (object o) = some o
optional_object _ = none

-- What `json.loads` does with a text.
pub data Loaded : Type 0 where
  decoded : JsonValue → Loaded
  -- a `JSONDecodeError`, with its message
  decode_error : String → Loaded
  -- any other exception, such as a number of too many digits
  other_error : Error → Loaded

-- Python's codecs, JSON, `Decimal` and Unicode tables, which the repository does not implement.
pub record Library : Type 0 where
  pub lower : String → String
  -- one character of `str.isdigit`, and the value that `int` reads it as
  pub is_digit : Char → Bool
  pub digit_value : Char → Option ℕ
  -- `bytes.decode("utf-8")`, strict and with errors="replace"
  pub utf8 : List ℕ → Option String
  pub utf8_replace : List ℕ → String
  pub loads : String → Loaded
  -- `json.dumps(value, sort_keys=True, separators=(",", ":"))`
  pub dumps : JsonValue → String
  -- `base64.b64decode(value, validate=True)`
  pub b64decode : String → Option (List ℕ)
  -- whether `Decimal(text)` succeeds
  pub is_decimal : String → Bool
  -- `format(Decimal(unscaled).scaleb(-scale), "f")`
  pub scale_decimal : ℤ → ℕ → Result String
