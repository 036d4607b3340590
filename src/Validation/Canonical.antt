-- ===== src/Validation/Canonical.antt =====
-- src/millrace/validation/canonical.py
pub mod Checksum
pub mod Groups
pub mod Framing
pub mod Agreement
use millrace.Base.{
  ℕ, suc, ◌+◌, ◌/◌, ◌%◌, String, ◌<>◌, Bool, true, false, not, Option, none, some, List, [], ◌∷◌,
  ◌++◌, map, Result, ok, raise, Error, value_error, type_error, key_error, or_raise, ◌>>=◌,
  if◌then◌else◌, str_eq, str_le, length, ltb, join, map_result,
}
use millrace.Base.Int.{ℤ, pos, int_eq}
use millrace.Base.Dict.{Dict, lookup, insert}
use millrace.Base.Sort.{sort_by}
use millrace.Streaming.Models.{DateTime, is_aware}
use millrace.Validation.Identifiers.{replace_all, count_text}
use millrace.Validation.Models.{CanonicalType, AggregateOperation, AggregateRule, ColumnRule}

-- A value of a row that a warehouse returns. A date is its ordinal, a float its `repr`.
pub data Value : Type 0 where
  null : Value
  boolean : Bool → Value
  integer : ℤ → Value
  float : String → Value
  text : String → Value
  date : ℕ → Value
  datetime : DateTime → Value
  other : String → Value

-- `Decimal`: coefficient and exponent, or an infinity or NaN
pub data Decimal : Type 0 where
  finite : ℤ → ℤ → Decimal
  special : Decimal

-- What canonical.py asks of Python's library.
pub record Conversions : Type 0 where
  pub nfc : String → String
  -- `str(value)`
  pub str : Value → String
  pub date_of : DateTime → ℕ
  pub date_fromisoformat : String → Option ℕ
  pub date_isoformat : ℕ → String
  pub datetime_fromisoformat : String → Option DateTime
  -- `astimezone(UTC).isoformat(timespec="microseconds")`
  pub utc_isoformat : DateTime → String
  -- `Decimal(text)`, with `none` for InvalidOperation, and its methods
  pub decimal : String → Option Decimal
  pub normalize : Decimal → Decimal
  pub format_decimal : Decimal → String
  pub add_decimal : Decimal → Decimal → Result Decimal
  pub decimal_value : Decimal → Value
  -- `format(float(value), ".17g")`, with `none` for an infinity or NaN
  pub format_float : Value → Result (Option String)
  pub format_int : ℤ → String
  -- `a < b` and `a > b`
  pub less : Value → Value → Result Bool
  pub greater : Value → Value → Result Bool
  -- `text.encode("utf-8")` and `hashlib.sha256(bytes).hexdigest()`
  pub encode : String → Result (List ℕ)
  pub sha256_hex : List ℕ → String

abbrev pub Row : Type 0
Row = Dict Value

-- `row[name]`
abbrev pub cell : Row → String → Result Value
cell row name = or_raise (lookup name row) (key_error "row")

module _ (py : Conversions) where
  -- `_as_date`
  unfoldable pub as_date : Value → Result ℕ
  as_date (datetime t) = ok (py.date_of t)
  as_date (date d) = ok d
  as_date (text s) = or_raise (py.date_fromisoformat s) (value_error "Invalid isoformat string")
  as_date _ = raise (type_error "expected date")

  -- `_as_datetime`
  unfoldable pub as_datetime : Value → Result DateTime
  as_datetime (datetime t) = ok t
  as_datetime (text s) =
      or_raise (py.datetime_fromisoformat (replace_all (count_text s) "Z" "+00:00" s))
        (value_error "Invalid isoformat string")
  as_datetime _ = raise (type_error "expected timestamp")

  abbrev is_zero : Decimal → Bool
  is_zero (finite c e) = int_eq c (pos 0)
  is_zero special = false

  abbrev finite_text : Decimal → Result String
  finite_text special = raise (value_error "non-finite decimals cannot be reconciled")
  finite_text (finite c e) =
      let normalized = py.normalize (finite c e) in
      ok (if is_zero normalized then "0" else py.format_decimal normalized)

  -- `_decimal_text`
  unfoldable pub decimal_text : Value → Result String
  decimal_text (boolean _) = raise (type_error "Boolean values are not decimals")
  decimal_text value =
      or_raise (py.decimal (py.str value)) (value_error "invalid decimal value") >>= finite_text

  abbrev timestamp_text : DateTime → Result String
  timestamp_text t =
      if is_aware t
      then ok
          ("T:" <> (let iso = py.utc_isoformat t in replace_all (count_text iso) "+00:00" "Z" iso))
      else raise (value_error "timestamps must include a timezone")

  abbrev float_text : Option String → Result String
  float_text none = raise (value_error "non-finite floats cannot be reconciled")
  float_text (some digits) = ok ("F:" <> digits)

  abbrev as_canonical : Value → CanonicalType → Result String
  as_canonical (text s) CanonicalType.text_type = ok ("S:" <> py.nfc s)
  as_canonical _ CanonicalType.text_type = raise (type_error "expected text")
  as_canonical value CanonicalType.date_type =
      as_date value >>= λ d. ok ("D:" <> py.date_isoformat d)
  as_canonical value CanonicalType.timestamp_type = as_datetime value >>= timestamp_text
  as_canonical value CanonicalType.decimal_type =
      decimal_text value >>= λ digits. ok ("M:" <> digits)
  as_canonical (boolean b) CanonicalType.boolean_type = ok (if b then "B:1" else "B:0")
  as_canonical _ CanonicalType.boolean_type = raise (type_error "expected Boolean")
  as_canonical (integer n) CanonicalType.integer_type = ok ("I:" <> py.format_int n)
  as_canonical _ CanonicalType.integer_type = raise (type_error "expected integer")
  as_canonical (integer n) CanonicalType.float_type = py.format_float (integer n) >>= float_text
  as_canonical (float r) CanonicalType.float_type = py.format_float (float r) >>= float_text
  as_canonical _ CanonicalType.float_type = raise (type_error "expected float")

  unfoldable pub canonicalize : Value → CanonicalType → Result String
  canonicalize null _ = ok "N"
  canonicalize value canonical_type = as_canonical value canonical_type

  abbrev pub canonical_cell : Row → ColumnRule → Result String
  canonical_cell row column =
      cell row column.name >>= λ value. canonicalize value column.canonical_type

  -- `_row_key` and the `_key_tuple` of service.py
  unfoldable pub row_key : List ColumnRule → Row → Result (List String)
  row_key columns row = map_result (canonical_cell row) columns

  -- `_display_key`
  unfoldable pub display_key : List ColumnRule → Row → Result String
  display_key columns row = row_key columns row >>= λ parts. ok (join "|" parts)
