-- ===== src/Validation/Canonical/Groups.antt =====
-- `grouped_counts` and `aggregate_values` of src/millrace/validation/canonical.py.
use millrace.Base.{
  ℕ, ◌+◌, String, Bool, true, false, Option, none, some, List, [], ◌∷◌, ◌++◌, Result, ok,
  value_error, key_error, or_raise, ◌>>=◌, if◌then◌else◌, str_le, map_result, keep,
}
use millrace.Base.Int.{pos}
use millrace.Base.Dict.{Dict, lookup, insert}
use millrace.Base.Sort.{sort_by}
use millrace.Validation.Models.{CanonicalType, AggregateOperation, AggregateRule, ColumnRule}
use millrace.Validation.Canonical.{
  Conversions, Row, Value, Decimal, cell, canonicalize, display_key,
}

-- `columns[name] for name in names`
unfoldable pub columns_of : Dict ColumnRule → List String → Result (List ColumnRule)
columns_of columns names =
    map_result (λ name. or_raise (lookup name columns) (key_error "column")) names

-- `dict(sorted(d.items()))`; keys are distinct, so the values do not matter
abbrev pub entry_le : {V : Type 0} → String × V → String × V → Bool
entry_le a b = str_le a.0 b.0

unfoldable pub sorted_items : {V : Type 0} → Dict V → Dict V
sorted_items d = sort_by entry_le d

abbrev pub count_of : Option ℕ → ℕ
count_of none = 0
count_of (some n) = n

abbrev pub group_of : Option (List Value) → List Value
group_of none = []
group_of (some values) = values

-- `value is not None`
abbrev is_value : Value → Bool
is_value Value.null = false
is_value _ = true

module _ (py : Conversions) where
  unfoldable pub count_rows : List ColumnRule → List Row → Dict ℕ → Result (Dict ℕ)
  count_rows columns [] counts = ok counts
  count_rows columns (row ∷ rows) counts = display_key py columns row >>= λ key.
      count_rows columns rows (insert key (count_of (lookup key counts) + 1) counts)

  unfoldable pub grouped_counts : List Row → List ColumnRule → Result (Dict ℕ)
  grouped_counts rows columns = count_rows columns rows [] >>= λ counts. ok (sorted_items counts)

  abbrev group_key : List ColumnRule → Row → Result String
  group_key [] row = ok "__all__"
  group_key (column ∷ columns) row = display_key py (column ∷ columns) row

  unfoldable pub group_rows :
      List ColumnRule → String → List Row → Dict (List Value) → Result (Dict (List Value))
  group_rows columns name [] groups = ok groups
  group_rows columns name (row ∷ rows) groups = do
    key ← group_key columns row
    value ← cell row name
    group_rows columns name rows (insert key (group_of (lookup key groups) ++ value ∷ []) groups)

  -- `sum((Decimal(str(value)) for value in values), start=Decimal(0))`
  unfoldable pub sum_values : Decimal → List Value → Result Decimal
  sum_values total [] = ok total
  sum_values total (value ∷ values) = do
    addend ←
        or_raise (py.decimal (py.str value)) (value_error "aggregate contains non-numeric values")
    next ← py.add_decimal total addend
    sum_values next values

  -- `min` and `max`: a later value replaces the best one only when it is better
  unfoldable pub best_value : (Value → Value → Result Bool) → Value → List Value → Result Value
  best_value better best [] = ok best
  best_value better best (value ∷ values) =
      better value best >>= λ wins. best_value better (if wins then value else best) values

  abbrev aggregate : AggregateOperation → CanonicalType → List Value → Result String
  aggregate _ value_type [] = canonicalize py Value.null value_type
  aggregate AggregateOperation.sum value_type (value ∷ values) =
      sum_values (Decimal.finite (pos 0) (pos 0)) (value ∷ values) >>= λ total.
      canonicalize py (py.decimal_value total) CanonicalType.decimal_type
  aggregate AggregateOperation.min value_type (value ∷ values) =
      best_value py.less value values >>= λ best. canonicalize py best value_type
  aggregate AggregateOperation.max value_type (value ∷ values) =
      best_value py.greater value values >>= λ best. canonicalize py best value_type

  unfoldable pub aggregate_groups :
      AggregateOperation → CanonicalType → Dict (List Value) → Result (Dict String)
  aggregate_groups operation value_type [] = ok []
  aggregate_groups operation value_type ((key, values) ∷ groups) = do
    result ← aggregate operation value_type (keep is_value values)
    rest ← aggregate_groups operation value_type groups
    ok ((key, result) ∷ rest)

  unfoldable pub aggregate_values :
      List Row → AggregateRule → Dict ColumnRule → Result (Dict String)
  aggregate_values rows rule columns = do
    group_columns ← columns_of columns rule.group_by
    groups ← group_rows group_columns rule.column rows []
    column ← or_raise (lookup rule.column columns) (key_error "column")
    aggregate_groups rule.operation column.canonical_type (sorted_items groups)
