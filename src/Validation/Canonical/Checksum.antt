-- ===== src/Validation/Canonical/Checksum.antt =====
-- `column_checksum` of src/millrace/validation/canonical.py.
use millrace.Base.{
  ℕ, ◌/◌, ◌%◌, String, Bool, true, false, List, [], ◌∷◌, ◌++◌, Result, ok, raise, value_error,
  ◌>>=◌, if◌then◌else◌, str_eq, str_le, length, ltb, map_result,
}
use millrace.Base.Sort.{sort_by}
use millrace.Validation.Models.{ColumnRule}
use millrace.Validation.Canonical.{Conversions, Row, row_key, canonical_cell}

-- `n.to_bytes(8, byteorder="big")`
unfoldable pub to_bytes : ℕ → Result (List ℕ)
to_bytes n =
    let n1 = n / 256 in
    let n2 = n1 / 256 in
    let n3 = n2 / 256 in
    let n4 = n3 / 256 in
    let n5 = n4 / 256 in
    let n6 = n5 / 256 in
    let n7 = n6 / 256 in
    if ltb n7 256
    then ok (n7 ∷ n6 % 256 ∷ n5 % 256 ∷ n4 % 256 ∷ n3 % 256 ∷ n2 % 256 ∷ n1 % 256 ∷ n % 256 ∷ [])
    else raise (value_error "int too big to convert")

-- Python's `<=` on tuples of texts
unfoldable pub texts_le : List String → List String → Bool
texts_le [] ys = true
texts_le (x ∷ xs) [] = false
texts_le (x ∷ xs) (y ∷ ys) = if str_eq x y then texts_le xs ys else str_le x y

abbrev pub KeyedRow : Type 0
KeyedRow = List String × Row

abbrev pub keyed_le : KeyedRow → KeyedRow → Bool
keyed_le a b = texts_le a.0 b.0

module _ (py : Conversions) where
  -- `_update_digest`: the digest is the bytes that it was given
  unfoldable pub update_digest : List ℕ → String → Result (List ℕ)
  update_digest digest value = py.encode value >>= λ encoded.
      to_bytes (length encoded) >>= λ size. ok (digest ++ (size ++ encoded))

  -- the rounds over the columns of one row, and over the rows
  unfoldable pub digest_cells : Row → List ColumnRule → List ℕ → Result (List ℕ)
  digest_cells row [] digest = ok digest
  digest_cells row (column ∷ columns) digest = canonical_cell py row column >>= λ value.
      update_digest digest value >>= digest_cells row columns

  unfoldable pub digest_rows : List ColumnRule → List KeyedRow → List ℕ → Result (List ℕ)
  digest_rows columns [] digest = ok digest
  digest_rows columns ((key, row) ∷ rows) digest =
      digest_cells row columns digest >>= digest_rows columns rows

  -- `sorted(rows, key=...)`
  abbrev keyed : List ColumnRule → Row → Result KeyedRow
  keyed key_columns row = row_key py key_columns row >>= λ key. ok (key, row)

  unfoldable pub ordered_rows : List ColumnRule → List Row → Result (List KeyedRow)
  ordered_rows key_columns rows =
      map_result (keyed key_columns) rows >>= λ ks. ok (sort_by keyed_le ks)

  unfoldable pub column_checksum : List Row → ColumnRule → List ColumnRule → Result String
  column_checksum rows column key_columns = do
    ordered ← ordered_rows key_columns rows
    digest ← digest_rows (key_columns ++ column ∷ []) ordered []
    ok (py.sha256_hex digest)
