-- ===== src/Validation/Service/Checks.antt =====
-- What it says of an entity that all of its checks passed.
use mathlib.Core.Path.{subst}
use millrace.Base.{
  ℕ, String, Bool, true, List, [], ◌∷◌, ◌++◌, Result, ok, ◌≡◌, refl, sym, ap, ◌∙◌, inl, inr, ◌>>=◌,
  bind-eq-ok, ok-path, str_eq_iff, map_result, all, keep, All, In, In-keep, arith, Bool-cases,
}
use millrace.Base.Dict.{Dict}
use millrace.Validation.Models.{ColumnRule, PartitionRule, AggregateRule, EntityRule, CheckResult}
use millrace.Validation.Canonical.{Conversions, Row, row_key}
use millrace.Validation.Canonical.Checksum.{column_checksum}
use millrace.Validation.Canonical.Groups.{columns_of, grouped_counts, aggregate_values}
use millrace.Validation.Service.{
  texts_eq, numbers_eq, entries_eq, evidence_eq, compared, is_key, distinct_keys, is_empty_list,
  delete_check, partition_check, checksum_check, aggregate_check,
}
use millrace.Validation.Service.Gate.{passes}

-- `all` over a join, and over the results of a function that may raise.
pub all-append :
    {A : Type 0} (p : A → Bool) (xs ys : List A)
    → all p (xs ++ ys) ≡ true
    → (all p xs ≡ true) × (all p ys ≡ true)
all-append p [] ys h = (refl, h)
all-append p (x ∷ xs) ys h = ground (arith, all-append p xs ys)

pub all-map_result :
    {A : Type 0} {B : Type 0} (f : A → Result B) (p : B → Bool) (xs : List A) (ys : List B)
    → map_result f xs ≡ ok ys
    → all p ys ≡ true
    → All (λ x. (y : B) × (f x ≡ ok y) × (p y ≡ true)) xs
unfolding map_result
all-map_result f p [] ys h k = tt
all-map_result f p (x ∷ xs) ys h k =
    let (y, e, h') = bind-eq-ok (f x) _ h in
    let (rest, e', h'') = bind-eq-ok (map_result f xs) _ h' in
    let shape : ys ≡ y ∷ rest = sym (ok-path h'') in
    let both : all p (y ∷ rest) ≡ true = ap (all p) (sym shape) ∙ k in
    ((y, e, ground arith), all-map_result f p xs rest e' (ground arith))

texts_eq-path : (xs ys : List String) → texts_eq xs ys ≡ true → xs ≡ ys
unfolding texts_eq
texts_eq-path [] [] h = refl
texts_eq-path [] (y ∷ ys) h = cc
texts_eq-path (x ∷ xs) [] h = cc
texts_eq-path (x ∷ xs) (y ∷ ys) h = ground (arith, str_eq_iff x y, texts_eq-path xs ys)

texts_eq_self : (xs : List String) → texts_eq xs xs ≡ true
unfolding texts_eq
texts_eq_self [] = refl
texts_eq_self (x ∷ xs) = ground (arith, str_eq_iff x x, texts_eq_self xs)

numbers_eq-path : (d e : Dict ℕ) → numbers_eq d e ≡ true → d ≡ e
unfolding numbers_eq
numbers_eq-path [] [] h = refl
numbers_eq-path [] ((k, v) ∷ e) h = cc
numbers_eq-path ((k, v) ∷ d) [] h = cc
numbers_eq-path ((k, v) ∷ d) ((j, w) ∷ e) h = ground (arith, str_eq_iff k j, numbers_eq-path d e)

entries_eq-path : (d e : Dict String) → entries_eq d e ≡ true → d ≡ e
unfolding entries_eq
entries_eq-path [] [] h = refl
entries_eq-path [] ((k, v) ∷ e) h = cc
entries_eq-path ((k, v) ∷ d) [] h = cc
entries_eq-path ((k, v) ∷ d) ((j, w) ∷ e) h =
    ground (arith, str_eq_iff k j, str_eq_iff v w, entries_eq-path d e)

is_key-In : (key : List String) (keys : List (List String)) → In key keys → is_key key keys ≡ true
unfolding is_key
is_key-In key [] m = absurd m
is_key-In key (k ∷ keys) (inl e) =
    let same : texts_eq key k ≡ true = ap (texts_eq key) e ∙ texts_eq_self key in ground arith
is_key-In key (k ∷ keys) (inr m) = ground (arith, is_key-In key keys m)

In-of_is_key :
    (key : List String) (keys : List (List String)) → is_key key keys ≡ true → In key keys
unfolding is_key
In-of_is_key key [] h = cc
In-of_is_key key (k ∷ keys) h = elim (Bool-cases (texts_eq key k)) [
  | inl e ↦ inl (sym (texts_eq-path key k e))
  | inr e ↦ inr (In-of_is_key key keys (ground arith))
]

-- The distinct keys are the keys.
In-distinct_keys :
    (key : List String) (keys : List (List String)) → In key keys → In key (distinct_keys keys)
unfolding distinct_keys
In-distinct_keys key [] m = absurd m
In-distinct_keys key (k ∷ keys) m = elim (Bool-cases (is_key k keys)) [
  | inl h ↦ rw h (elim m [
    | inl e ↦ In-distinct_keys key keys (subst (λ x. In x keys) e (In-of_is_key k keys h))
    | inr m' ↦ In-distinct_keys key keys m'
  ])
  | inr h ↦ rw h (elim m [ inl e ↦ inl e | inr m' ↦ inr (In-distinct_keys key keys m') ])
]

In-empty : {A : Type 0} (a : A) (xs : List A) → is_empty_list xs ≡ true → In a xs → ⊥
In-empty a [] h m = m
In-empty a (x ∷ xs) h m = cc

module _ (py : Conversions) (entity : EntityRule) (source candidate : List Row) where
  -- no deleted key is the key of a candidate row
  abbrev pub IsDeletedAbsent : List Row → List ColumnRule → Type 0
  IsDeletedAbsent deleted_rows key_columns =
      (deleted : List (List String)) × (present : List (List String)) × (map_result
          (row_key py key_columns) deleted_rows
        ≡ ok deleted)
      × (map_result (row_key py key_columns) candidate ≡ ok present)
      × ((key : List String) → In key deleted → In key present → ⊥)

  pub delete_check-IsDeletedAbsent :
      (deleted_rows : List Row) (key_columns : List ColumnRule) (check : CheckResult)
      → delete_check py entity candidate deleted_rows key_columns ≡ ok check
      → passes check ≡ true
      → IsDeletedAbsent deleted_rows key_columns
  unfolding delete_check
  delete_check-IsDeletedAbsent deleted_rows key_columns check h passed =
      let (deleted, e, h') = bind-eq-ok (map_result (row_key py key_columns) deleted_rows) _ h in
      let (present, e', h'') = bind-eq-ok (map_result (row_key py key_columns) candidate) _ h' in
      let nothing_left = ap passes (ok-path h'') ∙ passed in
      (
        deleted,
        present,
        e,
        e',
        λ key m n.
            In-empty key (keep (λ k. is_key k present) (distinct_keys deleted)) nothing_left (
              (In-keep (λ k. is_key k present) key (distinct_keys deleted)).1
                (In-distinct_keys key deleted m, is_key-In key present n)),
      )

  -- both sides have one value, computed without an exception
  abbrev pub IsEqualOn : {A : Type 0} → (List Row → Result A) → Type 0
  IsEqualOn f = (value : _) × (f source ≡ ok value) × (f candidate ≡ ok value)

  pub checksum_check-IsEqualOn :
      (key_columns : List ColumnRule) (column : ColumnRule) (check : CheckResult)
      → checksum_check py entity source candidate key_columns column ≡ ok check
      → passes check ≡ true
      → IsEqualOn (λ rows. column_checksum py rows column key_columns)
  unfolding checksum_check compared evidence_eq
  checksum_check-IsEqualOn key_columns column check h passed =
      let (x, e, h') = bind-eq-ok (column_checksum py source column key_columns) _ h in
      let (y, e', h'') = bind-eq-ok (column_checksum py candidate column key_columns) _ h' in
      let same = (str_eq_iff x y).0 (ap passes (ok-path h'') ∙ passed) in
      (x, e, e' ∙ ap ok (sym same))

  pub aggregate_check-IsEqualOn :
      (columns : Dict ColumnRule) (aggregate : AggregateRule) (check : CheckResult)
      → aggregate_check py entity source candidate columns aggregate ≡ ok check
      → passes check ≡ true
      → IsEqualOn (λ rows. aggregate_values py rows aggregate columns)
  unfolding aggregate_check compared evidence_eq
  aggregate_check-IsEqualOn columns aggregate check h passed =
      let (x, e, h') = bind-eq-ok (aggregate_values py source aggregate columns) _ h in
      let (y, e', h'') = bind-eq-ok (aggregate_values py candidate aggregate columns) _ h' in
      (x, e, e' ∙ ap ok (sym (entries_eq-path x y (ap passes (ok-path h'') ∙ passed))))

  pub partition_check-IsEqualOn :
      (columns : Dict ColumnRule) (partition : PartitionRule) (check : CheckResult)
      → partition_check py entity source candidate columns partition ≡ ok check
      → passes check ≡ true
      → IsEqualOn (λ rows. columns_of columns partition.columns >>= grouped_counts py rows)
  unfolding partition_check compared evidence_eq
  partition_check-IsEqualOn columns partition check h passed =
      let (group, c, k) = bind-eq-ok (columns_of columns partition.columns) _ h in
      let (x, e, h') = bind-eq-ok (grouped_counts py source group) _ k in
      let (y, e', h'') = bind-eq-ok (grouped_counts py candidate group) _ h' in
      let same = numbers_eq-path x y (ap passes (ok-path h'') ∙ passed) in
      (
        x,
        ap (λ r. r >>= grouped_counts py source) c ∙ e,
        ap (λ r. r >>= grouped_counts py candidate) c ∙ (e' ∙ ap ok (sym same)),
      )
