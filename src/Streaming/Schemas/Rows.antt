-- ===== src/Streaming/Schemas/Rows.antt =====
-- What `validate_row` and `find_key` accept.
use millrace.Base.{
  ap, ◌≢◌, IsVisible, IsVisible-strip, strip-IsVisible, String, ◌≡◌, refl, arith, Bool, true, false,
  none, some, List, [], ◌∷◌, ◌↔◌, inl, inr, In, In-keep, Bool-cases, Option-cases, str_le, all,
}
use millrace.Base.Dict.{Dict, lookup}
use millrace.Base.Sort.{In-sort_by}
use millrace.Base.Int.{ℤ}
use millrace.Streaming.Json.{
  JsonValue, null, boolean, integer, float, text, JsonObject, empty, field, get, Library,
}
use millrace.Streaming.Schemas.{
  ValueKind, boolean_kind, integer_kind, decimal_kind, string_kind, timestamp_kind, EntitySpec,
  is_none, is_key_value, project, matches_kind, find_among, find_key, first_mismatch, is_empty_row,
  is_nil, is_found, missing_fields, validate_row,
}

-- A key's value is an integer or a text that is not blank.
abbrev pub IsKeyValue : JsonValue → Type 0
IsKeyValue (text s) = IsVisible s
IsKeyValue (integer i) = Unit
IsKeyValue _ = ⊥

is_key_value_sound : (v : JsonValue) → is_key_value v ≡ true → IsKeyValue v
unfolding is_key_value
is_key_value_sound (text s) h = IsVisible-strip s (ground arith)
is_key_value_sound (integer i) h = tt
is_key_value_sound _ h = cc

is_key_value_complete : (v : JsonValue) → IsKeyValue v → is_key_value v ≡ true
unfolding is_key_value
is_key_value_complete (text s) h = ground (arith, strip-IsVisible s h)
is_key_value_complete (integer i) h = refl
is_key_value_complete _ h = absurd h

is_none-ne : (v : JsonValue) → is_none v ≡ false → v ≢ null
is_none-ne null h = cc
is_none-ne v h = λ e. cc

ne-is_none : (v : JsonValue) → v ≢ null → is_none v ≡ false
ne-is_none null h = absurd (h refl)
ne-is_none _ h = refl

module _ (lib : Library) where
  -- The values of each kind.
  pub data HasKind : JsonValue → ValueKind → Type 0 where
    a_boolean : {b : Bool} → HasKind (boolean b) boolean_kind
    an_integer : {i : ℤ} → HasKind (integer i) integer_kind
    a_whole_decimal : {i : ℤ} → HasKind (integer i) decimal_kind
    a_float : {s : String} → lib.is_decimal s ≡ true → HasKind (float s) decimal_kind
    a_decimal : {s : String} → lib.is_decimal s ≡ true → HasKind (text s) decimal_kind
    a_text : {s : String} → HasKind (text s) string_kind
    a_time : {s : String} → IsVisible s → HasKind (text s) timestamp_kind
    a_stamp : {i : ℤ} → HasKind (integer i) timestamp_kind

  matches_kind_sound : (v : JsonValue) (k : ValueKind) → matches_kind lib v k ≡ true → HasKind v k
  unfolding matches_kind
  matches_kind_sound (boolean b) boolean_kind h = a_boolean
  matches_kind_sound (integer i) integer_kind h = an_integer
  matches_kind_sound (integer i) decimal_kind h = a_whole_decimal
  matches_kind_sound (float s) decimal_kind h = a_float h
  matches_kind_sound (text s) decimal_kind h = a_decimal h
  matches_kind_sound (text s) timestamp_kind h = a_time (IsVisible-strip s (ground arith))
  matches_kind_sound (integer i) timestamp_kind h = a_stamp
  matches_kind_sound (text s) string_kind h = a_text
  matches_kind_sound _ _ h = cc

  matches_kind_complete :
      (v : JsonValue) (k : ValueKind) → HasKind v k → matches_kind lib v k ≡ true
  unfolding matches_kind
  matches_kind_complete _ _ a_boolean = refl
  matches_kind_complete _ _ an_integer = refl
  matches_kind_complete _ _ a_whole_decimal = refl
  matches_kind_complete _ _ (a_float h) = h
  matches_kind_complete _ _ (a_decimal h) = h
  matches_kind_complete _ _ (a_time {s} h) = ground (arith, strip-IsVisible s h)
  matches_kind_complete _ _ a_stamp = refl
  matches_kind_complete _ _ a_text = refl

  -- Each value of the row that is not None has the kind of its field, where it is configured.
  abbrev pub HasKinds : Dict ValueKind → JsonObject → Type 0
  HasKinds fields empty = Unit
  HasKinds fields (field name value rest) =
      ((kind : ValueKind) → lookup name fields ≡ some kind → value ≢ null → HasKind value kind)
      × HasKinds fields rest

  -- The row is not empty, has every required field, values of the right kinds, and all the parts of
  -- one of the keys.
  pub record IsValidRow (spec : EntitySpec) (row : JsonObject) : Type 0 where
    pub filled : row ≢ empty
    pub required : (name : String) → In name spec.required_fields → get name row ≢ null
    pub kinds : HasKinds spec.fields row
    pub candidate : List String
    pub is_candidate : In candidate spec.key_candidates
    pub key : (name : String) → In name candidate → IsKeyValue (get name row)

  first_mismatch-HasKinds :
      (fields : Dict ValueKind) (row : JsonObject)
      → first_mismatch lib fields row ≡ none
      → HasKinds fields row
  unfolding first_mismatch
  first_mismatch-HasKinds fields empty h = tt
  first_mismatch-HasKinds fields (field name value rest) h = (
    λ kind known there. matches_kind_sound value kind (ground (arith, ne-is_none value there)),
    first_mismatch-HasKinds fields rest (ground arith),
  )

  HasKinds-first_mismatch :
      (fields : Dict ValueKind) (row : JsonObject)
      → HasKinds fields row
      → first_mismatch lib fields row ≡ none
  unfolding first_mismatch
  HasKinds-first_mismatch fields empty h = refl
  HasKinds-first_mismatch fields (field name value rest) h =
      elim (Option-cases (lookup name fields)) [
        | inl free ↦ ground (arith, HasKinds-first_mismatch fields rest h.1)
        | inr (kind, known) ↦ elim (Bool-cases (is_none value)) [
          | inl gone ↦ ground (arith, HasKinds-first_mismatch fields rest h.1)
          | inr found ↦
              let fits =
                matches_kind_complete value kind (h.0 kind known (is_none-ne value found)) in
              ground (arith, HasKinds-first_mismatch fields rest h.1)
        ]
      ]

nil_of_none : (xs : List String) → ((a : String) → ¬ In a xs) → is_nil xs ≡ true
nil_of_none [] h = refl
nil_of_none (x ∷ xs) h = absurd (h x (inl refl))

none_of_nil : (xs : List String) (a : String) → is_nil xs ≡ true → ¬ In a xs
none_of_nil [] a h m = m
none_of_nil (x ∷ xs) a h m = cc

module _ (spec : EntitySpec) (row : JsonObject) where
  missing_fields_nil :
      is_nil (missing_fields spec row) ≡ true
      → (name : String) → In name spec.required_fields
      → is_none (get name row) ≡ false
  unfolding missing_fields
  missing_fields_nil h name m = elim (Bool-cases (is_none (get name row))) [
    | inr there ↦ there
    | inl gone ↦ absurd (
        none_of_nil _ name h
          ((In-sort_by str_le name _).1 ((In-keep (λ n. is_none (get n row)) name _).1 (m, gone))))
  ]

  nil_missing_fields :
      ((name : String) → In name spec.required_fields → is_none (get name row) ≡ false)
      → is_nil (missing_fields spec row) ≡ true
  unfolding missing_fields
  nil_missing_fields h = nil_of_none _ λ name m.
      let (r, gone) =
        (In-keep (λ n. is_none (get n row)) name _).0 ((In-sort_by str_le name _).0 m) in
      cc (h name r)

all-In :
    (p : String → Bool) (xs : List String) (a : String) → all p xs ≡ true → In a xs → p a ≡ true
all-In p [] a h m = absurd m
all-In p (x ∷ xs) a h (inl e) = ground arith
all-In p (x ∷ xs) a h (inr m) = all-In p xs a (ground arith) m

find_among_sound :
    (candidates : List (List String)) (value key : JsonObject)
    → find_among candidates value ≡ some key
    → (candidate : List String) × In candidate candidates
      × (key ≡ project candidate value)
      × (all (λ name. is_key_value (get name value)) candidate ≡ true)
unfolding find_among
find_among_sound [] value key h = cc
find_among_sound (c ∷ cs) value key h =
    elim (Bool-cases (all (λ name. is_key_value (get name value)) c)) [
      | inl fits ↦ (c, inl refl, ground arith, fits)
      | inr fails ↦
          let (d, m, e, g) = find_among_sound cs value key (ground arith) in (d, inr m, e, g)
    ]

-- A key that is found is the row's part of a configured candidate, all of whose names have a text
-- that is not blank or an integer.
pub find_key_sound :
    (spec : EntitySpec) (value key : JsonObject)
    → find_key spec value ≡ some key
    → (candidate : List String) × In candidate spec.key_candidates
      × (key ≡ project candidate value)
      × ((name : String) → In name candidate → is_key_value (get name value) ≡ true)
unfolding find_key
find_key_sound spec value key h =
    let (c, m, e, g) = find_among_sound spec.key_candidates value key h in
    (c, m, e, λ name i. all-In _ c name g i)

all_intro :
    (p : String → Bool) (xs : List String) → ((a : String) → In a xs → p a ≡ true) → all p xs ≡ true
all_intro p [] h = refl
all_intro p (x ∷ xs) h = ground (arith, h x (inl refl), all_intro p xs (λ a m. h a (inr m)))

find_among_complete :
    (candidates : List (List String)) (value : JsonObject) (candidate : List String)
    → In candidate candidates
    → all (λ name. is_key_value (get name value)) candidate ≡ true
    → is_found (find_among candidates value) ≡ true
unfolding find_among
find_among_complete [] value candidate m h = absurd m
find_among_complete (c ∷ cs) value candidate m h =
    elim (Bool-cases (all (λ name. is_key_value (get name value)) c)) [
      | inl fits ↦ rw fits refl
      | inr fails ↦ rw fails (elim m [
        | inl same ↦ absurd (cc (ap (all (λ name. is_key_value (get name value))) same))
        | inr later ↦ find_among_complete cs value candidate later h
      ])
    ]

is_empty_row-ne : (row : JsonObject) → is_empty_row row ≡ false → row ≢ empty
is_empty_row-ne empty h = cc
is_empty_row-ne (field k v rest) h = λ e. cc

ne-is_empty_row : (row : JsonObject) → row ≢ empty → is_empty_row row ≡ false
ne-is_empty_row empty h = absurd (h refl)
ne-is_empty_row (field k v rest) h = refl

-- `validate_row` finds no error in a row exactly when the row is valid: not empty, with every required
-- field, with values of their fields' kinds, and with an integer or a text that is not blank for every
-- name of one of its keys.
pub validate_row_iff :
    (lib : Library) (spec : EntitySpec) (row : JsonObject)
    → (validate_row lib spec row ≡ none) ↔ IsValidRow lib spec row
unfolding validate_row find_key
validate_row_iff lib spec row = (
  λ h. elim (Option-cases (find_key spec row)) [
    | inl missing ↦ absurd (ground arith)
    | inr (k, found) ↦
        let (candidate, m, e, values) = find_key_sound spec row k found in
        record {
          filled = is_empty_row-ne row (ground arith);
          required = λ name i.
              is_none-ne (get name row) (missing_fields_nil spec row (ground arith) name i);
          kinds = first_mismatch-HasKinds lib spec.fields row (ground arith);
          candidate = candidate;
          is_candidate = m;
          key = λ name i. is_key_value_sound (get name row) (values name i);
        }
  ],
  λ v.
      let filled = ne-is_empty_row row v.filled in
      let found = find_among_complete spec.key_candidates row v.candidate v.is_candidate (
        all_intro (λ name. is_key_value (get name row)) v.candidate
          (λ name i. is_key_value_complete (get name row) (v.key name i))) in
      ground (
        arith,
        nil_missing_fields spec row (λ name i. ne-is_none (get name row) (v.required name i)),
        HasKinds-first_mismatch lib spec.fields row v.kinds,
      ),
)
