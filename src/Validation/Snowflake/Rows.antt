-- ===== src/Validation/Snowflake/Rows.antt =====
-- The rows of `publication_runs` under the statements of `SnowflakePromotionService` of
-- src/millrace/validation/publication.py.
use millrace.Base.{
  ℕ, String, Bool, true, false, Option, none, some, List, [], ◌∷◌, ◌++◌, Result, ok, ◌>>=◌,
  split_on, last_part, ◌≡◌, refl, arith, ◌⊎◌, inl, inr, ◌≤◌, str_eq, All, Bool-cases, Option-cases,
}
use millrace.Base.Dict.{Dict, lookup, insert}
use millrace.Contracts.{Platform, RunContext}
use millrace.Validation.Identifiers.{IdentifierCase, quote_identifier, render_relation}
use millrace.Validation.Models.{PublicationRule}
use millrace.Validation.Publication.{View, rows_of, is_newer, is_validated}
use millrace.Validation.Snowflake.{
  PublicationRow, Account, published_rows, find_row, latest_published,
}

-- whether the run is recorded as published
abbrev pub is_done_row : Option PublicationRow → Bool
is_done_row none = false
is_done_row (some row) = row.is_published

unfoldable pub is_done : String → List PublicationRow → Bool
is_done run_id rows = is_done_row (find_row run_id rows)

module _ (run_id : String) (batch_id : ℕ) where
  -- A row that is published is of no newer batch, and a row of the run is of the batch.
  abbrev pub Fits : PublicationRow → Type 0
  Fits row =
      ((row.is_published ≡ false) ⊎ (row.batch_id ≤ batch_id))
      × ((str_eq row.run_id run_id ≡ false) ⊎ (row.batch_id ≡ batch_id))

  pub latest_published-le :
      (rows : List PublicationRow) (latest : ℕ)
      → All Fits rows
      → latest_published rows ≡ some latest
      → latest ≤ batch_id
  unfolding latest_published
  latest_published-le [] latest h e = cc
  latest_published-le (row ∷ rows) latest h e = elim (Option-cases (latest_published rows)) [
    | inl last ↦ ground (arith, h.0.0)
    | inr (b, last) ↦ ground (arith, h.0.0, latest_published-le rows b h.1 last)
  ]

  pub is_newer-latest_published :
      (rows : List PublicationRow)
      → All Fits rows
      → is_newer batch_id (latest_published rows) ≡ false
  is_newer-latest_published rows h = elim (Option-cases (latest_published rows)) [
    | inl e ↦ rw e refl
    | inr (b, e) ↦ rw e (ground (arith, latest_published-le rows b h e))
  ]

  pub find_row-batch_id :
      (rows : List PublicationRow) (row : PublicationRow)
      → All Fits rows
      → find_row run_id rows ≡ some row
      → row.batch_id ≡ batch_id
  unfolding find_row
  find_row-batch_id [] row h e = cc
  find_row-batch_id (x ∷ rows) row h e = elim (Bool-cases (str_eq x.run_id run_id)) [
    | inl own ↦ ground (arith, h.0.1)
    | inr other ↦ find_row-batch_id rows row h.1 (ground arith)
  ]

  pub published_rows-Fits :
      (rows : List PublicationRow) → All Fits rows → All Fits (published_rows run_id rows)
  unfolding published_rows
  published_rows-Fits [] h = tt
  published_rows-Fits (row ∷ rows) h = elim (Bool-cases (str_eq row.run_id run_id)) [
    | inl own ↦ rw own ((inr (ground (arith, h.0.1)), h.0.1), published_rows-Fits rows h.1)
    | inr other ↦ rw other (h.0, published_rows-Fits rows h.1)
  ]

pub find_row-append :
    (run_id : String) (rows : List PublicationRow) (row : PublicationRow)
    → find_row run_id rows ≡ none
    → str_eq row.run_id run_id ≡ true
    → find_row run_id (rows ++ row ∷ []) ≡ some row
unfolding find_row
find_row-append run_id [] row e f = ground arith
find_row-append run_id (x ∷ rows) row e f = ground (arith, find_row-append run_id rows row)

-- Once marked, the run is published, if it has a row.
pub is_done-published_rows :
    (run_id : String) (rows : List PublicationRow) (row : PublicationRow)
    → find_row run_id rows ≡ some row
    → is_done run_id (published_rows run_id rows) ≡ true
unfolding is_done find_row published_rows
is_done-published_rows run_id [] row e = cc
is_done-published_rows run_id (x ∷ rows) row e = elim (Bool-cases (str_eq x.run_id run_id)) [
  | inl own ↦ rw own (ground arith)
  | inr other ↦ rw other (ground (arith, is_done-published_rows run_id rows row))
]

-- The views that the configured publications name, each showing the run's batch.
unfoldable pub views_of_batch :
    Platform → RunContext → List PublicationRule → Dict View → Result (Dict View)
views_of_batch platform context [] views = ok views
views_of_batch platform context (publication ∷ publications) views = do
  name ← quote_identifier IdentifierCase.upper (last_part (split_on b'.' publication.view))
  relation ← render_relation platform IdentifierCase.upper publication.relation context
  batch ← quote_identifier IdentifierCase.upper publication.batch_column
  views_of_batch platform context publications
      (insert name (rows_of relation batch context.batch_id) views)

-- What a promotion needs of an account, and what it leaves at every moment: the run is validated, no
-- newer batch is published, and a run that is recorded as published has its views in place.
pub record IsReady (context : RunContext) (views : Dict View) (a : Account) : Type 0 where
  pub validated : is_validated context.batch_id (lookup context.run_id a.validation_runs) ≡ true
  pub rows : All (Fits context.run_id context.batch_id) a.publication_runs
  pub shown : (is_done context.run_id a.publication_runs ≡ false) ⊎ (a.analytics ≡ some views)
