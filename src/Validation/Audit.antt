-- ===== src/Validation/Audit.antt =====
-- src/millrace/validation/audit.py: the row of `validation_runs` that promotion reads. Of its columns
-- the batch and the status are modelled.
use millrace.Base.{
  ℕ, String, true, false, ◌&&◌, Option, none, some, Result, ok, raise, Error, ◌≡◌, refl, ap, ◌∙◌,
  arith, inl, inr, ◌==◌, str_eq, Option-cases,
}
use millrace.Base.Dict.{Dict, lookup, insert, lookup-insert_self}
use millrace.Base.Stateful.{Action, ◌>>=◌, ◌>>◌, lift, and_then-eq-ok}
use millrace.Validation.Identifiers.{IdentifierCase, quote_identifier}
use millrace.Validation.Models.{ValidationStatus, ValidationReport, is_passed}
use millrace.Validation.Publication.{Database, is_validated}
use millrace.Validation.Snowflake.{
  Account, Connection, Refusal, before_commit, after_commit, settled,
}

-- `report.status.value`
unfoldable pub status_value : ValidationStatus → String
status_value ValidationStatus.passed = "passed"
status_value ValidationStatus.failed = "failed"

pub data AuditStatement : Type 0 where
  create_schema create_table write_row commit : AuditStatement

-- INSERT OR REPLACE, and MERGE ... ON target.run_id = source.run_id
abbrev pub with_row : ValidationReport → Dict (ℕ × String) → Dict (ℕ × String)
with_row report rows = insert report.run_id (report.batch_id, status_value report.status) rows

abbrev pub unless : {S : Type 0} → Option Error → S → S → Result (Unit {0}) × S
unless none next before = (ok tt, next)
unless (some e) next before = (raise e, before)

-- DuckDB commits each statement; it may refuse any of them.
module _ (refuses : AuditStatement → Database → Option Error) where
  unfoldable pub run_audit : AuditStatement → ValidationReport → Action Database (Unit {0})
  run_audit write_row report db =
      unless (refuses write_row db)
        (record db { validation_runs = with_row report db.validation_runs }) db
  run_audit statement report db = unless (refuses statement db) db db

  -- `DuckDbAuditWriter(connection, control_schema).record_validation(report, path)`
  unfoldable pub record_validation : String → ValidationReport → Action Database (Unit {0})
  record_validation control_schema report = do
    _ ← lift (quote_identifier IdentifierCase.preserve control_schema)
    run_audit create_schema report
    run_audit create_table report
    run_audit write_row report

-- what a statement leaves where it is accepted, where it commits and is refused then, and where it is
-- refused at once
abbrev pub merged :
    Option Refusal → Connection → Connection → Connection → Result (Unit {0}) × Connection
merged none next committed before = (ok tt, next)
merged (some (before_commit e)) next committed before = (raise e, before)
merged (some (after_commit e)) next committed before = (raise e, committed)

-- On Snowflake the row waits for the commit.
module _ (refuses : AuditStatement → Account → Option Refusal) where
  unfoldable pub run_merge : AuditStatement → ValidationReport → Action Connection (Unit {0})
  run_merge write_row report c =
      let a = c.current in
      merged (refuses write_row a)
        (record c { current = record a { validation_runs = with_row report a.validation_runs } }) c
        c
  run_merge statement report c =
      merged (refuses statement c.current) (settled c.current) (settled c.current) c

  -- `SnowflakeAuditWriter(gateway, control_schema).record_validation(report, path)`
  unfoldable pub merge_validation : String → ValidationReport → Action Connection (Unit {0})
  merge_validation control_schema report = do
    _ ← lift (quote_identifier IdentifierCase.upper control_schema)
    run_merge create_schema report
    run_merge create_table report
    run_merge write_row report
    run_merge commit report

is_validated-row :
    (batch : ℕ) (report : ValidationReport)
    → is_validated batch (some (report.batch_id, status_value report.status))
      ≡ (report.batch_id == batch) && is_passed report
unfolding status_value is_passed str_eq
is_validated-row batch report =
    elim report.status
      as (λ s.
        is_validated batch (some (report.batch_id, status_value s))
        ≡ (report.batch_id == batch)
          && elim s [ ValidationStatus.passed ↦ true | ValidationStatus.failed ↦ false ]) [
            | ValidationStatus.passed ↦ refl
            | ValidationStatus.failed ↦ refl
          ]

-- what `validation_runs` says of the run after its row is written, whatever it said before
is_validated-with_row :
    (batch : ℕ) (report : ValidationReport) (rows : Dict (ℕ × String))
    → is_validated batch (lookup report.run_id (with_row report rows))
      ≡ (report.batch_id == batch) && is_passed report
is_validated-with_row batch report rows =
    ap (is_validated batch)
      (lookup-insert_self report.run_id (report.batch_id, status_value report.status) rows)
    ∙ is_validated-row batch report

module _ (refuses : AuditStatement → Database → Option Error) (control_schema : String)
    (report : ValidationReport) (batch : ℕ) where
  -- Where a validation is recorded in DuckDB, the run passes the gate of a promotion of the batch
  -- exactly where the report is a passed one of the batch: a failed report revokes an earlier row.
  pub is_validated-record_validation :
      (before after : Database)
      → record_validation refuses control_schema report before ≡ (ok tt, after)
      → is_validated batch (lookup report.run_id after.validation_runs)
        ≡ (report.batch_id == batch) && is_passed report
  unfolding record_validation run_audit
  is_validated-record_validation before after h =
      let (name, a, quoted, more) =
        and_then-eq-ok (quote_identifier IdentifierCase.preserve control_schema, before) _ h in
      let (u, b, schema, rest) = and_then-eq-ok (run_audit refuses create_schema report a) _ more in
      let (v, c, table, last) = and_then-eq-ok (run_audit refuses create_table report b) _ rest in
      elim (Option-cases (refuses write_row c)) [
        | inr (e, refused) ↦ absurd (ground arith)
        | inl accepted ↦
            let end : after ≡ record c { validation_runs = with_row report c.validation_runs } =
              ground arith in
            ap (λ z. is_validated batch (lookup report.run_id z.validation_runs)) end
            ∙ is_validated-with_row batch report c.validation_runs
      ]

module _ (refuses : AuditStatement → Account → Option Refusal) (control_schema : String)
    (report : ValidationReport) (batch : ℕ) where
  -- Where a validation is recorded in Snowflake, the same holds of what is committed.
  pub is_validated-merge_validation :
      (before after : Connection)
      → merge_validation refuses control_schema report before ≡ (ok tt, after)
      → is_validated batch (lookup report.run_id after.durable.validation_runs)
        ≡ (report.batch_id == batch) && is_passed report
  unfolding merge_validation run_merge
  is_validated-merge_validation before after h =
      let (name, a, quoted, more) =
        and_then-eq-ok (quote_identifier IdentifierCase.upper control_schema, before) _ h in
      let (u, b, schema, rest) = and_then-eq-ok (run_merge refuses create_schema report a) _ more in
      let (v, c, table, next) = and_then-eq-ok (run_merge refuses create_table report b) _ rest in
      let (w, d, merged, last) = and_then-eq-ok (run_merge refuses write_row report c) _ next in
      elim (Option-cases (refuses write_row c.current)) [
        | inr (e, refused) ↦ absurd (ground arith)
        | inl accepted ↦ elim (Option-cases (refuses commit d.current)) [
          | inr (e, refused) ↦ absurd (ground arith)
          | inl committed ↦
              let rows : d.current.validation_runs ≡ with_row report c.current.validation_runs =
                ground arith in
              let end : after.durable.validation_runs ≡ d.current.validation_runs = ground arith in
              ap (λ z. is_validated batch (lookup report.run_id z)) (end ∙ rows)
              ∙ is_validated-with_row batch report c.current.validation_runs
        ]
      ]
