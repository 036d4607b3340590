-- ===== src/Validation/Service/Verdict.antt =====
-- When a report passes, and what that says of the rows of every entity.
use millrace.Base.{
  ℕ, String, Bool, true, false, ◌&&◌, ◌||◌, not, List, [], ◌∷◌, ◌++◌, Result, ok, raise, ◌≡◌, refl,
  sym, ap, ◌∙◌, ◌⊎◌, ◌>>=◌, bind-eq-ok, ok-path, length, map_result, all, All, arith, inl, inr,
}
use millrace.Base.Dict.{Dict}
use millrace.Contracts.{RunContext}
use millrace.Validation.Models.{
  ColumnRule, PartitionRule, EntityRule, ReconciliationConfig, CheckResult, ValidationReport,
  is_passed,
}
use millrace.Validation.Canonical.{Conversions, Row}
use millrace.Validation.Canonical.Checksum.{column_checksum}
use millrace.Validation.Canonical.Groups.{columns_of, grouped_counts, aggregate_values}
use millrace.Validation.Service.{
  compared, evidence_eq, is_empty_list, columns_by_name, configures_deletes, presence_check,
  partition_check, checksum_check, aggregate_check, delete_check, delete_checks, compare_entity,
}
use millrace.Validation.Service.Checks.{
  all-append, all-map_result, IsDeletedAbsent, delete_check-IsDeletedAbsent, IsEqualOn,
  checksum_check-IsEqualOn, aggregate_check-IsEqualOn, partition_check-IsEqualOn,
}
use millrace.Validation.Service.Gate.{
  Readers, Sinks, passes, fetch_deleted_keys, reconcile, or_failed, check_entities, all_passed,
  report_of, validate, validate_or_raise,
}

All-weaken :
    {A : Type 0} (P Q : A → Type 0) (xs : List A) → ((a : A) → P a → Q a) → All P xs → All Q xs
All-weaken P Q [] f h = tt
All-weaken P Q (x ∷ xs) f h = (f x h.0, All-weaken P Q xs f h.1)

module _ (py : Conversions) where
  module _ (entity : EntityRule) (source candidate deleted_rows : List Row) where
    abbrev columns : Dict ColumnRule
    columns = columns_by_name entity.columns []

    -- Both sides have rows, unless the entity allows none, and as many; every partition count,
    -- column checksum and aggregate is the same on both; and no deleted key is left.
    abbrev pub IsReconciled : Type 0
    IsReconciled =
        (key_columns : List ColumnRule) × (columns_of columns entity.key_columns ≡ ok key_columns)
        × ((entity.allow_empty ≡ true)
            ⊎ ((is_empty_list source ≡ false) × (is_empty_list candidate ≡ false)))
        × (length source ≡ length candidate)
        × All
            (λ p.
              IsEqualOn py entity source candidate
                (λ rows. columns_of columns (PartitionRule.columns p) >>= grouped_counts py rows))
            entity.partitions
        × ((configures_deletes entity ≡ false)
            ⊎ IsDeletedAbsent py entity source candidate deleted_rows key_columns)
        × All
            (λ c.
              IsEqualOn py entity source candidate (λ rows. column_checksum py rows c key_columns))
            entity.columns
        × All
            (λ a. IsEqualOn py entity source candidate (λ rows. aggregate_values py rows a columns))
            entity.aggregates

    delete_checks-IsDeletedAbsent :
        (test : Bool) (key_columns : List ColumnRule) (checks : List CheckResult)
        → delete_checks py entity source candidate test deleted_rows key_columns ≡ ok checks
        → all passes checks ≡ true
        → (test ≡ false) ⊎ IsDeletedAbsent py entity source candidate deleted_rows key_columns
    unfolding delete_checks
    delete_checks-IsDeletedAbsent false key_columns checks h passed = inl refl
    delete_checks-IsDeletedAbsent true key_columns checks h passed =
        let (check, e, k) =
          bind-eq-ok (delete_check py entity candidate deleted_rows key_columns) _ h in
        let both = ap (all passes) (ok-path k) ∙ passed in
        inr (
          delete_check-IsDeletedAbsent py entity source candidate deleted_rows key_columns check e
            (ground arith))

    presence_check-rows :
        (allowed : Bool)
        → (allowed || (not (is_empty_list source) && not (is_empty_list candidate))) ≡ true
        → (allowed ≡ true) ⊎ ((is_empty_list source ≡ false) × (is_empty_list candidate ≡ false))
    presence_check-rows true h = inl refl
    presence_check-rows false h = inr (ground arith, ground arith)

    compare_entity-IsReconciled :
        (checks : List CheckResult)
        → compare_entity py entity source candidate deleted_rows ≡ ok checks
        → all passes checks ≡ true
        → IsReconciled
    unfolding compare_entity presence_check compared evidence_eq
    compare_entity-IsReconciled checks h passed =
        let (key_columns, e, h₁) = bind-eq-ok (columns_of columns entity.key_columns) _ h in
        let (partitions, e₁, h₂) =
          bind-eq-ok
            (map_result (partition_check py entity source candidate columns) entity.partitions) _
            h₁ in
        let (deletes, e₂, h₃) =
          bind-eq-ok
            (delete_checks py entity source candidate (configures_deletes entity) deleted_rows
              key_columns)
            _ h₂ in
        let (checksums, e₃, h₄) =
          bind-eq-ok
            (map_result (checksum_check py entity source candidate key_columns) entity.columns) _
            h₃ in
        let (aggregates, e₄, h₅) =
          bind-eq-ok
            (map_result (aggregate_check py entity source candidate columns) entity.aggregates) _
            h₄ in
        let every = ap (all passes) (ok-path h₅) ∙ passed in
        let (p, q) =
          all-append passes partitions (deletes ++ (checksums ++ aggregates)) (ground arith) in
        let (d, q') = all-append passes deletes (checksums ++ aggregates) q in
        let (c, a) = all-append passes checksums aggregates q' in
        let has_rows = presence_check-rows entity.allow_empty (ground arith) in
        (
          key_columns,
          e,
          has_rows,
          ground arith,
          All-weaken _ _ entity.partitions
              (λ x (check, f, t).
                partition_check-IsEqualOn py entity source candidate columns x check f t)
              (all-map_result _ passes entity.partitions partitions e₁ p),
          delete_checks-IsDeletedAbsent _ key_columns deletes e₂ d,
          All-weaken _ _ entity.columns
              (λ x (check, f, t).
                checksum_check-IsEqualOn py entity source candidate key_columns x check f t)
              (all-map_result _ passes entity.columns checksums e₃ c),
          All-weaken _ _ entity.aggregates
              (λ x (check, f, t).
                aggregate_check-IsEqualOn py entity source candidate columns x check f t)
              (all-map_result _ passes entity.aggregates aggregates e₄ a),
        )

  module _ (readers : Readers) (context : RunContext) where
    -- The rows of both sides and the deleted keys were read, and they agree.
    abbrev pub IsVerified : EntityRule → Type 0
    IsVerified entity =
        (source : List Row) × (candidate : List Row) × (deleted : List Row) × (readers.source entity
            context
          ≡ ok source)
        × (readers.candidate entity context ≡ ok candidate)
        × (fetch_deleted_keys py readers context entity ≡ ok deleted)
        × IsReconciled entity source candidate deleted

    reconcile-IsVerified :
        (entity : EntityRule) (checks : List CheckResult)
        → reconcile py readers context entity ≡ ok checks
        → all passes checks ≡ true
        → IsVerified entity
    unfolding reconcile
    reconcile-IsVerified entity checks h passed =
        let (source, e, h₁) = bind-eq-ok (readers.source entity context) _ h in
        let (candidate, e₁, h₂) = bind-eq-ok (readers.candidate entity context) _ h₁ in
        let (deleted, e₂, h₃) = bind-eq-ok (fetch_deleted_keys py readers context entity) _ h₂ in
        (
          source,
          candidate,
          deleted,
          e,
          e₁,
          e₂,
          compare_entity-IsReconciled entity source candidate deleted checks h₃ passed,
        )

    or_failed-IsVerified :
        (entity : EntityRule) (r : Result (List CheckResult))
        → reconcile py readers context entity ≡ r
        → all passes (or_failed py readers context entity r) ≡ true
        → IsVerified entity
    or_failed-IsVerified entity (ok checks) e passed = reconcile-IsVerified entity checks e passed
    or_failed-IsVerified entity (raise error) e passed = cc

    check_entities-IsVerified :
        (entities : List EntityRule)
        → all passes (check_entities py readers context entities) ≡ true
        → All IsVerified entities
    unfolding check_entities
    check_entities-IsVerified [] h = tt
    check_entities-IsVerified (entity ∷ entities) h =
        let (first, rest) =
          all-append passes
            (or_failed py readers context entity (reconcile py readers context entity))
            (check_entities py readers context entities) h in
        (or_failed-IsVerified entity _ refl first, check_entities-IsVerified entities rest)

    validate_or_raise-report :
        (config : ReconciliationConfig) (sinks : Sinks) (report : ValidationReport) (path : String)
        → validate_or_raise py readers context config sinks ≡ ok (report, path)
        → (report_of py readers context config sinks.now ≡ report) × (is_passed report ≡ true)
    unfolding validate_or_raise validate
    validate_or_raise-report config sinks report path h = (ground arith, ground arith)

    report_of-IsVerified :
        (config : ReconciliationConfig) (now : ℕ)
        → is_passed (report_of py readers context config now) ≡ true
        → All IsVerified config.entities
    unfolding report_of is_passed all_passed
    report_of-IsVerified config now h = check_entities-IsVerified config.entities (ground arith)

    -- When `validate_or_raise` returns, its report passed and is about the run, and of every
    -- configured entity the source rows, the candidate rows and the deleted keys were all read
    -- without an exception and agree: rows on both sides unless none are allowed, equal row counts,
    -- partition counts, column checksums and aggregates, and no deleted key among the candidate's.
    pub validate_or_raise-IsVerified :
        (config : ReconciliationConfig) (sinks : Sinks) (report : ValidationReport) (path : String)
        → validate_or_raise py readers context config sinks ≡ ok (report, path)
        → (is_passed report ≡ true)
          × (report.run_id ≡ context.run_id)
          × (report.batch_id ≡ context.batch_id)
          × All IsVerified config.entities
    unfolding report_of
    validate_or_raise-IsVerified config sinks report path h =
        let (made, passed) = validate_or_raise-report config sinks report path h in
        (
          passed,
          ap (λ r. ValidationReport.run_id r) (sym made),
          ap (λ r. ValidationReport.batch_id r) (sym made),
          report_of-IsVerified config sinks.now (ap is_passed made ∙ passed),
        )
