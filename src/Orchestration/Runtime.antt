-- ===== src/Orchestration/Runtime.antt =====
-- src/millrace/orchestration/runtime.py: the stages of a run. A stage runs a command, and the state is
-- what has been run, newest first.
use millrace.Base.{
  ℕ, zero, String, ◌<>◌, Char, code, Bool, true, false, ◌||◌, Option, none, some, List, [], ◌∷◌,
  ◌++◌, Result, ok, raise, Error, value_error, runtime_error, timeout_error, if◌then◌else◌, ◌==◌,
  str_eq, is_empty, strip, last_part,
}
use millrace.Base.Int.{ℤ, pos}
use millrace.Base.Decimal.{show}
use millrace.Base.Dict.{Dict}
use millrace.Base.Stateful.{Action, ◌>>=◌, ◌>>◌, lift, return}
use millrace.Contracts.{Platform, RunContext, from_iso, storage_key}
use millrace.Streaming.Json.{Library}
use millrace.Validation.Identifiers.{candidate_schema, after_slash}
use millrace.Orchestration.{OrchestrationConfig}
use millrace.Orchestration.Commands.{
  SparkInputMode, spark_submit_command, dbt_candidate_command, dbt_test_command,
}

pub record RunDescriptor : Type 0 where
  pub run_id : String
  pub batch_id : ℤ
  pub interval_start : String
  pub interval_end : String

pub data Event : Type 0 where
  -- a command, its environment beside the inherited one, and whether it exited with status 0
  ran : List String → Dict String → Bool → Event
  loaded : RunDescriptor → Event
  emitted : ℕ → Event
  -- a call of `shutil.rmtree` with its errors ignored, which may leave files behind
  rmtree : String → Event

pub record Completed : Type 0 where
  pub returncode : ℤ
  pub stdout : String
  pub stderr : String

-- What the stages use beside their own code. `subprocess.run` answers, or `none` where the command
-- reaches its timeout; the loader and the metrics may raise; paths are resolved by the system.
pub record Machine : Type 0 where
  pub run : List String → Dict String → List Event → Option Completed
  pub load_silver : RunDescriptor → List Event → Option Error
  pub push : ℕ → List Event → Option Error
  pub is_alnum : Char → Bool
  pub resolve : String → String → String
  pub parent : String → String
  pub splitlines : String → List String
  pub python : String

abbrev pub Stage : Type 0 → Type 0
Stage A = Action (List Event) A

abbrev pub is_zero : ℤ → Bool
is_zero (pos zero) = true
is_zero _ = false

-- what `_execute` makes of the end of a command
abbrev pub finished :
    List String → Dict String → Option Completed → List Event → Result String × List Event
finished command environment none trace =
    (raise (timeout_error "timed out"), ran command environment false ∷ trace)
finished command environment (some done) trace =
    if is_zero done.returncode
    then (ok done.stdout, ran command environment true ∷ trace)
    else (raise (runtime_error "command exited with status"), ran command environment false ∷ trace)

abbrev pub or_fails : Option Error → Event → Stage (Unit {0})
or_fails none event trace = (ok tt, event ∷ trace)
or_fails (some e) event trace = (raise e, trace)

-- whether the run's directory, and that of the loader, stand in their root
abbrev pub remove_run : Bool → Bool → String → String → Stage (Unit {0})
remove_run false inside destination load_destination trace =
    (raise (value_error "temporary run path escapes its configured root"), trace)
remove_run true true destination load_destination trace =
    (ok tt, rmtree load_destination ∷ rmtree destination ∷ trace)
remove_run true false destination load_destination trace = (ok tt, rmtree destination ∷ trace)

-- `raw_schema` of src/millrace/warehouse/snowflake_target.py
unfoldable pub raw_schema : Platform → RunContext → String
raw_schema platform context = "raw_" <> after_slash (storage_key platform context)

module _ (machine : Machine) where
  -- `_execute`
  unfoldable pub execute : List String → Dict String → Stage String
  execute command environment trace =
      finished command environment (machine.run command environment trace) trace

  -- `character if character.isalnum() or character in {"-", "_"} else "_"`
  unfoldable pub safe_run_id : String → String
  safe_run_id String.[] = ""
  safe_run_id (String.◌∷◌ c s) =
      let rest = safe_run_id s in
      if machine.is_alnum c || (code c == b'-') then String.◌∷◌ c rest else "_" <> rest

  -- the configured directory, and that of the run in it
  abbrev pub root_directory : OrchestrationConfig → String
  root_directory config = machine.resolve "" config.temporary_directory

  abbrev pub run_directory : String → RunDescriptor → String
  run_directory root descriptor = machine.resolve root (safe_run_id descriptor.run_id)

  -- `cleanup_temporary_files`
  unfoldable pub cleanup_temporary_files : OrchestrationConfig → RunDescriptor → Stage (Unit {0})
  cleanup_temporary_files config descriptor trace =
      let root = root_directory config in
      let load_root = machine.resolve root "snowflake_load" in
      let destination = run_directory root descriptor in
      let load_destination = run_directory load_root descriptor in
      remove_run (str_eq (machine.parent destination) root)
        (str_eq (machine.parent load_destination) load_root) destination load_destination trace

  module _ (platform : Platform) (lib : Library) (config : OrchestrationConfig) where
    -- `context_from_descriptor`
    unfoldable pub context_from_descriptor : RunDescriptor → Result RunContext
    context_from_descriptor descriptor =
        from_iso platform descriptor.run_id descriptor.batch_id descriptor.interval_start
          descriptor.interval_end

    -- `_validation_command`
    unfoldable pub validation_command : String → RunContext → String → List String
    validation_command action context warehouse =
        machine.python
        ∷ "-m"
        ∷ "millrace.validation"
        ∷ action
        ∷ "--warehouse"
        ∷ warehouse
        ∷ "--run-id"
        ∷ context.run_id
        ∷ "--batch-id"
        ∷ show context.batch_id
        ∷ "--interval-start"
        ∷ platform.isoformat context.interval_start
        ∷ "--interval-end"
        ∷ platform.isoformat context.interval_end
        ∷ []

    -- `_dbt_schema_environment`
    unfoldable pub dbt_schema_environment : RunContext → String → Dict String
    dbt_schema_environment context warehouse =
        ("MILLRACE_DBT_SCHEMA", candidate_schema platform context)
        ∷ (if str_eq warehouse "snowflake"
            then ("MILLRACE_RAW_SCHEMA", raw_schema platform context) ∷ []
            else [])

    unfoldable pub run_spark : RunDescriptor → Bool → Stage (Unit {0})
    run_spark descriptor backfill = do
      context ← lift (context_from_descriptor descriptor)
      let mode = if backfill then SparkInputMode.bronze_backfill else SparkInputMode.kafka
      execute (spark_submit_command platform config.spark context mode) []
      return tt

    unfoldable pub load_snowflake_silver : RunDescriptor → Stage (Unit {0})
    load_snowflake_silver descriptor = do
      _ ← lift (context_from_descriptor descriptor)
      λ trace. or_fails (machine.load_silver descriptor trace) (loaded descriptor) trace

    unfoldable pub build_candidate : RunDescriptor → String → Stage (Unit {0})
    build_candidate descriptor warehouse = do
      context ← lift (context_from_descriptor descriptor)
      command ← lift (dbt_candidate_command platform lib config.dbt context warehouse)
      execute command (dbt_schema_environment context warehouse)
      return tt

    unfoldable pub test_candidate : RunDescriptor → String → Stage (Unit {0})
    test_candidate descriptor warehouse = do
      context ← lift (context_from_descriptor descriptor)
      command ← lift (dbt_test_command platform lib config.dbt context warehouse)
      execute command (dbt_schema_environment context warehouse)
      return tt

    -- the last line of the output, and no empty one
    abbrev report_path_of : String → Result String
    report_path_of output =
        let path = last_part (machine.splitlines (strip output)) in
        if is_empty (strip output) || is_empty path
        then raise (runtime_error "validation did not return a report path")
        else ok path

    unfoldable pub validate_candidate : RunDescriptor → String → Stage String
    validate_candidate descriptor warehouse = do
      context ← lift (context_from_descriptor descriptor)
      output ← execute (validation_command "validate" context warehouse) []
      lift (report_path_of output)

    unfoldable pub promote_candidate : RunDescriptor → String → String → Stage (Unit {0})
    promote_candidate descriptor report_path warehouse = do
      context ← lift (context_from_descriptor descriptor)
      execute (validation_command "promote" context warehouse ++ "--report" ∷ report_path ∷ []) []
      return tt

    -- the gauge of the published batch, pushed where a gateway is configured
    unfoldable pub emit_metrics : RunDescriptor → Stage (Unit {0})
    emit_metrics descriptor = do
      context ← lift (context_from_descriptor descriptor)
      λ trace. or_fails (machine.push context.batch_id trace) (emitted context.batch_id) trace
