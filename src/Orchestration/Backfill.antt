-- ===== src/Orchestration/Backfill.antt =====
-- `main` of src/millrace/orchestration/__main__.py.
pub mod Guards
pub mod Order
use millrace.Base.{
  ℕ, String, Bool, true, false, Option, none, some, List, [], ◌∷◌, Result, ok, raise, str_eq,
}
use millrace.Base.Stateful.{Action, and_then, ◌>>=◌, ◌>>◌, lift, return, finally, leave_with}
use millrace.Contracts.{Platform}
use millrace.Streaming.Json.{Library}
use millrace.Orchestration.{OrchestrationConfig}
use millrace.Orchestration.Runtime.{
  RunDescriptor, Event, Machine, Stage, run_spark, load_snowflake_silver, build_candidate,
  validate_candidate, test_candidate, promote_candidate, emit_metrics, cleanup_temporary_files,
}

pub data Command : Type 0 where
  backfill_spark : Command
  -- with `--promote` and `--warehouse`
  backfill_run : Bool → String → Command

module _ (machine : Machine) (platform : Platform) (lib : Library) (config : OrchestrationConfig)
    (descriptor : RunDescriptor) where
  abbrev pub load_if : Bool → Stage (Unit {0})
  load_if true = load_snowflake_silver machine platform lib config descriptor
  load_if false = return tt

  abbrev pub promote_if : Bool → String → String → Stage (Unit {0})
  promote_if true report_path warehouse = do
    promote_candidate machine platform lib config descriptor report_path warehouse
    emit_metrics machine platform lib config descriptor
  promote_if false report_path warehouse = return tt

  -- the `try` block
  unfoldable pub publish_run : Bool → String → Stage (Unit {0})
  publish_run promote warehouse = do
    load_if (str_eq warehouse "snowflake")
    build_candidate machine platform lib config descriptor warehouse
    report_path ← validate_candidate machine platform lib config descriptor warehouse
    test_candidate machine platform lib config descriptor warehouse
    promote_if promote report_path warehouse

  abbrev pub continue_run : Command → Stage (Unit {0})
  continue_run backfill_spark = return tt
  continue_run (backfill_run promote warehouse) =
      finally (publish_run promote warehouse) (cleanup_temporary_files machine config descriptor)

  -- `main`, for the descriptor of its arguments and the end of `wait_for_readiness`
  unfoldable pub main : Command → Result (Unit {0}) → Stage (Unit {0})
  main command ready = do
    lift ready
    run_spark machine platform lib config descriptor true
    continue_run command
