-- ===== src/Orchestration/Commands.antt =====
-- src/millrace/orchestration/commands.py: the command lines of the stages.
use millrace.Base.{String, ◌<>◌, Bool, List, [], ◌∷◌, ◌++◌, Result, ok, ◌>>=◌, str_le, join}
use millrace.Base.Int.{pos}
use millrace.Base.Decimal.{show}
use millrace.Base.Dict.{Dict}
use millrace.Base.Sort.{sort_by}
use millrace.Contracts.{Platform, RunContext, storage_key}
use millrace.Streaming.Json.{text, integer, object, field, empty, Library}
use millrace.Validation.Identifiers.{candidate_schema}
use millrace.Orchestration.{SparkConfig, DbtConfig, target_for}

pub data SparkInputMode : Type 0 where
  kafka bronze_backfill : SparkInputMode

abbrev mode_value : SparkInputMode → String
mode_value SparkInputMode.kafka = "kafka"
mode_value SparkInputMode.bronze_backfill = "bronze-backfill"

abbrev package_options : List String → List String
package_options [] = []
package_options (name ∷ names) = "--packages" ∷ join "," (name ∷ names) ∷ []

unfoldable pub conf_options : Dict String → List String
conf_options [] = []
conf_options ((key, value) ∷ conf) = "--conf" ∷ (key <> ("=" <> value)) ∷ conf_options conf

abbrev key_le : String × String → String × String → Bool
key_le a b = str_le a.0 b.0

module _ (platform : Platform) where
  -- the options after `--output-run-key`
  abbrev input_options : SparkConfig → RunContext → SparkInputMode → List String
  input_options config context SparkInputMode.kafka = "--available-now" ∷ []
  input_options config context SparkInputMode.bronze_backfill =
      "--bronze-uri"
      ∷ config.bronze_uri
      ∷ "--partition-end"
      ∷ platform.format_date context.interval_end
      ∷ []

  unfoldable pub spark_submit_command : SparkConfig → RunContext → SparkInputMode → List String
  spark_submit_command config context mode =
      config.executable
      ∷ "--master"
      ∷ config.master
      ∷ (package_options config.packages
          ++ (conf_options (sort_by key_le config.conf)
              ++ (config.application
                    ∷ "--input-mode"
                    ∷ mode_value mode
                    ∷ "--run-id"
                    ∷ context.run_id
                    ∷ "--batch-cutoff"
                    ∷ show context.batch_id
                    ∷ "--interval-start"
                    ∷ platform.isoformat context.interval_start
                    ∷ "--interval-end"
                    ∷ platform.isoformat context.interval_end
                    ∷ "--output-run-key"
                    ∷ storage_key platform context
                    ∷ []
                  ++ input_options config context mode)))

  -- `_dbt_variables`
  unfoldable pub dbt_variables : Library → RunContext → String
  dbt_variables lib context = lib.dumps (
      object (
        field "batch_id" (integer (pos context.batch_id)) (
          field "candidate_schema" (text (candidate_schema platform context)) (
            field "data_interval_end" (text (platform.isoformat context.interval_end)) (
              field "data_interval_start" (text (platform.isoformat context.interval_start))
                (field "run_id" (text context.run_id) empty))))))

  -- `_dbt_options`
  unfoldable pub dbt_options : DbtConfig → String → Result (List String)
  dbt_options config warehouse = do
    target ← target_for config warehouse
    ok (
        "--project-dir" ∷ config.project_dir ∷ "--profiles-dir" ∷ config.profiles_dir ∷ "--target"
        ∷ target ∷ [])

  -- `dbt_candidate_command` and `dbt_test_command`, for dbt's action
  unfoldable pub dbt_command :
      String → Library → DbtConfig → RunContext → String → Result (List String)
  dbt_command action lib config context warehouse = do
    options ← dbt_options config warehouse
    ok (
        config.executable
        ∷ action
        ∷ (options ++ "--select" ∷ config.selector ∷ "--vars" ∷ dbt_variables lib context ∷ []))

  unfoldable pub dbt_candidate_command :
      Library → DbtConfig → RunContext → String → Result (List String)
  unfolding dbt_command
  dbt_candidate_command lib config context warehouse =
      dbt_command "run" lib config context warehouse

  unfoldable pub dbt_test_command : Library → DbtConfig → RunContext → String → Result (List String)
  unfolding dbt_command
  dbt_test_command lib config context warehouse = dbt_command "test" lib config context warehouse
