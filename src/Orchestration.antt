-- ===== src/Orchestration.antt =====
-- src/millrace/orchestration/configuration.py: what the stages of a run are configured with.
pub mod Commands
pub mod Readiness
pub mod Runtime
pub mod Cutoff
pub mod Backfill
pub mod Tests
pub mod CutoffTests
use millrace.Base.{ℕ, String, Option, none, some, List, Result, ok, raise, value_error, or_raise}
use millrace.Base.Dict.{Dict, lookup}

pub record CutoffConfig : Type 0 where
  pub relation : String
  pub batch_column : String
  pub event_timestamp_column : String

pub record SparkConfig : Type 0 where
  pub executable : String
  pub master : String
  pub application : String
  pub packages : List String
  pub conf : Dict String
  pub timeout_seconds : ℕ
  pub bronze_uri : String

pub record DbtConfig : Type 0 where
  pub executable : String
  pub project_dir : String
  pub profiles_dir : String
  pub targets : Dict String
  pub selector : String
  pub timeout_seconds : ℕ

pub record OrchestrationConfig : Type 0 where
  pub cutoff : CutoffConfig
  pub spark : SparkConfig
  pub dbt : DbtConfig
  pub readiness_timeout_seconds : ℕ
  pub temporary_directory : String

-- `DbtConfig.target_for`
unfoldable pub target_for : DbtConfig → String → Result String
target_for config warehouse =
    or_raise (lookup warehouse config.targets)
      (value_error "no dbt target configured for warehouse")
