-- ===== src/Orchestration/Tests.antt =====
-- Runs of a backfill on a machine where every command ends well, and of a wait that times out.
use millrace.Base.{
  ℕ, String, ◌<>◌, true, false, Option, none, some, List, [], ◌∷◌, Result, ok, raise,
  database_error, ◌+◌, ◌*◌, ◌≡◌, refl, arith, if◌then◌else◌, str_eq,
}
use millrace.Base.Int.{pos}
use millrace.Contracts.{Platform}
use millrace.Streaming.Json.{Library, Loaded}
use millrace.Streaming.Models.{DateTime}
use millrace.Orchestration.{OrchestrationConfig}
use millrace.Orchestration.Readiness.{
  Surroundings, IsSteady, IsWaited, wait_for_readiness, wait_for_readiness_ends,
}
use millrace.Orchestration.Runtime.{RunDescriptor, Event, rmtree, Machine, safe_run_id}
use millrace.Orchestration.Backfill.{backfill_run, continue_run, main}
use millrace.Orchestration.Backfill.Guards.{IsGuarded}
use millrace.Orchestration.Backfill.Order.{main-IsGuarded, continue_run-rmtree}

abbrev instant_of : String → Option DateTime
instant_of s = some (record { instant = if str_eq s "start" then 1 else 2; zone = some (pos 0) })

abbrev platform : Platform
platform = record {
  sha256_hex = λ s. "5e884898";
  format_date = λ t. "2026-01-05";
  isoformat = λ t. "2026-01-05T12:00:00+00:00";
  fromisoformat = instant_of;
}

abbrev pub lib : Library
lib = record {
  lower = λ s. s;
  is_digit = λ c. false;
  digit_value = λ c. none;
  utf8 = λ bytes. none;
  utf8_replace = λ bytes. "";
  loads = λ s. Loaded.decode_error "no JSON";
  dumps = λ v. "{}";
  b64decode = λ s. none;
  is_decimal = λ s. true;
  scale_decimal = λ n scale. ok "0";
}

abbrev pub config : OrchestrationConfig
config = record {
  cutoff = record {
    relation = "oltp.orders";
    batch_column = "batch_id";
    event_timestamp_column = "at";
  };
  spark = record {
    executable = "spark-submit";
    master = "local";
    application = "job.py";
    packages = [];
    conf = [];
    timeout_seconds = 1800;
    bronze_uri = "s3a://lake/bronze";
  };
  dbt = record {
    executable = "dbt";
    project_dir = "dbt";
    profiles_dir = "dbt";
    targets = ("duckdb", "dev") ∷ [];
    selector = "marts";
    timeout_seconds = 1200;
  };
  readiness_timeout_seconds = 120;
  temporary_directory = "tmp";
}

abbrev pub machine : Machine
machine = record {
  run = λ command environment trace.
      some (record { returncode = pos 0; stdout = "report.json"; stderr = "" });
  load_silver = λ descriptor trace. none;
  push = λ batch trace. none;
  is_alnum = λ c. true;
  resolve = λ root path. root <> path;
  parent = λ path. "tmp";
  splitlines = λ s. s ∷ [];
  python = "python";
}

abbrev descriptor : RunDescriptor
descriptor = record {
  run_id = "r";
  batch_id = pos 7;
  interval_start = "start";
  interval_end = "end";
}

-- a machine that knows two directories
abbrev other_machine : Machine
other_machine = record machine {
  resolve = λ root path. if str_eq root "" then path else root <> ("/" <> path);
  parent = λ path. if str_eq path "tmp/r" then "tmp" else "tmp/snowflake_load";
}

main-IsGuarded_example :
    IsGuarded machine platform lib config descriptor "duckdb"
      (main machine platform lib config descriptor (backfill_run true "duckdb") (ok tt) []).1
main-IsGuarded_example = main-IsGuarded machine platform lib config descriptor "duckdb" true (ok tt)

continue_run-rmtree_example :
    (earlier : List Event) × ((continue_run other_machine platform lib config descriptor
        (backfill_run true "duckdb")
        []).1
      ≡ rmtree "tmp/snowflake_load/r" ∷ rmtree "tmp/r" ∷ earlier)
unfolding safe_run_id str_eq
continue_run-rmtree_example =
    continue_run-rmtree other_machine platform lib config descriptor "duckdb" true [] refl refl

-- no service answers
abbrev around : Surroundings
around = record {
  check = λ service now. (raise (database_error "connection refused"), now);
  sleep = λ duration now. now + duration;
}

around-IsSteady : IsSteady around
around-IsSteady = record {
  checked = λ service now. omega arith;
  slept = λ duration now. omega arith;
}

wait_for_readiness_ends_example :
    (r : Result (Unit {0})) × (t : ℕ) × (wait_for_readiness around ("duckdb" ∷ []) config 500
      ≡ some (r, t))
    × IsWaited around ("duckdb" ∷ []) (500 + 1000 * 120) r t
wait_for_readiness_ends_example =
    wait_for_readiness_ends around ("duckdb" ∷ []) around-IsSteady config 500
