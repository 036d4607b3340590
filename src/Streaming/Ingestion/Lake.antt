-- ===== src/Streaming/Ingestion/Lake.antt =====
-- The tables in the object store: what stands under each path, and how Spark overwrites a path.
use millrace.Base.{ℕ, String, Bool, Option, none, some, List, Result, ok, raise, Error}
use millrace.Base.Dict.{Dict, insert}
use millrace.Base.Stateful.{Action}
use millrace.Streaming.Json.{JsonValue}
use millrace.Streaming.Models.{DateTime}

-- A valid row: the columns of Kafka but key and value, and those of `_NORMALIZED_SCHEMA` but three.
pub record BronzeRow : Type 0 where
  pub topic : String
  pub partition : ℕ
  pub offset : ℕ
  pub timestamp : Option DateTime
  pub is_tombstone : Bool
  pub entity : Option String
  pub operation : Option String
  pub key_json : Option String
  pub before_json : Option String
  pub after_json : Option String
  pub row_json : Option String
  pub batch_id : Option ℕ
  pub source_lsn : Option ℕ
  pub source_timestamp_ms : Option ℕ
  pub transaction_order : Option ℕ
  pub event_date : Option String
  pub raw_payload : Option String

pub record DeadLetter : Type 0 where
  pub topic : String
  pub partition : ℕ
  pub offset : ℕ
  pub timestamp : Option DateTime
  pub raw_payload : Option String
  pub reason_code : Option String
  pub reason_detail : Option String

-- A row of the silver table. A cell of the payload is the JSON value that stands for it.
pub record SilverRow : Type 0 where
  pub payload : Dict JsonValue
  pub batch_id : Option ℕ
  pub source_lsn : Option ℕ
  pub topic : String
  pub partition : ℕ
  pub offset : ℕ
  pub operation : Option String

pub record Lake : Type 0 where
  pub bronze : Dict (List BronzeRow)
  pub dead_letters : Dict (List DeadLetter)
  pub silver : Dict (List SilverRow)

-- The object store: the exception that the write of a path ends with, if it does, and what is left
-- under the path then.
pub record Store : Type 0 where
  pub bronze_failure : String → Option (Error × List BronzeRow)
  pub dead_letter_failure : String → Option (Error × List DeadLetter)
  pub silver_failure : String → Option (Error × List SilverRow)

abbrev pub outcome : {A : Type 0} → Option (Error × List A) → Result (Unit {0})
outcome none = ok tt
outcome (some (e, rest)) = raise e

abbrev pub remains : {A : Type 0} → Option (Error × List A) → List A → List A
remains none rows = rows
remains (some (e, rest)) rows = rest

-- `frame.write.mode("overwrite").parquet(path)`
unfoldable pub write_bronze : Store → String → List BronzeRow → Action Lake (Unit {0})
write_bronze store path rows lake =
    let failure = store.bronze_failure path in
    (outcome failure, record lake { bronze = insert path (remains failure rows) lake.bronze })

unfoldable pub write_dead_letters : Store → String → List DeadLetter → Action Lake (Unit {0})
write_dead_letters store path rows lake =
    let failure = store.dead_letter_failure path in
    (
      outcome failure,
      record lake { dead_letters = insert path (remains failure rows) lake.dead_letters },
    )

unfoldable pub write_silver : Store → String → List SilverRow → Action Lake (Unit {0})
write_silver store path rows lake =
    let failure = store.silver_failure path in
    (outcome failure, record lake { silver = insert path (remains failure rows) lake.silver })
