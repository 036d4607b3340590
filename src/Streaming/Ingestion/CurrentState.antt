-- ===== src/Streaming/Ingestion/CurrentState.antt =====
-- The snapshot of src/millrace/streaming/spark_job.py against `build_current_state` of
-- src/millrace/streaming/state.py.
use millrace.Base.{ℕ, List}
use millrace.Streaming.Json.{Library}
use millrace.Streaming.Models.{Entity, CdcEvent}
use millrace.Streaming.Ingestion.Lake.{BronzeRow}
use millrace.Streaming.Ingestion.Snapshot.{Spark, window_key, comes_first}
use millrace.Streaming.Ingestion.Window.{IsWindow}
use millrace.Streaming.Ingestion.History.{IsHistoryOf, found}

module _ (lib : Library) (spark : Spark) (cutoff : ℕ) (events : List CdcEvent)
    (rows : List BronzeRow) (entity : Entity) (h : IsHistoryOf lib events rows entity)
    (window : (found : List BronzeRow)
      → IsWindow window_key comes_first found (spark.row_number window_key comes_first found)) where
  abbrev ranked : List (BronzeRow × ℕ)
  ranked = spark.row_number window_key comes_first (found lib spark cutoff events rows entity h)
