-- ===== src/Streaming/Tests/Snapshots.antt =====
-- A run of the snapshot on the two events of a customer that is created and updated.
use millrace.Base.{none, some, List, [], ◌∷◌}
use millrace.Streaming.Models.{CdcEvent}
use millrace.Streaming.Ingestion.{KafkaRecord, event_columns}
use millrace.Streaming.Ingestion.Lake.{BronzeRow}
use millrace.Streaming.Ingestion.MicroBatch.{bronze_row}
use millrace.Streaming.Ingestion.Snapshot.{Spark}
use millrace.Streaming.Tests.{lib, created, updated}
use millrace.Streaming.Tests.Windows.{row_number}

abbrev spark : Spark
spark = record {
  row_number = row_number;
  from_json = λ schema text. [];
  to_date = λ s. some s;
  read_failure = λ path. none;
}

abbrev message_of : CdcEvent → KafkaRecord
message_of e = record {
  key = none;
  value = none;
  topic = e.kafka.topic;
  partition = e.kafka.partition;
  offset = e.kafka.offset;
  timestamp = none;
}

abbrev row_of : CdcEvent → BronzeRow
row_of e = bronze_row (message_of e, event_columns lib e "2024-01-01")

abbrev table : List BronzeRow
table = row_of updated ∷ row_of created ∷ row_of updated ∷ []
