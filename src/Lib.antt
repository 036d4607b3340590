-- ===== src/Lib.antt =====
-- Millrace copies the tables of an operational database to a warehouse: change events go from
-- Kafka to a current state of each entity, a batch of which is loaded as a candidate, reconciled
-- with its source and published. This library models the parts that decide what is kept and what
-- is published, from src/millrace.
--
-- Base: what the program uses of Python. Texts are native strings ordered by code point, a dict is
--   an association list in insertion order, a call that may raise returns a Result, sorted is a
--   stable insertion sort.
-- Contracts: contracts.py, the identity of a run and its storage key.
-- Streaming.Json, Models, Schemas: streaming/models.py and schemas.py. A JSON object is its fields
--   in order.
-- Streaming.Parser: streaming/parser.py. A step goes on, returns early with a malformed event, or
--   raises; parse_debezium_event is their sequence. Parser.Decode has the helpers below it.
-- Streaming.State: streaming/state.py, deduplicate_events and build_current_state as folds over
--   the events.
-- Streaming.Storage: streaming/storage.py.
-- Validation.Identifiers: quoting and rendering of validation/configuration.py.
-- Validation.Models, Canonical, Service: validation/models.py, canonical.py and service.py. The
--   digest is the bytes that it was given, and SHA-256 is a parameter.
-- Validation.Publication: PromotionService of validation/publication.py. A session is the database
--   as its connection sees it and, in a transaction, the database as it was at its start; an
--   engine may refuse any statement for any reason.
-- Validation.Snowflake: SnowflakePromotionService of the same file. A write of
--   rows waits for a commit. A statement that defines data first commits what waits, then takes
--   effect and commits that; it may be refused, or its connection lost, before both or between them.
-- Validation.Comparison: validation/comparison.py. Validation.Audit: the writers of
--   validation/audit.py, as the row of validation_runs that a promotion reads.
-- Base.Stateful: statements that change a state and may raise; the state stays as it was left.
-- Streaming.Config, Ingestion: streaming/config.py and the micro-batch and snapshot of
--   streaming/spark_job.py. Ingestion.Lake is the object store, in which a write that fails may leave
--   anything under its path; MicroBatch and Snapshot are the two functions below run_ingestion.
--   Spark's row_number, distinct and from_json are parameters, and so is what it keeps of a number in
--   a LongType.
-- Orchestration: orchestration/ as the trace of what it runs: commands with their environment,
--   loads, metrics and removals. Readiness counts time in milliseconds, and wait_for_readiness has
--   fuel for one round in five seconds of its timeout and two more, since a round that fails sleeps
--   five seconds or to the deadline.
-- Warehouse.Loader: load_silver of warehouse/snowflake_target.py with its five attempts at a
--   download, over an object store and an account that may refuse any statement.
-- Tests modules run the definitions on small inputs.
--
-- Python's own library (JSON, UTF-8, base64, Decimal, dates, SHA-256), Spark, the object store and
-- what a warehouse refuses are parameters. All recursion is structural, but the loop of
-- wait_for_readiness, which has fuel, and replace_all, whose rounds are bounded by the length of the
-- text: each round drops at least one character. Exceptions keep their class and the fixed part of
-- their message. Not modelled: the readers and the text of their SQL, the validation command line and
-- the argument parsers, Spark's session and the queries of run_ingestion,
-- connections, credentials and settings, the reading of configuration files, the
-- Airflow DAG, the dashboard, metrics and logging: they are I/O or declarations for a library.
pub mod Base
pub mod Streaming
pub mod Contracts
pub mod Orchestration
pub mod Validation
pub mod Warehouse
