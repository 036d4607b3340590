-- ===== src/Streaming/State.antt =====
-- src/millrace/streaming/state.py
pub mod Ordering
pub mod Latest
pub mod Replay
pub mod Current
use millrace.Base.{
  ℕ, String, ◌<>◌, Bool, true, false, ◌&&◌, ◌||◌, not, Option, none, some, List, [], ◌∷◌,
  if◌then◌else◌, ltb, ◌==◌, str_le, str_eq,
}
use millrace.Base.Dict.{Dict, lookup, insert, values}
use millrace.Base.Sort.{sort_by}
use millrace.Streaming.Json.{JsonValue, null, text, object, JsonObject, empty, field, Library}
use millrace.Streaming.Models.{
  Entity, entity_value, operation_value, is_delete, CdcEvent, event_row,
}

pub record SnapshotRecord : Type 0 where
  pub entity : Entity
  pub key : JsonObject
  pub row : JsonObject
  pub batch_id : ℕ
  pub source_lsn : ℕ

-- `CdcEvent.source_order` and the tie-breaker of `_event_order`
pub record Order : Type 0 where
  pub source_lsn : ℕ
  pub transaction_order : ℕ
  pub partition : ℕ
  pub offset : ℕ
  pub payload : String

-- Python's `<` on the tuples
unfoldable pub order_lt : Order → Order → Bool
order_lt a b =
    if ltb a.source_lsn b.source_lsn
    then true
    else if ltb b.source_lsn a.source_lsn
    then false
    else if ltb a.transaction_order b.transaction_order
    then true
    else if ltb b.transaction_order a.transaction_order
    then false
    else if ltb a.partition b.partition
    then true
    else if ltb b.partition a.partition
    then false
    else if ltb a.offset b.offset
    then true
    else if ltb b.offset a.offset
    then false
    else not (str_le b.payload a.payload)

abbrev json_or_null : Option JsonObject → JsonValue
json_or_null none = null
json_or_null (some o) = object o

-- one round of the loop of `build_current_state`: the record, or `continue`
unfoldable pub record_of : CdcEvent → Option SnapshotRecord
record_of e = if is_delete e.operation then none else elim (event_row e) [
  | none ↦ none
  | some row ↦ some (record {
    entity = e.entity;
    key = e.key;
    row = row;
    batch_id = e.batch_id;
    source_lsn = e.source_lsn;
  })
]

unfoldable pub snapshot : List CdcEvent → List SnapshotRecord
snapshot [] = []
snapshot (e ∷ events) =
    let rest = snapshot events in elim (record_of e) [ none ↦ rest | some r ↦ r ∷ rest ]

module _ (lib : Library) where
  unfoldable pub canonical_key : Entity → JsonObject → String
  canonical_key entity key = entity_value entity <> (":" <> lib.dumps (object key))

  abbrev pub storage_key : CdcEvent → String
  storage_key e = canonical_key e.entity e.key

  unfoldable pub event_order : CdcEvent → Order
  event_order e = record {
    source_lsn = e.source_lsn;
    transaction_order = e.transaction_order;
    partition = e.kafka.partition;
    offset = e.kafka.offset;
    payload = lib.dumps (
        object (
          field "operation" (text (operation_value e.operation))
            (field "before" (json_or_null e.before) (field "after" (json_or_null e.after) empty))));
  }

  -- the test of `max_batch_id`
  abbrev pub admits : Option ℕ → CdcEvent → Bool
  admits none e = true
  admits (some cutoff) e = not (ltb cutoff e.batch_id)

  -- one round of the loop of `deduplicate_events`
  unfoldable pub keep_latest : Option ℕ → Dict CdcEvent → CdcEvent → Dict CdcEvent
  keep_latest max_batch_id latest e =
      if admits max_batch_id e
      then elim (lookup (storage_key e) latest) [
        | none ↦ insert (storage_key e) e latest
        | some previous ↦
            if order_lt (event_order previous) (event_order e)
            then insert (storage_key e) e latest
            else latest
      ]
      else latest

  unfoldable pub latest_events : Option ℕ → Dict CdcEvent → List CdcEvent → Dict CdcEvent
  latest_events max_batch_id latest [] = latest
  latest_events max_batch_id latest (e ∷ events) =
      latest_events max_batch_id (keep_latest max_batch_id latest e) events

  abbrev pub key_le : CdcEvent → CdcEvent → Bool
  key_le a b = str_le (storage_key a) (storage_key b)

  unfoldable pub deduplicate_events : Option ℕ → List CdcEvent → List CdcEvent
  deduplicate_events max_batch_id events =
      sort_by key_le (values (latest_events max_batch_id [] events))

  unfoldable pub build_current_state : Option ℕ → List CdcEvent → List SnapshotRecord
  unfolding snapshot deduplicate_events
  build_current_state max_batch_id events = snapshot (deduplicate_events max_batch_id events)
