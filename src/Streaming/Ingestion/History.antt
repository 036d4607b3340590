-- ===== src/Streaming/Ingestion/History.antt =====
-- The rows that src/millrace/streaming/spark_job.py writes of the events of an entity: their keys
-- and orders are those of src/millrace/streaming/state.py.
use text.Mathlib.TextLemmas.{append_cancel_left}
use millrace.Base.{
  ◌<◌, ℕ, suc, String, ◌<>◌, true, false, not, none, some, List, keep, ◌≡◌, refl, sym, ap, ◌∙◌,
  arith, ◌⊎◌, inl, inr, str_eq, In, In-keep, Bool-cases,
}
use millrace.Streaming.Json.{object, Library, JsonObject}
use millrace.Streaming.Models.{
  Entity, entity_value, Operation, operation_value, is_delete, CdcEvent, event_row,
}
use millrace.Streaming.State.{order_lt, event_order, canonical_key, storage_key, admits}
use millrace.Streaming.State.Ordering.{order_lt_irrefl}
use millrace.Streaming.State.Replay.{HasDistinctOrders}
use millrace.Streaming.Ingestion.{KafkaRecord, event_columns}
use millrace.Streaming.Ingestion.Lake.{BronzeRow}
use millrace.Streaming.Ingestion.MicroBatch.{bronze_row}
use millrace.Streaming.Ingestion.Snapshot.{
  Spark, window_key, window_order, comes_first, is_kept, is_history,
}
use millrace.Streaming.Ingestion.Window.{
  place, order_lt-place, order_lt-place_connex, place-order_lt,
}

operation_value-d : (o : Operation) → not (str_eq (operation_value o) "d") ≡ not (is_delete o)
unfolding operation_value str_eq
operation_value-d Operation.create = refl
operation_value-d Operation.update = refl
operation_value-d Operation.delete = refl
operation_value-d Operation.read = refl
operation_value-d Operation.tombstone = refl

module _ (lib : Library) where
  -- The event's numbers are those of a LongType.
  pub record FitsLong (e : CdcEvent) : Type 0 where
    pub batch_id : e.batch_id < 0x8000000000000000
    pub source_lsn : e.source_lsn < 0x8000000000000000
    pub transaction_order : e.transaction_order < 0x8000000000000000
    pub source_timestamp_ms : (ms : ℕ) → e.source_timestamp_ms ≡ some ms → ms < 0x8000000000000000

  -- `row` is what the job writes of the event, if its numbers fit: the columns of `_normalized_event`, with a date, and
  -- those of the record of Kafka that it was parsed from.
  pub record IsRowOf (e : CdcEvent) (row : BronzeRow) : Type 0 where
    pub message : KafkaRecord
    pub date : String
    pub topic : message.topic ≡ e.kafka.topic
    pub partition : message.partition ≡ e.kafka.partition
    pub offset : message.offset ≡ e.kafka.offset
    pub fits : FitsLong e
    pub columns : row ≡ bronze_row (message, event_columns lib e date)

  module _ (e : CdcEvent) (row : BronzeRow) (h : IsRowOf e row) where
    pub window_order-IsRowOf : window_order row ≡ place (event_order lib e)
    unfolding window_order event_order bronze_row event_columns
    window_order-IsRowOf = ap window_order h.columns ∙ (λ i. record {
      source_lsn = suc e.source_lsn;
      transaction_order = suc e.transaction_order;
      partition = h.partition i;
      offset = h.offset i;
      payload = "";
    })

    pub window_key-IsRowOf : window_key row ≡ some (lib.dumps (object e.key))
    unfolding bronze_row event_columns
    window_key-IsRowOf = ap window_key h.columns

    pub is_kept-IsRowOf : is_kept row ≡ not (is_delete e.operation)
    unfolding bronze_row event_columns
    is_kept-IsRowOf = ap is_kept h.columns ∙ operation_value-d e.operation

    pub is_history-IsRowOf :
        (spark : Spark) (cutoff : ℕ) → is_history spark cutoff none row ≡ admits lib (some cutoff) e
    unfolding bronze_row event_columns is_history
    is_history-IsRowOf spark cutoff = ap (is_history spark cutoff none) h.columns ∙ ground arith

module _ (lib : Library) (events : List CdcEvent) (rows : List BronzeRow) where
  -- The rows are those of the events of one entity, each event having one at least, and rows beside
  -- them that are tombstones.
  pub record IsHistoryOf (entity : Entity) : Type 0 where
    pub of_row :
        (r : BronzeRow)
        → In r rows
        → (r.is_tombstone ≡ true) ⊎ ((e : CdcEvent) × In e events × IsRowOf lib e r)
    pub of_event : (e : CdcEvent) → In e events → (r : BronzeRow) × In r rows × IsRowOf lib e r
    pub of_entity : (e : CdcEvent) → In e events → e.entity ≡ entity
    -- what `parse_debezium_event` sees to
    pub has_row : (e : CdcEvent) → In e events → (row : JsonObject) × (event_row e ≡ some row)
    -- Kafka gives an offset of a partition to one message only.
    pub distinct :
        (a b : CdcEvent)
        → In a events
        → In b events
        → a.kafka.partition ≡ b.kafka.partition
        → a.kafka.offset ≡ b.kafka.offset
        → a ≡ b

module _ (lib : Library) (spark : Spark) (cutoff : ℕ) (events : List CdcEvent)
    (rows : List BronzeRow) (entity : Entity) (h : IsHistoryOf lib events rows entity) where
  -- the rows that the job reads of the table and keeps
  abbrev pub found : List BronzeRow
  found = keep (is_history spark cutoff none) rows

  tombstone_out : (r : BronzeRow) → r.is_tombstone ≡ true → is_history spark cutoff none r ≡ false
  unfolding is_history
  tombstone_out r t = ground arith

  -- a row of the history is that of an event within the cutoff
  pub event_of :
      (r : BronzeRow)
      → In r found
      → (e : CdcEvent) × In e events × IsRowOf lib e r × (admits lib (some cutoff) e ≡ true)
  event_of r m =
      let (i, passes) = (In-keep (is_history spark cutoff none) r rows).0 m in
      elim (h.of_row r i) [
        | inl t ↦ cc (tombstone_out r t)
        | inr (e, j, of) ↦ (e, j, of, sym (is_history-IsRowOf lib e r of spark cutoff) ∙ passes)
      ]

  pub row_of :
      (e : CdcEvent)
      → In e events
      → admits lib (some cutoff) e ≡ true
      → (r : BronzeRow) × In r found × IsRowOf lib e r
  row_of e i a =
      let (r, m, of) = h.of_event e i in
      (
        r,
        (In-keep (is_history spark cutoff none) r rows).1
            (m, is_history-IsRowOf lib e r of spark cutoff ∙ a),
        of,
      )

  pub HasDistinctOrders-history : HasDistinctOrders lib (some cutoff) events
  unfolding event_order
  HasDistinctOrders-history a b i j same =
      h.distinct a b i j (ap (λ s. s.1.partition) same) (ap (λ s. s.1.offset) same)

  module _ (e n : CdcEvent) (r m : BronzeRow) (i : In e events) (j : In n events)
      (of_e : IsRowOf lib e r) (of_n : IsRowOf lib n m) where
    -- rows of one key of the window are rows of one key of the state
    pub key_of_window : window_key r ≡ window_key m → storage_key lib e ≡ storage_key lib n
    unfolding canonical_key
    key_of_window same =
        let one =
          sym (window_key-IsRowOf lib e r of_e) ∙ (same ∙ window_key-IsRowOf lib n m of_n) in
        let keys : lib.dumps (object e.key) ≡ lib.dumps (object n.key) = cc one in
        let kinds = h.of_entity e i ∙ sym (h.of_entity n j) in
        λ k. entity_value (kinds k) <> (":" <> keys k)

    pub window_of_key : storage_key lib e ≡ storage_key lib n → window_key r ≡ window_key m
    unfolding canonical_key
    window_of_key same =
        let kinds = h.of_entity n j ∙ sym (h.of_entity e i) in
        let aligned : entity_value e.entity <> (":" <> lib.dumps (object e.key))
            ≡ entity_value e.entity <> (":" <> lib.dumps (object n.key)) =
          same ∙ ap (λ k. entity_value k <> (":" <> lib.dumps (object n.key))) kinds in
        let keys =
          append_cancel_left ":" _ _ (append_cancel_left (entity_value e.entity) _ _ aligned) in
        window_key-IsRowOf lib e r of_e ∙ (ap some keys ∙ sym (window_key-IsRowOf lib n m of_n))

    -- of two rows of one key, the first in the window is the last in the order of the state
    pub order_of_window :
        comes_first m r ≡ false → order_lt (event_order lib e) (event_order lib n) ≡ false
    unfolding event_order
    order_of_window top = elim (Bool-cases (order_lt (event_order lib e) (event_order lib n))) [
      | inr ge ↦ ge
      | inl lt ↦ elim (order_lt-place (event_order lib e) (event_order lib n) lt) [
        | inl placed ↦
            cc (top, window_order-IsRowOf lib e r of_e, window_order-IsRowOf lib n m of_n)
        | inr same ↦
            let one = h.distinct e n i j same.0 same.1 in
            cc (order_lt_irrefl (event_order lib e), ap (event_order lib) one)
      ]
    ]

    -- and if neither comes before the other, the two are rows of one event
    pub one_of_window :
        comes_first r m ≡ false → order_lt (event_order lib e) (event_order lib n) ≡ false → e ≡ n
    unfolding event_order
    one_of_window top ge =
        let placed : order_lt (place (event_order lib e)) (place (event_order lib n)) ≡ false =
          elim (Bool-cases (order_lt (place (event_order lib e)) (place (event_order lib n)))) [
            | inr no_lt ↦ no_lt
            | inl lt ↦ cc (place-order_lt (event_order lib e) (event_order lib n) lt, ge)
          ] in
        let back : order_lt (place (event_order lib n)) (place (event_order lib e)) ≡ false =
          (λ k.
            order_lt (sym (window_order-IsRowOf lib n m of_n) k)
              (sym (window_order-IsRowOf lib e r of_e) k))
          ∙ top in
        let same = order_lt-place_connex (event_order lib e) (event_order lib n) placed back in
        h.distinct e n i j same.0 same.1
