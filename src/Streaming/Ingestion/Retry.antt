-- ===== src/Streaming/Ingestion/Retry.antt =====
-- `process` of src/millrace/streaming/spark_job.py: what a second attempt at a micro-batch does.
use mathlib.Core.Path.{subst}
use millrace.Base.{
  ℕ, String, Option, none, some, List, [], ◌∷◌, map, Result, ok, ◌>>=◌ as ◌>>=ᵣ◌, map_result,
  ok-path, ◌≡◌, refl, sym, ap, ◌∙◌, arith, inl, inr, In, Option-cases,
}
use millrace.Base.Int.{ℤ, pos}
use millrace.Base.Dict.{lookup}
use millrace.Base.Stateful.{and_then, and_then-eq-ok}
use millrace.Streaming.Json.{Library}
use millrace.Streaming.Models.{
  Entity, DateTime, kafka_metadata, ParseResult, cdc_event, tombstone_event, malformed_event,
}
use millrace.Streaming.Parser.{parse_debezium_event}
use millrace.Streaming.Storage.{StoragePaths}
use millrace.Streaming.Ingestion.{
  KafkaRecord, NormalizedRow, Calendar, by_schema, aware, event_date, normalized_event, normalized,
  normalize_kafka_record, bytes_or_none,
}
use millrace.Streaming.Ingestion.Lake.{BronzeRow, DeadLetter, Lake, Store}
use millrace.Streaming.Ingestion.MicroBatch.{valid_rows, malformed_rows, write_batch, process}
use millrace.Streaming.Ingestion.Batches.{KeepsMembers, event_dates-In}
use millrace.Streaming.Ingestion.Delivery.{
  bronze_path, dead_path, TouchesBatch, HoldsBatch, write_batch-TouchesBatch,
  write_batch-HoldsBatch,
}
use millrace.Streaming.Ingestion.Records.{normalized_batch}

abbrev pub calendar_on : (ℕ → Result String) → String → Calendar
calendar_on utc_date today = record { utc_date = utc_date; today = today }

-- Two attempts, on different days maybe.
module _ (lib : Library) (utc_date : ℕ → Result String) (x y : String) where
  event_date_same :
      (ms : Option ℕ) (t : DateTime)
      → event_date (calendar_on utc_date x) ms (some t)
        ≡ event_date (calendar_on utc_date y) ms (some t)
  unfolding event_date
  event_date_same none t = refl
  event_date_same (some ms) t = refl

  normalized_same :
      (result : ParseResult) (t : DateTime)
      → normalized lib (calendar_on utc_date x) result (some t)
        ≡ normalized lib (calendar_on utc_date y) result (some t)
  unfolding normalized normalized_event
  normalized_same (malformed_event e) t = rw (event_date_same none t) refl
  normalized_same (tombstone_event e) t = rw (event_date_same none t) refl
  normalized_same (cdc_event e) t = rw (event_date_same e.source_timestamp_ms t) refl

  aware-some : (t : DateTime) → (u : DateTime) × (aware (some t) ≡ some u)
  unfolding aware
  aware-some t = elim (Option-cases t.zone) [
    | inl e ↦ (record { instant = t.instant; zone = some (pos 0) }, rw e refl)
    | inr (z, e) ↦ (t, ground arith)
  ]

  normalize_same :
      (r : KafkaRecord) (t : DateTime)
      → r.timestamp ≡ some t
      → normalize_kafka_record lib (calendar_on utc_date x) r
        ≡ normalize_kafka_record lib (calendar_on utc_date y) r
  unfolding normalize_kafka_record
  normalize_same r t e =
      let (u, f) = aware-some t in
      rw (ap aware e ∙ f) (λ i.
        kafka_metadata r.topic (pos r.partition) (pos r.offset) (some u) >>=ᵣ λ metadata.
        parse_debezium_event lib (bytes_or_none r.value) metadata (bytes_or_none r.key)
        >>=ᵣ λ result. normalized_same result u i)

  normalized_batch_same :
      (long : ℕ → Option ℕ) (batch : List KafkaRecord)
      → ((r : KafkaRecord) → In r batch → (t : DateTime) × (r.timestamp ≡ some t))
      → normalized_batch lib long (calendar_on utc_date x) batch
        ≡ normalized_batch lib long (calendar_on utc_date y) batch
  unfolding map_result
  normalized_batch_same long [] h = refl
  normalized_batch_same long (r ∷ batch) h =
      let (t, e) = h r (inl refl) in
      let rest = normalized_batch_same long batch (λ s i. h s (inr i)) in
      λ i. (normalize_same r t e i >>=ᵣ λ n. ok (r, by_schema long n)) >>=ᵣ λ z.
      rest i >>=ᵣ λ zs. ok (z ∷ zs)

-- The same contents under every path.
pub record SameTables (c e : Lake) : Type 0 where
  pub bronze : (p : String) → lookup p c.bronze ≡ lookup p e.bronze
  pub dead_letters : (p : String) → lookup p c.dead_letters ≡ lookup p e.dead_letters
  pub silver : c.silver ≡ e.silver

module _ (quote : String → String) (paths : StoragePaths) (entity : Entity) (run_id : String)
    (n : ℤ) (d₁ d₂ d₃ : List (Option String) → List (Option String)) (s₁ s₂ s₃ : Store)
    (keeps₁ : KeepsMembers d₁) (keeps₂ : KeepsMembers d₂) (keeps₃ : KeepsMembers d₃) where
  module _ (rows : List (KafkaRecord × NormalizedRow)) (c e : Lake)
      (h₂ : HoldsBatch quote paths entity run_id n d₂ s₂ rows c)
      (h₃ : HoldsBatch quote paths entity run_id n d₃ s₃ rows e) where
    same_date :
        (d p : String)
        → In (some d) (map (λ (row : BronzeRow). row.event_date) (valid_rows rows))
        → bronze_path quote paths entity run_id n d ≡ ok p
        → lookup p c.bronze ≡ lookup p e.bronze
    same_date d p i named =
        let (q, f, g) = h₂.bronze d ((event_dates-In d₂ (valid_rows rows) d keeps₂).1 i) in
        let (r, k, l) = h₃.bronze d ((event_dates-In d₃ (valid_rows rows) d keeps₃).1 i) in
        let pq = ok-path (sym f ∙ named) in
        let pr = ok-path (sym k ∙ named) in
        ap (λ z. lookup z c.bronze) (sym pq) ∙ (g ∙ (sym l ∙ ap (λ z. lookup z e.bronze) pr))

    same_letters :
        (l : DeadLetter) (p : String)
        → In l (malformed_rows rows)
        → dead_path quote paths entity run_id n ≡ ok p
        → lookup p c.dead_letters ≡ lookup p e.dead_letters
    same_letters l p i named =
        let (q, f, g) = h₂.dead_letters l i in
        let (r, k, m) = h₃.dead_letters l i in
        let pq = ok-path (sym f ∙ named) in
        let pr = ok-path (sym k ∙ named) in
        ap (λ z. lookup z c.dead_letters) (sym pq)
        ∙ (g ∙ (sym m ∙ ap (λ z. lookup z e.dead_letters) pr))

    pub write_batch_retry :
        (a b : Lake)
        → TouchesBatch quote paths entity run_id n d₁ s₁ rows a b
        → TouchesBatch quote paths entity run_id n d₂ s₂ rows b c
        → TouchesBatch quote paths entity run_id n d₃ s₃ rows a e
        → SameTables c e
    write_batch_retry a b t₁ t₂ t₃ = record {
      bronze = λ p. elim (t₁.bronze p) [
        | inr (d, i, f) ↦ same_date d p ((event_dates-In d₁ (valid_rows rows) d keeps₁).0 i) f
        | inl x ↦ elim (t₂.bronze p) [
          | inr (d, i, f) ↦ same_date d p ((event_dates-In d₂ (valid_rows rows) d keeps₂).0 i) f
          | inl y ↦ elim (t₃.bronze p) [
            | inr (d, i, f) ↦ same_date d p ((event_dates-In d₃ (valid_rows rows) d keeps₃).0 i) f
            | inl z ↦ y ∙ (x ∙ sym z)
          ]
        ]
      ];
      dead_letters = λ p. elim (t₁.dead_letters p) [
        | inr (l, i, f) ↦ same_letters l p i f
        | inl x ↦ elim (t₂.dead_letters p) [
          | inr (l, i, f) ↦ same_letters l p i f
          | inl y ↦ elim (t₃.dead_letters p) [
            | inr (l, i, f) ↦ same_letters l p i f
            | inl z ↦ y ∙ (x ∙ sym z)
          ]
        ]
      ];
      silver = t₂.silver ∙ (t₁.silver ∙ sym t₃.silver);
    }

  -- After an attempt at a micro-batch that ends in any way, its writes refused or cut short, an
  -- attempt that ends well leaves under every path what one attempt that ends well would have left.
  -- The attempts may be on different days, if Kafka gives every record a timestamp.
  pub process_retry :
      (lib : Library) (long : ℕ → Option ℕ) (utc_date : ℕ → Result String) (x y : String)
      (batch : List KafkaRecord) (a c e : Lake)
      → ((r : KafkaRecord) → In r batch → (t : DateTime) × (r.timestamp ≡ some t))
      → process d₂ quote s₂ paths entity run_id n lib long
          (calendar_on utc_date y)
          batch
          (process d₁ quote s₁ paths entity run_id n lib long (calendar_on utc_date x) batch a).1
        ≡ (ok tt, c)
      → process d₃ quote s₃ paths entity run_id n lib long (calendar_on utc_date x) batch a
        ≡ (ok tt, e)
      → SameTables c e
  unfolding process and_then
  process_retry lib long utc_date x y batch a c e stamped again once =
      let f₁ = write_batch d₁ quote s₁ paths entity run_id n in
      let f₂ = write_batch d₂ quote s₂ paths entity run_id n in
      let f₃ = write_batch d₃ quote s₃ paths entity run_id n in
      let (rows, b, read, rest) =
        and_then-eq-ok (normalized_batch lib long (calendar_on utc_date x) batch, a) f₃ once in
      let on_x : normalized_batch lib long (calendar_on utc_date x) batch ≡ ok rows =
        ap (λ z. z.0) read in
      let on_y = sym (normalized_batch_same lib utc_date x y long batch stamped) ∙ on_x in
      let third = sym (ap (λ r. and_then (r, a) f₃) on_x) ∙ once in
      let second = sym (λ i. and_then (on_y i, (and_then (on_x i, a) f₁).1) f₂) ∙ again in
      let first = (f₁ rows a).1 in
      write_batch_retry rows c e
        (write_batch-HoldsBatch quote paths entity run_id n d₂ s₂ rows first c second)
        (write_batch-HoldsBatch quote paths entity run_id n d₃ s₃ rows a e third) a first
        (write_batch-TouchesBatch quote paths entity run_id n d₁ s₁ rows a)
        (subst (TouchesBatch quote paths entity run_id n d₂ s₂ rows first) (ap (λ r. r.1) second)
          (write_batch-TouchesBatch quote paths entity run_id n d₂ s₂ rows first))
        (subst (TouchesBatch quote paths entity run_id n d₃ s₃ rows a) (ap (λ r. r.1) third)
          (write_batch-TouchesBatch quote paths entity run_id n d₃ s₃ rows a))
