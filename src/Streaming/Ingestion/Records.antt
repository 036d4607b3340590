-- ===== src/Streaming/Ingestion/Records.antt =====
-- `process` of src/millrace/streaming/spark_job.py: where each record of a micro-batch goes.
use mathlib.Core.Path.{subst}
use millrace.Base.{
  ℕ, String, true, false, not, Option, none, some, List, [], ◌∷◌, map, keep, Result, ok, raise,
  Error, ◌>>=◌ as ◌>>=ᵣ◌, map_result, bind-eq-ok, ok-path, ◌≡◌, refl, sym, ap, ◌∙◌, ◌⊎◌, inl, inr,
  In, In-map, In-keep, Bool-cases, Result-cases, str_eq_self,
}
use millrace.Base.Int.{ℤ, pos}
use millrace.Base.Dict.{lookup}
use millrace.Base.Stateful.{and_then, and_then-eq-ok}
use millrace.Streaming.Json.{Library}
use millrace.Streaming.Models.{
  Entity, DateTime, kafka_metadata, ParseResult, cdc_event, tombstone_event, malformed_event,
}
use millrace.Streaming.Storage.{StoragePaths}
use millrace.Streaming.Ingestion.{
  KafkaRecord, NormalizedRow, Calendar, by_schema, aware, event_date, event_columns,
  normalized_event, normalized, normalize_kafka_record,
}
use millrace.Streaming.Ingestion.Lake.{BronzeRow, DeadLetter, Lake, Store}
use millrace.Streaming.Ingestion.MicroBatch.{
  is_valid, is_on, bronze_row, dead_letter, valid_rows, malformed_rows, write_batch, process,
}
use millrace.Streaming.Ingestion.Batches.{KeepsMembers, event_dates-In}
use millrace.Streaming.Ingestion.Delivery.{
  bronze_path, dead_path, HoldsBatch, write_batch-HoldsBatch,
}

-- every element that a call maps is among the results
map_result-In :
    {A B : Type 0} (f : A → Result B) (xs : List A) (ys : List B) (x : A)
    → map_result f xs ≡ ok ys
    → In x xs
    → (y : B) × (f x ≡ ok y) × In y ys
unfolding map_result
map_result-In f [] ys x h i = absurd i
map_result-In f (z ∷ xs) ys x h i =
    let (y, e, rest) = bind-eq-ok (f z) (λ y. map_result f xs >>=ᵣ λ ys. ok (y ∷ ys)) h in
    let (zs, k, last) = bind-eq-ok (map_result f xs) (λ ys. ok (y ∷ ys)) rest in
    elim i [
      | inl same ↦ (y, ap f (sym same) ∙ e, subst (In y) (ok-path last) (inl refl))
      | inr j ↦
          let (w, g, m) = map_result-In f xs zs x k j in (w, g, subst (In w) (ok-path last) (inr m))
    ]

map_result_raises :
    {A B : Type 0} (f : A → Result B) (xs : List A) (x : A) (e : Error)
    → In x xs
    → f x ≡ raise e
    → (e' : Error) × (map_result f xs ≡ raise e')
unfolding map_result
map_result_raises f [] x e i h = absurd i
map_result_raises f (z ∷ xs) x e i h = elim (Result-cases (f z)) [
  | inr (e', k) ↦ (e', rw k refl)
  | inl (y, k) ↦ elim i [
    | inl same ↦ cc (ap f same)
    | inr j ↦ let (e', m) = map_result_raises f xs x e j h in (e', rw (k, m) refl)
  ]
]

module _ (lib : Library) where
  -- every row has a date
  normalized-dated :
      (calendar : Calendar) (result : ParseResult) (t : Option DateTime) (row : NormalizedRow)
      → normalized lib calendar result t ≡ ok row
      → (d : String) × (row.event_date ≡ some d)
  unfolding normalized normalized_event event_columns
  normalized-dated calendar (malformed_event e) t row h =
      let (d, q, same) = bind-eq-ok (event_date calendar none t) _ h in
      (d, ap (λ r. r.event_date) (sym (ok-path same)))
  normalized-dated calendar (tombstone_event e) t row h =
      let (d, q, same) = bind-eq-ok (event_date calendar none t) _ h in
      (d, ap (λ r. r.event_date) (sym (ok-path same)))
  normalized-dated calendar (cdc_event e) t row h =
      let (d, q, same) = bind-eq-ok (event_date calendar e.source_timestamp_ms t) _ h in
      (d, ap (λ r. r.event_date) (sym (ok-path same)))

  normalize_kafka_record-dated :
      (calendar : Calendar) (r : KafkaRecord) (row : NormalizedRow)
      → normalize_kafka_record lib calendar r ≡ ok row
      → (d : String) × (row.event_date ≡ some d)
  unfolding normalize_kafka_record
  normalize_kafka_record-dated calendar r row h =
      let (m, e, rest) =
        bind-eq-ok (kafka_metadata r.topic (pos r.partition) (pos r.offset) (aware r.timestamp)) _
          h in
      let (result, k, last) =
        bind-eq-ok _ (λ result. normalized lib calendar result (aware r.timestamp)) rest in
      normalized-dated calendar result (aware r.timestamp) row last

-- what `normalize` gives for a batch
abbrev pub normalized_batch :
    Library
    → (ℕ → Option ℕ)
    → Calendar
    → List KafkaRecord
    → Result (List (KafkaRecord × NormalizedRow))
normalized_batch lib long calendar batch =
    map_result (λ r. normalize_kafka_record lib calendar r >>=ᵣ λ n. ok (r, by_schema long n)) batch

-- The record is a row of the bronze table under the path of its date, or a dead letter.
abbrev pub IsDelivered :
    (String → String)
    → StoragePaths
    → Entity
    → String
    → ℤ
    → Lake
    → KafkaRecord × NormalizedRow
    → Type 0
IsDelivered quote paths entity run_id n c (r, row) =
    ((row.is_valid ≡ true)
      × (d : String) × (p : String) × (rows : List BronzeRow) × (row.event_date ≡ some d)
      × (bronze_path quote paths entity run_id n d ≡ ok p)
      × (lookup p c.bronze ≡ some rows)
      × In (bronze_row (r, row)) rows)
    ⊎ ((row.is_valid ≡ false)
        × (p : String) × (letters : List DeadLetter) × (dead_path quote paths entity run_id n
            ≡ ok p)
        × (lookup p c.dead_letters ≡ some letters)
        × In (dead_letter (r, row)) letters)

module _ (quote : String → String) (paths : StoragePaths) (entity : Entity) (run_id : String)
    (n : ℤ) (lib : Library) where
  HoldsBatch-IsDelivered :
      (distinct : List (Option String) → List (Option String)) (store : Store)
      (rows : List (KafkaRecord × NormalizedRow)) (c : Lake) (x : KafkaRecord × NormalizedRow)
      (d : String)
      → KeepsMembers distinct
      → HoldsBatch quote paths entity run_id n distinct store rows c
      → In x rows
      → x.1.event_date ≡ some d
      → IsDelivered quote paths entity run_id n c x
  unfolding bronze_row valid_rows malformed_rows
  HoldsBatch-IsDelivered distinct store rows c (r, row) d same holds i e =
      elim (Bool-cases row.is_valid) [
        | inl valid ↦
            let kept =
              In-map bronze_row (r, row) (keep is_valid rows)
                ((In-keep is_valid (r, row) rows).1 (i, valid)) in
            let dated =
              subst (λ z. In z (map (λ (b : BronzeRow). b.event_date) (valid_rows rows))) e
                (In-map (λ (b : BronzeRow). b.event_date) (bronze_row (r, row)) (valid_rows rows)
                  kept) in
            let (p, named, found) =
              holds.bronze d ((event_dates-In distinct (valid_rows rows) d same).1 dated) in
            inl (
              valid,
              d,
              p,
              keep (is_on d) (valid_rows rows),
              e,
              named,
              found,
              (In-keep (is_on d) (bronze_row (r, row)) (valid_rows rows)).1
                  (kept, rw e (str_eq_self d)),
            )
        | inr bad ↦
            let kept =
              In-map dead_letter (r, row) (keep (λ x. not (is_valid x)) rows)
                ((In-keep (λ x. not (is_valid x)) (r, row) rows).1 (i, rw bad refl)) in
            let (p, named, found) = holds.dead_letters (dead_letter (r, row)) kept in
            inr (bad, p, malformed_rows rows, named, found, kept)
      ]

  -- Where a micro-batch ends without an exception, each of its records has been normalized, and is
  -- in the bronze table under the path of its date if it is valid, or else among the dead letters.
  pub process-IsDelivered :
      (distinct : List (Option String) → List (Option String)) (store : Store) (long : ℕ → Option ℕ)
      (calendar : Calendar) (batch : List KafkaRecord) (a c : Lake) (r : KafkaRecord)
      → KeepsMembers distinct
      → process distinct quote store paths entity run_id n lib long calendar batch a ≡ (ok tt, c)
      → In r batch
      → (row : NormalizedRow) × (normalize_kafka_record lib calendar r ≡ ok row)
        × IsDelivered quote paths entity run_id n c (r, by_schema long row)
  unfolding process
  process-IsDelivered distinct store long calendar batch a c r same h i =
      let (rows, b, read, rest) =
        and_then-eq-ok (normalized_batch lib long calendar batch, a)
          (λ rows. write_batch distinct quote store paths entity run_id n rows) h in
      let all_rows : normalized_batch lib long calendar batch ≡ ok rows = ap (λ z. z.0) read in
      let (x, made, j) =
        map_result-In
          (λ r. normalize_kafka_record lib calendar r >>=ᵣ λ n. ok (r, by_schema long n)) batch rows
          r all_rows i in
      let (row, e, pair) =
        bind-eq-ok (normalize_kafka_record lib calendar r) (λ n. ok (r, by_schema long n)) made in
      let holds = write_batch-HoldsBatch quote paths entity run_id n distinct store rows b c rest in
      let (d, dated) = normalize_kafka_record-dated lib calendar r row e in
      (
        row,
        e,
        HoldsBatch-IsDelivered distinct store rows c (r, by_schema long row) d same holds
            (subst (λ z. In z rows) (sym (ok-path pair)) j) dated,
      )

-- A record that raises, in the parser or for its date, makes its whole micro-batch raise, at every
-- attempt, and no table is written: it is no dead letter.
pub process_raises :
    (distinct : List (Option String) → List (Option String)) (quote : String → String)
    (store : Store) (paths : StoragePaths) (entity : Entity) (run_id : String) (n : ℤ)
    (lib : Library) (long : ℕ → Option ℕ) (calendar : Calendar) (batch : List KafkaRecord)
    (a : Lake) (r : KafkaRecord) (e : Error)
    → In r batch
    → normalize_kafka_record lib calendar r ≡ raise e
    → (e' : Error) × (process distinct quote store paths entity run_id n lib long calendar batch a
        ≡ (raise e', a))
unfolding process and_then
process_raises distinct quote store paths entity run_id n lib long calendar batch a r e i h =
    let (e', k) =
      map_result_raises
        (λ r. normalize_kafka_record lib calendar r >>=ᵣ λ n. ok (r, by_schema long n)) batch r e i
        (rw h refl) in
    (e', ap (λ z. and_then (z, a) (write_batch distinct quote store paths entity run_id n)) k)
