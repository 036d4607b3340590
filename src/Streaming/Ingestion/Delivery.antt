-- ===== src/Streaming/Ingestion/Delivery.antt =====
-- A whole micro-batch: `process` of src/millrace/streaming/spark_job.py, run once or again.
use mathlib.Core.Path.{subst}
use millrace.Base.{
  String, Option, some, List, keep, Result, ok, ◌≡◌, sym, ap, ◌∙◌, ◌⊎◌, inl, inr, In,
}
use millrace.Base.Int.{ℤ}
use millrace.Base.Dict.{lookup}
use millrace.Base.Stateful.{Action, and_then-eq-ok, and_then_state}
use millrace.Streaming.Models.{Entity}
use millrace.Streaming.Storage.{StoragePaths, bronze_run, dead_letter_run}
use millrace.Streaming.Ingestion.{KafkaRecord, NormalizedRow}
use millrace.Streaming.Ingestion.Lake.{DeadLetter, Lake, Store}
use millrace.Streaming.Ingestion.MicroBatch.{
  is_on, event_dates, valid_rows, malformed_rows, write_dates, write_malformed, write_batch,
}
use millrace.Streaming.Ingestion.Writes.{write_dates-Touches, write_dates_ok}
use millrace.Streaming.Ingestion.Batches.{write_malformed-TouchesDead, write_malformed_ok}

module _ (quote : String → String) (paths : StoragePaths) (entity : Entity) (run_id : String)
    (n : ℤ) where
  -- The path of the bronze rows of a date, and of the dead letters.
  abbrev pub bronze_path : String → Result String
  bronze_path date = bronze_run quote paths entity date run_id n

  abbrev pub dead_path : Result String
  dead_path = dead_letter_run quote paths entity run_id n

  module _ (distinct : List (Option String) → List (Option String)) (store : Store)
      (rows : List (KafkaRecord × NormalizedRow)) where
    -- `b` holds what `a` holds, but for the paths of this micro-batch.
    pub record TouchesBatch (a b : Lake) : Type 0 where
      pub bronze :
          (p : String)
          → (lookup p b.bronze ≡ lookup p a.bronze)
            ⊎ ((d : String) × In d (event_dates distinct (valid_rows rows))
                × (bronze_path d ≡ ok p))
      pub dead_letters :
          (p : String)
          → (lookup p b.dead_letters ≡ lookup p a.dead_letters)
            ⊎ ((l : DeadLetter) × In l (malformed_rows rows) × (dead_path ≡ ok p))
      pub silver : b.silver ≡ a.silver

    -- Each path of this micro-batch holds its rows.
    pub record HoldsBatch (c : Lake) : Type 0 where
      pub bronze :
          (d : String)
          → In d (event_dates distinct (valid_rows rows))
          → (p : String) × (bronze_path d ≡ ok p)
            × (lookup p c.bronze ≡ some (keep (is_on d) (valid_rows rows)))
      pub dead_letters :
          (l : DeadLetter)
          → In l (malformed_rows rows)
          → (p : String) × (dead_path ≡ ok p)
            × (lookup p c.dead_letters ≡ some (malformed_rows rows))

    first_writes : Action Lake (Unit {0})
    first_writes =
        write_dates distinct quote store paths entity run_id n (valid_rows rows)
          (event_dates distinct (valid_rows rows))

    last_write : Unit {0} → Action Lake (Unit {0})
    last_write u = write_malformed distinct quote store paths entity run_id n (malformed_rows rows)

    pub write_batch-TouchesBatch :
        (a : Lake)
        → TouchesBatch a (write_batch distinct quote store paths entity run_id n rows a).1
    unfolding write_batch first_writes last_write
    write_batch-TouchesBatch a =
        let h =
          write_dates-Touches distinct quote store paths entity run_id n (valid_rows rows)
            (event_dates distinct (valid_rows rows)) a in
        elim (and_then_state (first_writes a) last_write) [
          | inl e ↦ subst (TouchesBatch a) (sym e) (record {
            bronze = h.bronze;
            dead_letters = λ p. inl (ap (lookup p) h.dead_letters);
            silver = h.silver;
          })
          | inr (u, e) ↦
              let b = (first_writes a).1 in
              let k =
                write_malformed-TouchesDead distinct quote store paths entity run_id n
                  (malformed_rows rows) b in
              subst (TouchesBatch a) (sym e) (record {
                bronze = λ p.
                    subst
                      (λ z.
                        (lookup p z ≡ lookup p a.bronze)
                        ⊎ ((d : String) × In d (event_dates distinct (valid_rows rows))
                            × (bronze_path d ≡ ok p)))
                      (sym k.bronze) (h.bronze p);
                dead_letters = λ p. elim (k.dead_letters p) [
                  | inr hit ↦ inr hit
                  | inl same ↦ inl (same ∙ ap (lookup p) h.dead_letters)
                ];
                silver = k.silver ∙ h.silver;
              })
        ]

    pub write_batch-HoldsBatch :
        (a c : Lake)
        → write_batch distinct quote store paths entity run_id n rows a ≡ (ok tt, c)
        → HoldsBatch c
    unfolding write_batch first_writes last_write
    write_batch-HoldsBatch a c h =
        let (u, b, wrote, rest) = and_then-eq-ok (first_writes a) last_write h in
        let k =
          write_malformed-TouchesDead distinct quote store paths entity run_id n
            (malformed_rows rows) b in
        let same : c.bronze ≡ b.bronze = ap (λ r. r.1.bronze) (sym rest) ∙ k.bronze in
        record {
          bronze = λ d i.
              let (p, named, found) =
                write_dates_ok distinct quote store paths entity run_id n (valid_rows rows)
                  (event_dates distinct (valid_rows rows)) a b wrote d i in
              (p, named, ap (lookup p) same ∙ found);
          dead_letters = λ l i.
              write_malformed_ok distinct quote store paths entity run_id n (malformed_rows rows) b
                c rest l i;
        }
