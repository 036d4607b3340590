-- ===== src/Streaming/Ingestion/Writes.antt =====
-- What the writes of a micro-batch change: `write_date` and `write_dates` of `process` in
-- src/millrace/streaming/spark_job.py.
use mathlib.Core.Path.{subst}
use text.Mathlib.TextLemmas.{append_cancel_left, append_cancel_right}
use millrace.Base.{
  String, Option, some, List, [], ◌∷◌, keep, Result, ok, ◌≡◌, refl, sym, ap, ◌∙◌, arith, ◌⊎◌, inl,
  inr, In, Bool-cases, Option-cases, Result-cases, str_eq, str_eq_iff, ok-path,
}
use millrace.Base.Int.{ℤ, pos, negsuc}
use millrace.Base.Dict.{lookup, insert, lookup-insert_self, lookup-insert_ne}
use millrace.Base.Stateful.{and_then, and_then-eq-ok, and_then_state}
use millrace.Streaming.Models.{Entity}
use millrace.Streaming.Storage.{StoragePaths, bronze_table, bronze_run, stable_component}
use millrace.Streaming.Ingestion.Lake.{BronzeRow, Lake, Store, remains, write_bronze}
use millrace.Streaming.Ingestion.MicroBatch.{is_on, write_date, write_dates}

-- the paths of two dates differ
pub bronze_run_injective :
    (quote : String → String) (paths : StoragePaths) (entity : Entity) (c d run_id : String) (n : ℤ)
    (p : String)
    → bronze_run quote paths entity c run_id n ≡ ok p
    → bronze_run quote paths entity d run_id n ≡ ok p
    → c ≡ d
unfolding bronze_run
bronze_run_injective quote paths entity c d run_id (pos m) p h k =
    elim (Result-cases (stable_component quote run_id)) [
      | inl (run, f) ↦ append_cancel_right c d _ (
          append_cancel_left "/event_date=" _ _ (
            append_cancel_left (bronze_table paths entity) _ _
              (ok-path ((rw f at h) ∙ sym (rw f at k)))))
      | inr (e, f) ↦ cc (rw f at h)
    ]
bronze_run_injective quote paths entity c d run_id (negsuc m) p h k = cc

module _ (distinct : List (Option String) → List (Option String)) (quote : String → String)
    (store : Store) (paths : StoragePaths) (entity : Entity) (run_id : String) (n : ℤ)
    (rows : List BronzeRow) where
  abbrev pub target : String → Result String
  target date = bronze_run quote paths entity date run_id n

  -- the write of a date touches its path only
  write_date_state :
      (date : String) (a : Lake)
      → ((write_date distinct quote store paths entity run_id n rows date a).1 ≡ a)
        ⊎ ((t : String) × (xs : List BronzeRow) × (target date ≡ ok t)
            × ((write_date distinct quote store paths entity run_id n rows date a).1
                ≡ record a { bronze = insert t xs a.bronze }))
  unfolding write_date write_bronze and_then
  write_date_state date a = elim (Result-cases (target date)) [
    | inl (t, e) ↦ inr (t, remains (store.bronze_failure t) (keep (is_on date) rows), e, rw e refl)
    | inr (error, e) ↦ inl (rw e refl)
  ]

  write_date_ok :
      (date : String) (a c : Lake)
      → write_date distinct quote store paths entity run_id n rows date a ≡ (ok tt, c)
      → (t : String) × (target date ≡ ok t)
        × (c ≡ record a { bronze = insert t (keep (is_on date) rows) a.bronze })
  unfolding write_date write_bronze and_then
  write_date_ok date a c h = elim (Result-cases (target date)) [
    | inl (t, e) ↦ elim (Option-cases (store.bronze_failure t)) [
      | inl fine ↦ (t, e, ground arith)
      | inr (failure, bad) ↦ absurd (ground arith)
    ]
    | inr (error, e) ↦ absurd (ground arith)
  ]

  -- `b` holds what `a` holds, but for the paths of the dates.
  pub record Touches (dates : List String) (a b : Lake) : Type 0 where
    pub bronze :
        (p : String)
        → (lookup p b.bronze ≡ lookup p a.bronze) ⊎ ((d : String) × In d dates × (target d ≡ ok p))
    pub dead_letters : b.dead_letters ≡ a.dead_letters
    pub silver : b.silver ≡ a.silver

  insert-Touches :
      (d : String) (dates : List String) (t : String) (xs : List BronzeRow) (a : Lake)
      → target d ≡ ok t
      → Touches (d ∷ dates) a (record a { bronze = insert t xs a.bronze })
  insert-Touches d dates t xs a e = record {
    bronze = λ p. elim (Bool-cases (str_eq t p)) [
      | inl same ↦ inr (d, inl refl, e ∙ ap ok ((str_eq_iff t p).0 same))
      | inr other ↦ inl (lookup-insert_ne t p xs a.bronze other)
    ];
    dead_letters = refl;
    silver = refl;
  }

  write_date-Touches :
      (d : String) (dates : List String) (a : Lake)
      → Touches (d ∷ dates) a (write_date distinct quote store paths entity run_id n rows d a).1
  write_date-Touches d dates a = elim (write_date_state d a) [
    | inl e ↦
        subst (Touches (d ∷ dates) a) (sym e)
          (record { bronze = λ p. inl refl; dead_letters = refl; silver = refl })
    | inr (t, xs, named, e) ↦
        subst (Touches (d ∷ dates) a) (sym e) (insert-Touches d dates t xs a named)
  ]

  Touches-trans :
      (d : String) (dates : List String) (a b c : Lake)
      → Touches (d ∷ dates) a b
      → Touches dates b c
      → Touches (d ∷ dates) a c
  Touches-trans d dates a b c h k = record {
    bronze = λ p. elim (k.bronze p) [
      | inr (x, i, e) ↦ inr (x, inr i, e)
      | inl same ↦ elim (h.bronze p) [ inr hit ↦ inr hit | inl old ↦ inl (same ∙ old) ]
    ];
    dead_letters = k.dead_letters ∙ h.dead_letters;
    silver = k.silver ∙ h.silver;
  }

  -- However the writes end, they touch the paths of their dates only.
  pub write_dates-Touches :
      (dates : List String) (a : Lake)
      → Touches dates a (write_dates distinct quote store paths entity run_id n rows dates a).1
  unfolding write_dates
  write_dates-Touches [] a = record { bronze = λ p. inl refl; dead_letters = refl; silver = refl }
  write_dates-Touches (d ∷ dates) a =
      let first = write_date distinct quote store paths entity run_id n rows d a in
      let rest =
        λ (u : Unit {0}). write_dates distinct quote store paths entity run_id n rows dates in
      let h = write_date-Touches d dates a in
      elim (and_then_state first rest) [
        | inl e ↦ subst (Touches (d ∷ dates) a) (sym e) h
        | inr (u, e) ↦ subst (Touches (d ∷ dates) a) (sym e) (
            Touches-trans d dates a first.1 (rest u first.1).1 h
              (write_dates-Touches dates first.1))
      ]

  -- Where they all end well, each path of a date holds the rows of that date.
  pub write_dates_ok :
      (dates : List String) (a c : Lake)
      → write_dates distinct quote store paths entity run_id n rows dates a ≡ (ok tt, c)
      → (d : String) → In d dates
      → (p : String) × (target d ≡ ok p) × (lookup p c.bronze ≡ some (keep (is_on d) rows))
  unfolding write_dates
  write_dates_ok [] a c h d i = absurd i
  write_dates_ok (x ∷ dates) a c h d i =
      let (u, b, wrote, rest) =
        and_then-eq-ok (write_date distinct quote store paths entity run_id n rows x a)
          (λ _. write_dates distinct quote store paths entity run_id n rows dates) h in
      elim i [
        | inr j ↦ write_dates_ok dates b c rest d j
        | inl same ↦
            let (t, named, e) = write_date_ok x a b wrote in
            let path = subst (λ z. target z ≡ ok t) same named in
            let put : lookup t b.bronze ≡ some (keep (is_on d) rows) =
              ap (λ z. lookup t z.bronze) e
              ∙ (lookup-insert_self t (keep (is_on x) rows) a.bronze
                  ∙ ap (λ z. some (keep (is_on z) rows)) same) in
            elim ((write_dates-Touches dates b).bronze t) [
              | inl kept ↦ (t, path, ap (λ r. lookup t r.1.bronze) (sym rest) ∙ (kept ∙ put))
              | inr (y, k, hit) ↦
                  let one : y ≡ d =
                    bronze_run_injective quote paths entity y d run_id n t hit path in
                  write_dates_ok dates b c rest d (subst (λ z. In z dates) one k)
            ]
      ]
