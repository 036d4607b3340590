-- ===== src/Streaming/Ingestion/Batches.antt =====
-- What a micro-batch changes: the write of the dead letters and the sequence of all its writes.
use millrace.Base.{
  String, Option, none, some, List, [], ◌∷◌, map, Result, ok, ◌≡◌, ◌↔◌, refl, ap, ◌∙◌, arith, ◌⊎◌,
  inl, inr, In, Bool-cases, Option-cases, Result-cases, str_eq, str_eq_iff,
}
use millrace.Base.Int.{ℤ}
use millrace.Base.Dict.{lookup, insert, lookup-insert_self, lookup-insert_ne}
use millrace.Base.Stateful.{and_then}
use millrace.Streaming.Models.{Entity}
use millrace.Streaming.Storage.{StoragePaths, dead_letter_run}
use millrace.Streaming.Ingestion.Lake.{BronzeRow, DeadLetter, Lake, Store, write_dead_letters}
use millrace.Streaming.Ingestion.MicroBatch.{present, event_dates, write_malformed}

-- Spark's `distinct` keeps the values, in any order.
abbrev pub KeepsMembers : (List (Option String) → List (Option String)) → Type 0
KeepsMembers distinct =
    (xs : List (Option String)) (x : Option String) → In x (distinct xs) ↔ In x xs

In-present : (d : String) (xs : List (Option String)) → In d (present xs) ↔ In (some d) xs
unfolding present
In-present d [] = (λ h. h, λ h. h)
In-present d (none ∷ xs) = (
  λ h. inr ((In-present d xs).0 h),
  λ h. elim h [ inl e ↦ absurd (ground arith) | inr m ↦ (In-present d xs).1 m ],
)
In-present d (some x ∷ xs) = (
  λ h. elim h [ inl e ↦ inl (ap some e) | inr m ↦ inr ((In-present d xs).0 m) ],
  λ h. elim h [ inl e ↦ inl (ground arith) | inr m ↦ inr ((In-present d xs).1 m) ],
)

-- the dates that are written are those of the rows
pub event_dates-In :
    (distinct : List (Option String) → List (Option String)) (rows : List BronzeRow) (d : String)
    → KeepsMembers distinct
    → In d (event_dates distinct rows) ↔ In (some d) (map (λ row. row.event_date) rows)
unfolding event_dates
event_dates-In distinct rows d same =
    let dates = map (λ (row : BronzeRow). row.event_date) rows in
    (
      λ h. (same dates (some d)).0 ((In-present d (distinct dates)).0 h),
      λ h. (In-present d (distinct dates)).1 ((same dates (some d)).1 h),
    )

module _ (distinct : List (Option String) → List (Option String)) (quote : String → String)
    (store : Store) (paths : StoragePaths) (entity : Entity) (run_id : String) (n : ℤ) where
  abbrev pub dead_path : Result String
  dead_path = dead_letter_run quote paths entity run_id n

  -- `b` holds what `a` holds, but for the path of the dead letters, if there are any.
  pub record TouchesDead (letters : List DeadLetter) (a b : Lake) : Type 0 where
    pub dead_letters :
        (p : String)
        → (lookup p b.dead_letters ≡ lookup p a.dead_letters)
          ⊎ ((l : DeadLetter) × In l letters × (dead_path ≡ ok p))
    pub bronze : b.bronze ≡ a.bronze
    pub silver : b.silver ≡ a.silver

  unchanged-TouchesDead : (letters : List DeadLetter) (a : Lake) → TouchesDead letters a a
  unchanged-TouchesDead letters a = record {
    dead_letters = λ p. inl refl;
    bronze = refl;
    silver = refl;
  }

  pub write_malformed-TouchesDead :
      (letters : List DeadLetter) (a : Lake)
      → TouchesDead letters a
          (write_malformed distinct quote store paths entity run_id n letters a).1
  unfolding write_malformed write_dead_letters and_then
  write_malformed-TouchesDead [] a = unchanged-TouchesDead [] a
  write_malformed-TouchesDead (l ∷ letters) a = elim (Result-cases dead_path) [
    | inr (error, e) ↦ rw e (unchanged-TouchesDead (l ∷ letters) a)
    | inl (t, e) ↦ rw e (record {
      dead_letters = λ p. elim (Bool-cases (str_eq t p)) [
        | inl same ↦ inr (l, inl refl, e ∙ ap ok ((str_eq_iff t p).0 same))
        | inr other ↦ inl (lookup-insert_ne t p _ a.dead_letters other)
      ];
      bronze = refl;
      silver = refl;
    })
  ]

  pub write_malformed_ok :
      (letters : List DeadLetter) (a c : Lake)
      → write_malformed distinct quote store paths entity run_id n letters a ≡ (ok tt, c)
      → (l : DeadLetter) → In l letters
      → (p : String) × (dead_path ≡ ok p) × (lookup p c.dead_letters ≡ some letters)
  unfolding write_malformed write_dead_letters and_then
  write_malformed_ok [] a c h l i = absurd i
  write_malformed_ok (x ∷ letters) a c h l i = elim (Result-cases dead_path) [
    | inr (error, e) ↦ absurd (ground arith)
    | inl (t, e) ↦ elim (Option-cases (store.dead_letter_failure t)) [
      | inr (failure, bad) ↦ absurd (ground arith)
      | inl fine ↦
          let end : c ≡ record a { dead_letters = insert t (x ∷ letters) a.dead_letters } =
            ground arith in
          (
            t,
            e,
            ap (λ z. lookup t z.dead_letters) end
                ∙ lookup-insert_self t (x ∷ letters) a.dead_letters,
          )
    ]
  ]
