-- ===== src/Validation/Publication/History.antt =====
-- The published batches over any sequence of calls of `promote`, failed ones included.
use mathlib.Core.Path.{subst}
use millrace.Base.{
  Result, ℕ, String, false, ◌≤◌, Option, none, some, List, [], ◌∷◌, ok, Error, ◌≡◌, refl, sym, ap,
  ◌∙◌, inl, inr, str_eq, str_eq_iff, arith, All, All-both, Bool-cases, Option-cases,
}
use millrace.Base.Dict.{Dict, lookup, insert, lookup-insert_ne}
use millrace.Contracts.{Platform, RunContext}
use millrace.Validation.Identifiers.{IdentifierCase, quote_identifier, quote_relation}
use millrace.Validation.Models.{PublicationRule, ReconciliationConfig, ValidationReport}
use millrace.Validation.Publication.{
  View, rows_of, Publication, Database, Session, Engine, Statement, committed, visible, max_batch,
  is_newer, status_view, promote,
}
use millrace.Validation.Publication.Rules.{Ends-session}
use millrace.Validation.Publication.Views.{
  quoted, AvoidsName, HasDistinctViews, IsShown, shown_name, shown_name-quoted, AreWritten-IsShown,
}
use millrace.Validation.Publication.Promotion.{
  HasSameRows, IsAuthorized, IsPromoted, IsNewlyPublished, promote-Ends, idle,
}

-- No batch of the table is above `b`.
abbrev pub IsBound : ℕ → Dict Publication → Type 0
IsBound b rows = All (λ (entry : String × Publication). entry.1.batch_id ≤ b) rows

-- Each batch was published after the ones below it or the same.
abbrev pub IsOrdered : Dict Publication → Type 0
IsOrdered [] = Unit
IsOrdered ((run_id, row) ∷ rows) =
    All (λ (entry : String × Publication). row.batch_id ≤ entry.1.batch_id) rows × IsOrdered rows

IsBound-max_batch :
    (b : ℕ) (rows : Dict Publication) → is_newer b (max_batch rows) ≡ false → IsBound b rows
unfolding max_batch
IsBound-max_batch b [] h = tt
IsBound-max_batch b ((run_id, row) ∷ rows) h = elim (Option-cases (max_batch rows)) [
  | inl e ↦ (ground arith, IsBound-max_batch b rows (ground arith))
  | inr (m, e) ↦ (ground arith, IsBound-max_batch b rows (ground arith))
]

All-insert :
    (P : String × Publication → Type 0) (run_id : String) (new : Publication)
    (rows : Dict Publication)
    → lookup run_id rows ≡ none
    → P (run_id, new)
    → All P rows
    → All P (insert run_id new rows)
unfolding insert lookup
All-insert P run_id new [] h p b = (p, tt)
All-insert P run_id new ((key, row) ∷ rows) h p b = elim (Bool-cases (str_eq key run_id)) [
  | inl e ↦ ground arith
  | inr e ↦ rw e (b.0, All-insert P run_id new rows (ground arith) p b.1)
]

insert-IsOrdered :
    (run_id : String) (new : Publication) (rows : Dict Publication)
    → lookup run_id rows ≡ none
    → IsBound new.batch_id rows
    → IsOrdered rows
    → IsOrdered (insert run_id new rows)
unfolding insert lookup
insert-IsOrdered run_id new [] h b o = (tt, tt)
insert-IsOrdered run_id new ((key, row) ∷ rows) h b o = elim (Bool-cases (str_eq key run_id)) [
  | inl e ↦ ground arith
  | inr e ↦ rw e (
    All-insert _ run_id new rows (ground arith) b.0 o.0,
    insert-IsOrdered run_id new rows (ground arith) b.1 o.1,
  )
]

max_batch-insert :
    (run_id : String) (new : Publication) (rows : Dict Publication)
    → lookup run_id rows ≡ none
    → is_newer new.batch_id (max_batch rows) ≡ false
    → max_batch (insert run_id new rows) ≡ some new.batch_id
unfolding insert lookup max_batch
max_batch-insert run_id new [] h b = refl
max_batch-insert run_id new ((key, row) ∷ rows) h b = elim (Bool-cases (str_eq key run_id)) [
  | inl e ↦ ground arith
  | inr e ↦ rw e (elim (Option-cases (max_batch rows)) [
    | inl e' ↦ ground (arith, max_batch-insert run_id new rows)
    | inr (m, e') ↦ ground (arith, max_batch-insert run_id new rows)
  ])
]

str_eq-false_sym : (s t : String) → str_eq s t ≡ false → str_eq t s ≡ false
str_eq-false_sym s t h = ground (arith, str_eq_iff s t, str_eq_iff t s)

-- One call of `promote`, as of one process: what DuckDB refuses then, the clock, the run and its
-- report. The names in SQL denote the same relations in every call.
pub record Attempt : Type 0 where
  pub refuses : Statement → Database → Option Error
  pub now : ℕ
  pub context : RunContext
  pub report : ValidationReport

module _ (names : String → String) (platform : Platform) (config : ReconciliationConfig) where
  abbrev pub engine_of : Attempt → Engine
  engine_of attempt = record { refuses = attempt.refuses; relation_name = names; now = attempt.now }

  -- The database after one call, returned or raised, and after a sequence of them.
  unfoldable pub after_promote : Attempt → Database → Database
  after_promote attempt db =
      committed
        (promote (engine_of attempt) platform config attempt.context attempt.report (idle db)).1

  unfoldable pub after_promotes : List Attempt → Database → Database
  after_promotes [] db = db
  after_promotes (attempt ∷ attempts) db = after_promotes attempts (after_promote attempt db)

  -- The view of the publication shows the batch.
  abbrev pub ShowsBatch : ℕ → Dict View → PublicationRule → Type 0
  ShowsBatch batch_id views publication =
      (name : String) × (relation : String) × (column : String) × (quote_relation
          IdentifierCase.preserve publication.view
        ≡ ok name)
      × (lookup (names name) views ≡ some (rows_of relation column batch_id))

  abbrev pub ShowsNewest : Option ℕ → Dict View → Type 0
  ShowsNewest none views = Unit
  ShowsNewest (some batch_id) views = All (ShowsBatch batch_id views) config.publications

  -- All views show the newest published batch, and batches were published in order.
  abbrev pub IsLive : Database → Type 0
  IsLive db = IsOrdered db.publication_runs × ShowsNewest (max_batch db.publication_runs) db.views

  committed-closed : (session : Session) → session.saved ≡ none → committed session ≡ session.db
  unfolding committed
  committed-closed session closed = ap (visible session.db) closed

  IsLive-empty : (db : Database) → db.publication_runs ≡ [] → IsLive db
  unfolding max_batch
  IsLive-empty db h =
      (subst IsOrdered (sym h) tt, subst (λ rows. ShowsNewest (max_batch rows) db.views) (sym h) tt)

  IsLive-HasSameRows :
      (before after : Database) → HasSameRows before after → IsLive before → IsLive after
  IsLive-HasSameRows before after same live = (
    subst IsOrdered (sym same.0) live.0,
    subst (λ views. ShowsNewest (max_batch after.publication_runs) views) (sym same.2)
        (subst (λ rows. ShowsNewest (max_batch rows) before.views) (sym same.0) live.1),
  )

  -- No two of the published views have one name, and none has the name of the status view.
  abbrev pub HasDistinctNames : Engine → RunContext → Type 0
  HasDistinctNames engine context =
      HasDistinctViews engine platform context config.publications
      × AvoidsName engine platform context
          (names (
            status_view engine platform context (
              quoted engine platform context
                (quote_identifier IdentifierCase.preserve config.analytics_schema))))
          config.publications

  module _ (attempt : Attempt) where
    abbrev this_engine : Engine
    this_engine = engine_of attempt

    abbrev batch : ℕ
    batch = attempt.context.batch_id

    ShowsBatch-IsShown :
        (status : String) (views : Dict View) (publication : PublicationRule)
        → str_eq (shown_name this_engine platform attempt.context publication) status ≡ false
        → IsShown this_engine platform attempt.context views publication
        → ShowsBatch batch (insert status View.current_validation_status views) publication
    ShowsBatch-IsShown status views publication avoids
          (name, view, (relation, column, named, _, _, form), found) =
        (
          name,
          relation,
          column,
          named,
          lookup-insert_ne status (names name) _ views (
                str_eq-false_sym (names name) status (
                  subst (λ n. str_eq n status ≡ false)
                    (shown_name-quoted this_engine platform attempt.context publication name named)
                    avoids))
              ∙ (found ∙ ap some form),
        )

    IsLive-IsNewlyPublished :
        (db : Database) (after : Session)
        → HasDistinctNames this_engine attempt.context
        → is_newer batch (max_batch db.publication_runs) ≡ false
        → IsLive db
        → IsNewlyPublished this_engine platform config attempt.context db after
        → IsLive after.db
    IsLive-IsNewlyPublished db after distinct newest live
          (mid, analytics, written, quoted_analytics, views, fresh, rows, _, _) =
        let new : Publication = record { batch_id = batch; published_at = attempt.now } in
        let newest_now : max_batch after.db.publication_runs ≡ some batch =
          ap max_batch rows
          ∙ max_batch-insert attempt.context.run_id new db.publication_runs fresh newest in
        let shown =
          AreWritten-IsShown this_engine platform attempt.context config.publications db.views mid
            distinct.0 written in
        let status = λ (r : Result String). names (
          status_view this_engine platform attempt.context
            (quoted this_engine platform attempt.context r)) in
        let avoids =
          subst
            (λ r. AvoidsName this_engine platform attempt.context (status r) config.publications)
            quoted_analytics distinct.1 in
        let live_now : All (ShowsBatch batch after.db.views) config.publications =
          subst (λ vs. All (ShowsBatch batch vs) config.publications) (sym views)
            (All-both _ _ _ config.publications (ShowsBatch-IsShown (status (ok analytics)) mid)
              avoids shown) in
        (
          subst IsOrdered (sym rows) (
              insert-IsOrdered attempt.context.run_id new db.publication_runs fresh
                (IsBound-max_batch batch db.publication_runs newest) live.0),
          subst (λ n. ShowsNewest n after.db.views) (sym newest_now) live_now,
        )

    IsLive-IsPromoted :
        (db : Database) (after : Session)
        → HasDistinctNames this_engine attempt.context
        → IsLive db
        → IsPromoted this_engine platform config attempt.context db after
        → IsLive (committed after)
    IsLive-IsPromoted db after distinct live (_, inl (_, _, _, same, closed)) =
        subst IsLive (sym (committed-closed after closed))
          (IsLive-HasSameRows db after.db same live)
    IsLive-IsPromoted db after distinct live ((_, newest), inr new) =
        subst IsLive (sym (committed-closed after new.8))
          (IsLive-IsNewlyPublished db after distinct newest live new)

    -- A call of `promote`, whichever statements DuckDB refuses in it and whether it returns or
    -- raises, keeps this of what other connections see, where the configured views have names of
    -- their own: batches are published in order, and every configured view shows the newest one.
    pub IsLive-promote :
        (db : Database)
        → HasDistinctNames this_engine attempt.context
        → IsLive db
        → IsLive (after_promote attempt db)
    unfolding after_promote
    IsLive-promote db distinct live =
        Ends-session
          (λ _ after.
            IsAuthorized attempt.context attempt.report
            × IsPromoted this_engine platform config attempt.context db after)
          (λ after. HasSameRows db (committed after)) (λ after. IsLive (committed after))
          (promote this_engine platform config attempt.context attempt.report (idle db))
          (λ _ after h. IsLive-IsPromoted db after distinct live h.1)
          (λ after same. IsLive-HasSameRows db (committed after) same live)
          (promote-Ends this_engine platform config attempt.context attempt.report db)

  IsLive-promotes :
      (attempts : List Attempt) (db : Database)
      → All (λ a. HasDistinctNames (engine_of a) (Attempt.context a)) attempts
      → IsLive db
      → IsLive (after_promotes attempts db)
  unfolding after_promotes
  IsLive-promotes [] db distinct live = live
  IsLive-promotes (attempt ∷ attempts) db distinct live =
      IsLive-promotes attempts _ distinct.1 (IsLive-promote attempt db distinct.0 live)

  -- From a database where nothing is published, no sequence of calls of `promote` makes a view
  -- show a batch other than the newest published one, or publishes a batch after a newer one,
  -- where the configured views have names of their own.
  pub IsLive-after_promotes :
      (attempts : List Attempt) (db : Database)
      → All (λ a. HasDistinctNames (engine_of a) (Attempt.context a)) attempts
      → db.publication_runs ≡ []
      → IsLive (after_promotes attempts db)
  IsLive-after_promotes attempts db distinct h =
      IsLive-promotes attempts db distinct (IsLive-empty db h)
