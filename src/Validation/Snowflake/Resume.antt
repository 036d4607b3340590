-- ===== src/Validation/Snowflake/Resume.antt =====
-- `SnowflakePromotionService.promote` of src/millrace/validation/publication.py: from the staging of
-- the views to the commit.
use mathlib.Core.Path.{subst}
use millrace.Base.{ℕ, true, false, Option, none, some, [], ok, ◌≡◌, refl, sym, arith, ◌⊎◌, inl, inr}
use millrace.Base.Dict.{Dict, insert}
use millrace.Base.Stateful.{◌>>=◌, Ends, Ends-and_then}
use millrace.Contracts.{Platform, RunContext}
use millrace.Validation.Models.{ReconciliationConfig}
use millrace.Validation.Publication.{View, current_validation_status}
use millrace.Validation.Snowflake.{
  Refusal, settled, PublicationRow, Account, Connection, Command, or_empty, execute,
  build_staged_views, create_staged_view, replace_staging, create_analytics, swap, mark_published,
  drop_staging, commit, published_rows, find_row, swap_in,
}
use millrace.Validation.Snowflake.Rows.{
  is_done, published_rows-Fits, is_done-published_rows, views_of_batch, IsReady,
}
use millrace.Validation.Snowflake.Steps.{
  with_staging, Leaves, Ends-run, Ends-last, stage_views-Ends,
}

-- The views with that of the control tables, which ends `_build_staged_views`.
abbrev pub with_status : Dict View → Dict View
with_status found = insert "CURRENT_VALIDATION_STATUS" current_validation_status found

-- The run is recorded as published, and its views are in place.
pub record IsPublished (context : RunContext) (views : Dict View) (a : Account) : Type 0 where
  pub recorded : is_done context.run_id a.publication_runs ≡ true
  pub shown : a.analytics ≡ some views

module _ (refuses : Command → Account → Option Refusal) (now : ℕ) (platform : Platform)
    (context : RunContext) (found : Dict View) (E : Connection → Type 0)
    (may_fail : (command : Command) (c : Connection)
      → (refuses command c.current ≡ none)
        ⊎ ((d : Connection) → IsReady context (with_status found) d.durable → E d))
    (config : ReconciliationConfig)
    (named : views_of_batch platform context config.publications [] ≡ ok found) where
  abbrev pub views : Dict View
  views = with_status found

  abbrev pub Goal : Unit {0} → Connection → Type 0
  Goal u c = IsReady context views c.durable × IsPublished context views c.durable

  staged_found-IsReady :
      (a : Account) (held : Dict View)
      → IsReady context views a
      → IsReady context views (with_staging a held)
  staged_found-IsReady a held h = record { validated = h.validated; rows = h.rows; shown = h.shown }

  build_staged_views-Ends :
      (c : Connection)
      → IsReady context views c.current
      → IsReady context views c.durable
      → Ends
          (Leaves (settled (with_staging c.current views)))
          E
          (build_staged_views refuses now platform context config c)
  unfolding build_staged_views
  build_staged_views-Ends c ready durable =
      let a = c.current in
      let Q = Leaves (settled (with_staging a views)) in
      Ends-run refuses now platform context views E may_fail Q replace_staging _ c
        (settled (with_staging a [])) refl durable ready
        (Ends-and_then Q E (Leaves (settled (with_staging a found))) _ _
          (stage_views-Ends refuses now platform context views E may_fail config.publications a []
            found ready named)
          (λ u b same.
            subst
              (λ z. Ends Q E (
                execute refuses now
                  (create_staged_view "CURRENT_VALIDATION_STATUS" current_validation_status) z))
              (sym same)
              (Ends-last refuses now platform context views E may_fail Q
                (create_staged_view "CURRENT_VALIDATION_STATUS" current_validation_status)
                (settled (with_staging a found)) _ refl (staged_found-IsReady a found ready)
                (staged_found-IsReady a found ready) refl)))

  -- The accounts between the statements that follow the staging.
  abbrev with_analytics : Account → Account
  with_analytics a = record a { analytics = some (or_empty a.analytics); staging = some views }

  abbrev swapped_in : Account → Account
  swapped_in a = record a { analytics = some views; staging = some (or_empty a.analytics) }

  abbrev marked : Account → Account
  marked a = record (swapped_in a) {
    publication_runs = published_rows context.run_id a.publication_runs;
  }

  finish-Ends :
      (a : Account) (row : PublicationRow)
      → IsReady context views a
      → find_row context.run_id a.publication_runs ≡ some row
      → row.is_published ≡ false
      → Ends Goal E (
          (execute refuses now create_analytics >>= λ _. execute refuses now swap >>= λ _.
          execute refuses now (mark_published context.run_id) >>= λ _.
          execute refuses now drop_staging >>= λ _. execute refuses now commit)
            (settled (with_staging a views)))
  unfolding is_done
  finish-Ends a row ready own pending =
      let open_run : is_done context.run_id a.publication_runs ≡ false = ground arith in
      let before : IsReady context views (with_analytics a) = record {
        validated = ready.validated;
        rows = ready.rows;
        shown = inl open_run;
      } in
      let after : IsReady context views (swapped_in a) = record {
        validated = ready.validated;
        rows = ready.rows;
        shown = inr refl;
      } in
      let rows =
        published_rows-Fits context.run_id context.batch_id a.publication_runs ready.rows in
      let recorded : IsReady context views (marked a) = record {
        validated = ready.validated;
        rows = rows;
        shown = inr refl;
      } in
      let end : IsReady context views (record (marked a) { staging = none }) = record {
        validated = ready.validated;
        rows = rows;
        shown = inr refl;
      } in
      let published : IsPublished context views (record (marked a) { staging = none }) = record {
        recorded = is_done-published_rows context.run_id a.publication_runs row own;
        shown = refl;
      } in
      Ends-run refuses now platform context views E may_fail Goal create_analytics _
        (settled (with_staging a views)) (settled (with_analytics a)) refl
        (staged_found-IsReady a views ready) (staged_found-IsReady a views ready)
        (Ends-run refuses now platform context views E may_fail Goal swap _
          (settled (with_analytics a)) (settled (swapped_in a)) refl before before
          (Ends-run refuses now platform context views E may_fail Goal
            (mark_published context.run_id) _ (settled (swapped_in a))
            (record { current = marked a; durable = swapped_in a }) refl after after
            (Ends-run refuses now platform context views E may_fail Goal drop_staging _
              (record { current = marked a; durable = swapped_in a })
              (settled (record (marked a) { staging = none })) refl after recorded
              (Ends-last refuses now platform context views E may_fail Goal commit
                (settled (record (marked a) { staging = none }))
                (settled (record (marked a) { staging = none })) refl end end (end, published)))))

  pub swap_in-Ends :
      (c : Connection) (row : PublicationRow)
      → IsReady context views c.current
      → IsReady context views c.durable
      → find_row context.run_id c.current.publication_runs ≡ some row
      → row.is_published ≡ false
      → Ends Goal E (swap_in refuses now platform context config c)
  unfolding swap_in
  swap_in-Ends c row ready durable own pending =
      Ends-and_then Goal E (Leaves (settled (with_staging c.current views))) _ _
        (build_staged_views-Ends c ready durable)
        (λ u b same.
          subst
            (λ z. Ends Goal E (
              (execute refuses now create_analytics >>= λ _. execute refuses now swap >>= λ _.
              execute refuses now (mark_published context.run_id) >>= λ _.
              execute refuses now drop_staging >>= λ _. execute refuses now commit)
                z))
            (sym same) (finish-Ends c.current row ready own pending))
