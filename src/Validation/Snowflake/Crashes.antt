-- ===== src/Validation/Snowflake/Crashes.antt =====
-- `SnowflakePromotionService.promote` of src/millrace/validation/publication.py, after a crash. An
-- attempt starts on a connection that sees what is committed; a crash, or a refused statement, ends
-- it with what is committed then.
use millrace.Base.{ℕ, Option, none, [], ok, ◌≡◌, refl, inl, inr}
use millrace.Base.Dict.{Dict}
use millrace.Base.Stateful.{Ends-state, Ends-total}
use millrace.Contracts.{Platform, RunContext}
use millrace.Validation.Models.{ReconciliationConfig, ValidationReport}
use millrace.Validation.Publication.{View}
use millrace.Validation.Snowflake.{Refusal, settled, Account, Connection, Command, swap_promote}
use millrace.Validation.Snowflake.Rows.{views_of_batch, IsReady}
use millrace.Validation.Snowflake.Resume.{with_status, IsPublished}
use millrace.Validation.Snowflake.Attempts.{IsAuthorized, swap_promote-Ends}

module _ (platform : Platform) (context : RunContext) (config : ReconciliationConfig)
    (report : ValidationReport) (found : Dict View) where
  -- An attempt starts from an account with the passed validation of the run, no newer published
  -- batch, and no record of the run as published without its views; the names can be quoted, and the
  -- report is a passed one of the run. However it ends, before, within or after any statement and for
  -- whatever reason, the same holds of what is committed: the record may lag behind the views, and is
  -- never ahead.
  pub swap_promote-IsReady :
      (refuses : Command → Account → Option Refusal) (now : ℕ) (a : Account)
      → views_of_batch platform context config.publications [] ≡ ok found
      → IsAuthorized context config report
      → IsReady context (with_status found) a
      → IsReady context
          (with_status found)
          (swap_promote refuses now platform context config report (settled a)).1.durable
  swap_promote-IsReady refuses now a named allowed ready =
      Ends-state
        (λ u c.
          IsReady context (with_status found) c.durable
          × IsPublished context (with_status found) c.durable)
        (λ c. IsReady context (with_status found) c.durable)
        (λ c. IsReady context (with_status found) c.durable)
        (swap_promote refuses now platform context config report (settled a)) (λ u c h. h.0)
        (λ c h. h)
        (swap_promote-Ends refuses now platform context found
          (λ c. IsReady context (with_status found) c.durable) (λ command c. inr (λ d h. h)) config
          named report a allowed ready)

  -- After an attempt that started so and ended in any way, an attempt whose statements are all
  -- accepted returns, and then the run is recorded as published and all its views are in place.
  pub swap_promote_resumes :
      (refuses : Command → Account → Option Refusal) (first_now now : ℕ) (a : Account)
      → views_of_batch platform context config.publications [] ≡ ok found
      → IsAuthorized context config report
      → IsReady context (with_status found) a
      → (c : Connection) × (swap_promote
            (λ command account. none)
            now
            platform
            context
            config
            report
            (settled (
              (swap_promote refuses first_now platform context config report
                (settled a)).1.durable))
          ≡ (ok tt, c))
        × IsPublished context (with_status found) c.durable
  swap_promote_resumes refuses first_now now a named allowed ready =
      let left =
        (swap_promote refuses first_now platform context config report (settled a)).1.durable in
      let (u, c, returns, end) =
        Ends-total
          (λ u c.
            IsReady context (with_status found) c.durable
            × IsPublished context (with_status found) c.durable)
          (swap_promote (λ command account. none) now platform context config report (settled left))
          (swap_promote-Ends (λ command account. none) now platform context found (λ c. ⊥)
            (λ command c. inl refl) config named report left allowed
            (swap_promote-IsReady refuses first_now a named allowed ready)) in
      (c, returns, end.1)
