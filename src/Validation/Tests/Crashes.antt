-- ===== src/Validation/Tests/Crashes.antt =====
-- Promotions on Snowflake that crash as they swap, and after they recorded the batch.
use millrace.Base.{
  Option, none, some, [], ◌∷◌, ok, database_error, ◌≡◌, refl, inl, str_eq, split_on, last_part,
  map_result, push_char, but_last, join,
}
use millrace.Base.Decimal.{show, show_padded}
use millrace.Base.Dict.{Dict, lookup, insert}
use millrace.Contracts.{storage_key}
use millrace.Validation.Identifiers.{
  quote_identifier, is_identifier, is_part, rendered, render_relation, render_template,
  quote_relation, candidate_schema, after_slash, all_parts, count_text, is_start, upper_text,
  upper_char,
}
use millrace.Validation.Models.{is_passed}
use millrace.Validation.Publication.{View, rows_of}
use millrace.Validation.Snowflake.{
  Refusal, after_commit, settled, Account, Connection, Command, find_row, swap_promote,
}
use millrace.Validation.Snowflake.Rows.{is_done, views_of_batch, IsReady}
use millrace.Validation.Snowflake.Resume.{with_status, IsPublished}
use millrace.Validation.Snowflake.Attempts.{IsAuthorized}
use millrace.Validation.Snowflake.Crashes.{swap_promote-IsReady, swap_promote_resumes}
use millrace.Validation.Tests.{platform, config, context, report}

abbrev found : Dict View
found =
    ("\"ORDERS\"", rows_of "\"CANDIDATE_0000000007_5E884898\".\"ORDERS\"" "\"BATCH_ID\"" 7)
    ∷ ("\"CUSTOMERS\"", rows_of "\"SILVER\".\"CUSTOMERS\"" "\"BATCH_ID\"" 7)
    ∷ []

abbrev pub account : Account
account = record {
  validation_runs = ("run-7", (7, "passed")) ∷ [];
  publication_runs = [];
  analytics = none;
  staging = none;
}

-- the connection is lost between the commit and the effect of the last statement that defines data,
-- so that the run is recorded and its answer is not heard
abbrev refuses_drop : Command → Account → Option Refusal
refuses_drop Command.drop_staging a = some (after_commit (database_error "connection lost"))
refuses_drop _ a = none

-- the swap fails after Snowflake committed what waited
abbrev refuses_swap : Command → Account → Option Refusal
refuses_swap Command.swap a = some (after_commit (database_error "SWAP failed"))
refuses_swap _ a = none

account-IsReady : IsReady context (with_status found) account
unfolding lookup is_done find_row str_eq
account-IsReady = record { validated = refl; rows = tt; shown = inl refl }

context-IsAuthorized : IsAuthorized context config report
unfolding quote_identifier is_identifier is_part is_start rendered render_relation render_template
    quote_relation candidate_schema after_slash all_parts count_text split_on last_part map_result
    push_char but_last join show show_padded storage_key lookup insert is_passed str_eq
    views_of_batch is_done find_row upper_text upper_char
context-IsAuthorized = record {
  control = _;
  has_control = refl;
  analytics = _;
  has_analytics = refl;
  staging = _;
  has_staging = refl;
  passed = refl;
  run = refl;
  batch = refl;
}

swap_promote-IsReady_example :
    IsReady context
      (with_status found)
      (swap_promote refuses_drop 9 platform context config report (settled account)).1.durable
unfolding quote_identifier is_identifier is_part is_start rendered render_relation render_template
    quote_relation candidate_schema after_slash all_parts count_text split_on last_part map_result
    push_char but_last join show show_padded storage_key lookup insert is_passed str_eq
    views_of_batch is_done find_row upper_text upper_char
swap_promote-IsReady_example =
    swap_promote-IsReady platform context config report found refuses_drop 9 account refl
      context-IsAuthorized account-IsReady

swap_promote_resumes_example :
    (c : Connection) × (swap_promote
        (λ command account. none)
        11
        platform
        context
        config
        report
        (settled (
          (swap_promote refuses_swap 9 platform context config report (settled account)).1.durable))
      ≡ (ok tt, c))
    × IsPublished context (with_status found) c.durable
unfolding quote_identifier is_identifier is_part is_start rendered render_relation render_template
    quote_relation candidate_schema after_slash all_parts count_text split_on last_part map_result
    push_char but_last join show show_padded storage_key lookup insert is_passed str_eq
    views_of_batch is_done find_row upper_text upper_char
swap_promote_resumes_example =
    swap_promote_resumes platform context config report found refuses_swap 9 11 account refl
      context-IsAuthorized account-IsReady
