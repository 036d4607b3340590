-- ===== src/Orchestration/Cutoff.antt =====
-- The identity of a scheduled run and of a backfill: stable_run_id and capture_cutoff of
-- src/millrace/orchestration/runtime.py, and _descriptor of src/millrace/orchestration/__main__.py.
use mathlib.Core.Path.{subst}
use millrace.Base.{
  ℕ, suc, code, ◌==◌, if◌then◌else◌, String, ◌<>◌, true, false, Option, none, some, Result, ok,
  raise, runtime_error, ◌>>=◌, ◌≡◌, refl, ap, ◌∙◌, leb, first_chars, is_empty, is_empty-strip,
  starts_visible-append, is_space, strip, sym, bind-eq-ok, ok-path,
}
use millrace.Base.Int.{ℤ, pos, negsuc}
use millrace.Base.Decimal.{show}
use millrace.Contracts.{Platform, astimezone_utc, parsed_time, from_iso, run_context}
use millrace.Streaming.Json.{Library}
use millrace.Streaming.Models.{DateTime, is_aware}
use millrace.Validation.Identifiers.{IdentifierCase, quote_identifier, quote_relation}
use millrace.Orchestration.{CutoffConfig, OrchestrationConfig}
use millrace.Orchestration.Runtime.{RunDescriptor, Machine, context_from_descriptor}

-- `str(n)`
abbrev show_int : ℤ → String
show_int (pos n) = show n
show_int (negsuc n) = "-" <> show (suc n)

-- `text.replace("Z", "+00:00")`
unfoldable pub replace_z : String → String
replace_z String.[] = ""
replace_z (String.◌∷◌ c s) =
    let rest = replace_z s in if code c == b'Z' then "+00:00" <> rest else String.◌∷◌ c rest

-- The source's answer to the query of the cut-off.
pub record IsAnswered (max_batch : String → String → String → DateTime → Result (Option ℤ))
    (cutoff : CutoffConfig) (interval_end : DateTime) (answered : ℤ) : Type 0 where
  pub relation : String
  pub batch : String
  pub timestamp : String
  pub has_relation : quote_relation IdentifierCase.preserve cutoff.relation ≡ ok relation
  pub has_batch : quote_identifier IdentifierCase.preserve cutoff.batch_column ≡ ok batch
  pub has_timestamp :
      quote_identifier IdentifierCase.preserve cutoff.event_timestamp_column ≡ ok timestamp
  pub answer : max_batch relation batch timestamp interval_end ≡ ok (some answered)

module _ (platform : Platform) (stamp : DateTime → String) where
  -- what follows the first word; `stamp` is the format `%Y%m%dT%H%M%S`
  abbrev identity_suffix : DateTime → DateTime → ℤ → String
  identity_suffix interval_start interval_end batch_id =
      let identity =
        platform.isoformat interval_start
        <> ("|" <> (platform.isoformat interval_end <> ("|" <> show_int batch_id))) in
      stamp interval_start
      <> ("_" <> (show_int batch_id <> ("_" <> first_chars 16 (platform.sha256_hex identity))))

  -- `stable_run_id`
  unfoldable pub stable_run_id : DateTime → DateTime → ℤ → String
  stable_run_id interval_start interval_end batch_id =
      "millrace_" <> identity_suffix interval_start interval_end batch_id

  abbrev pub descriptor_of : DateTime → DateTime → ℤ → RunDescriptor
  descriptor_of interval_start interval_end batch_id = record {
    run_id = stable_run_id interval_start interval_end batch_id;
    batch_id = batch_id;
    interval_start = platform.isoformat interval_start;
    interval_end = platform.isoformat interval_end;
  }

  abbrev found_batch : Option ℤ → Result ℤ
  found_batch none = raise (runtime_error "no closed source batch exists for the data interval")
  found_batch (some batch_id) = ok batch_id

  -- `capture_cutoff`; `max_batch` is the query's answer for the quoted relation, batch column and
  -- timestamp column and the end of the interval, `none` for no row or NULL
  unfoldable pub capture_cutoff :
      (String → String → String → DateTime → Result (Option ℤ))
      → CutoffConfig
      → DateTime
      → DateTime
      → Result RunDescriptor
  capture_cutoff max_batch cutoff interval_start interval_end = do
    relation ← quote_relation IdentifierCase.preserve cutoff.relation
    batch ← quote_identifier IdentifierCase.preserve cutoff.batch_column
    timestamp ← quote_identifier IdentifierCase.preserve cutoff.event_timestamp_column
    row ← max_batch relation batch timestamp interval_end
    batch_id ← found_batch row
    ok (descriptor_of interval_start interval_end batch_id)

  -- `_descriptor`, of the arguments
  unfoldable pub backfill_descriptor : ℤ → String → String → Result RunDescriptor
  backfill_descriptor batch_id start_text end_text = do
    interval_start ← parsed_time (platform.fromisoformat (replace_z start_text))
    interval_end ← parsed_time (platform.fromisoformat (replace_z end_text))
    ok (descriptor_of interval_start interval_end batch_id)

  found_batch-eq :
      (row : Option ℤ) (batch_id : ℤ) → found_batch row ≡ ok batch_id → row ≡ some batch_id
  found_batch-eq none batch_id h = cc
  found_batch-eq (some b) batch_id h = ap some (ok-path h)

  stable_run_id-is_empty :
      (interval_start interval_end : DateTime) (batch_id : ℤ)
      → is_empty (strip (stable_run_id interval_start interval_end batch_id)) ≡ false
  unfolding stable_run_id is_space
  stable_run_id-is_empty interval_start interval_end batch_id = is_empty-strip _ (
      starts_visible-append "millrace_" (identity_suffix interval_start interval_end batch_id) refl)

  module _ (round_trip : (t : DateTime) → platform.fromisoformat (platform.isoformat t) ≡ some t)
      (interval_start interval_end : DateTime) where
    -- the context of every stage of the run with the descriptor
    from_iso-descriptor_of :
        (n : ℕ)
        → is_aware interval_start ≡ true
        → is_aware interval_end ≡ true
        → leb interval_end.instant interval_start.instant ≡ false
        → from_iso platform
            (stable_run_id interval_start interval_end (pos (suc n)))
            (pos (suc n))
            (platform.isoformat interval_start)
            (platform.isoformat interval_end)
          ≡ ok (record {
            run_id = stable_run_id interval_start interval_end (pos (suc n));
            batch_id = suc n;
            interval_start = astimezone_utc interval_start;
            interval_end = astimezone_utc interval_end;
          })
    unfolding from_iso run_context
    from_iso-descriptor_of n aware_start aware_end order =
        rw
          (
            round_trip interval_start,
            round_trip interval_end,
            aware_start,
            aware_end,
            order,
            stable_run_id-is_empty interval_start interval_end (pos (suc n)),
          )
          refl

    -- Where the cut-off of a run is captured, the source answered its query, with the quoted names
    -- of the configuration and the end of the interval, with the batch of the descriptor, and every
    -- stage of the run works with one context, of that batch and the interval. The batch is
    -- positive, the ends are aware and in order, and `fromisoformat` reads what `isoformat` writes.
    pub capture_cutoff-context_from_descriptor :
        (machine : Machine) (lib : Library) (config : OrchestrationConfig)
        (max_batch : String → String → String → DateTime → Result (Option ℤ)) (n : ℕ)
        (descriptor : RunDescriptor)
        → is_aware interval_start ≡ true
        → is_aware interval_end ≡ true
        → leb interval_end.instant interval_start.instant ≡ false
        → capture_cutoff max_batch config.cutoff interval_start interval_end ≡ ok descriptor
        → descriptor.batch_id ≡ pos (suc n)
        → IsAnswered max_batch config.cutoff interval_end (pos (suc n))
          × (context_from_descriptor machine platform lib config descriptor
              ≡ ok (record {
                run_id = stable_run_id interval_start interval_end (pos (suc n));
                batch_id = suc n;
                interval_start = astimezone_utc interval_start;
                interval_end = astimezone_utc interval_end;
              }))
    unfolding capture_cutoff context_from_descriptor
    capture_cutoff-context_from_descriptor machine lib config max_batch n descriptor aware_start
          aware_end order h positive =
        let (relation, a, h1) =
          bind-eq-ok (quote_relation IdentifierCase.preserve config.cutoff.relation) _ h in
        let (batch, b, h2) =
          bind-eq-ok (quote_identifier IdentifierCase.preserve config.cutoff.batch_column) _ h1 in
        let (timestamp, c, h3) =
          bind-eq-ok (quote_identifier IdentifierCase.preserve config.cutoff.event_timestamp_column)
            _ h2 in
        let (row, d, h4) = bind-eq-ok (max_batch relation batch timestamp interval_end) _ h3 in
        let (batch_id, e, h5) = bind-eq-ok (found_batch row) _ h4 in
        let same : descriptor_of interval_start interval_end batch_id ≡ descriptor = ok-path h5 in
        let number : batch_id ≡ pos (suc n) = ap (λ z. z.batch_id) same ∙ positive in
        let found : row ≡ some (pos (suc n)) = found_batch-eq row _ (e ∙ ap ok number) in
        (
          record {
            relation = relation;
            batch = batch;
            timestamp = timestamp;
            has_relation = a;
            has_batch = b;
            has_timestamp = c;
            answer = d ∙ ap ok found;
          },
          subst
              (λ z.
                from_iso platform z.run_id z.batch_id z.interval_start z.interval_end
                ≡ ok (record {
                  run_id = stable_run_id interval_start interval_end (pos (suc n));
                  batch_id = suc n;
                  interval_start = astimezone_utc interval_start;
                  interval_end = astimezone_utc interval_end;
                }))
              (ap (descriptor_of interval_start interval_end) (sym number) ∙ same)
              (from_iso-descriptor_of n aware_start aware_end order),
        )
