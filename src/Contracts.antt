-- ===== src/Contracts.antt =====
-- src/millrace/contracts.py: the identity of a run.
use millrace.Base.{
  ℕ, suc, String, ◌<>◌, ◌&&◌, not, Option, none, some, Result, ok, raise, raise_if, value_error,
  ◌>>=◌, ◌>>◌, leb, is_empty, strip,
}
use millrace.Base.Int.{ℤ, pos}
use millrace.Base.Decimal.{show_padded}
use millrace.Streaming.Models.{DateTime, is_aware}

-- `RunState`
pub data RunState : Type 0 where
  created ingesting transforming validating published failed : RunState

-- `batch_id` is positive, and both ends are aware, or `run_context` raises.
pub record RunContext : Type 0 where
  pub run_id : String
  pub batch_id : ℕ
  pub interval_start : DateTime
  pub interval_end : DateTime

-- `hashlib.sha256(...).hexdigest()` of a text's UTF-8, `strftime("%Y-%m-%d")` and `isoformat`
pub record Platform : Type 0 where
  pub sha256_hex : String → String
  pub format_date : DateTime → String
  pub isoformat : DateTime → String
  -- `datetime.fromisoformat`, with `none` for its ValueError
  pub fromisoformat : String → Option DateTime

abbrev positive_batch : ℤ → Result ℕ
positive_batch (pos (suc n)) = ok (suc n)
positive_batch _ = raise (value_error "batch_id must be positive")

-- `RunContext(...)` with its `__post_init__`; aware datetimes compare by their instants
unfoldable pub run_context : String → ℤ → DateTime → DateTime → Result RunContext
run_context run_id batch_id interval_start interval_end = do
  raise_if (is_empty (strip run_id)) (value_error "run_id must not be empty")
  batch ← positive_batch batch_id
  raise_if (not (is_aware interval_start && is_aware interval_end))
      (value_error "data interval timestamps must include a timezone")
  raise_if (leb interval_end.instant interval_start.instant)
      (value_error "interval_start must be before interval_end")
  ok (record {
    run_id = run_id;
    batch_id = batch;
    interval_start = interval_start;
    interval_end = interval_end;
  })

abbrev pub parsed_time : Option DateTime → Result DateTime
parsed_time none = raise (value_error "Invalid isoformat string")
parsed_time (some t) = ok t

-- `t.astimezone(UTC)`
abbrev pub astimezone_utc : DateTime → DateTime
astimezone_utc t = record t { zone = some (pos 0) }

-- `RunContext.from_iso`
unfoldable pub from_iso : Platform → String → ℤ → String → String → Result RunContext
from_iso platform run_id batch_id interval_start interval_end = do
  start ← parsed_time (platform.fromisoformat interval_start)
  end ← parsed_time (platform.fromisoformat interval_end)
  raise_if (not (is_aware start && is_aware end))
      (value_error "data interval timestamps must include a timezone")
  run_context run_id batch_id (astimezone_utc start) (astimezone_utc end)

-- `RunContext.storage_key`
unfoldable pub storage_key : Platform → RunContext → String
storage_key platform context =
    platform.format_date context.interval_start
    <> ("/" <> (show_padded 10 context.batch_id <> ("_" <> platform.sha256_hex context.run_id)))
