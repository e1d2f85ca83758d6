-- ===== src/Service/Decisions.antt =====
-- Run decisions (analystwatch/scheduler.py).
use analyst_watch.Prelude.{◌+◌, false, Option, none, some, leb, if◌then◌else◌}
use analyst_watch.Result.{Result, ok, err}
use analyst_watch.Models.{
  Observation, SourceDefinition, RunDecision, Instant, DateTime, now_or_clock, minutes,
}
use analyst_watch.Memory.{MemoryStore, get_latest}

-- `latest.observed_at if latest else None`
abbrev pub checked_at : Option Observation → Option Instant
checked_at none = none
checked_at (some o) = some o.observed_at

abbrev pub decide_run : SourceDefinition → Instant → Option Observation → RunDecision
decide_run source current none = record {
  source_id = source.id;
  due = source.enabled;
  reason = if source.enabled then "Source has never been checked." else "Source is disabled.";
  last_checked_at = none;
  next_check_at = none;
}
decide_run source current (some latest) =
    let next = latest.observed_at + minutes source.config.monitor_interval_minutes in
    let due = leb next current in
    if source.enabled
    then record {
      source_id = source.id;
      due = due;
      reason =
          if due
          then "Monitoring interval has elapsed."
          else "Monitoring interval has not elapsed.";
      last_checked_at = some latest.observed_at;
      next_check_at = some next;
    }
    else record {
      source_id = source.id;
      due = false;
      reason = "Source is disabled.";
      last_checked_at = some latest.observed_at;
      next_check_at = none;
    }

unfoldable pub run_decision :
    Instant → MemoryStore → SourceDefinition → Option DateTime → Result RunDecision
unfolding get_latest
run_decision clock st source now = elim (get_latest st source.id) [
  | err e ↦ err e
  | ok latest ↦ ok (decide_run source (now_or_clock now clock) latest)
]
