-- ===== src/Schedules/Failure.antt =====
-- internal/store/schedule.go: `FinishFailure`, which retries a run or closes it.
use marvo.Base.{ℕ, ◌+◌, String, Bool, ◌&&◌, none, some, ltb, if◌then◌else◌, string_eq, nat_eq}
use marvo.Scheduling.{Instant, Duration, CronLibrary, truncate}
use marvo.Sql.{Result, ok, err, Exec, Tx, ◌>>=◌, ◌>>◌, pure, commit, and_then}
use marvo.Schedules.Tables.{
  Error, Schedule, ScheduleRun, ClaimedScheduleRun, Db, paused, RunStatus, waiting_retry, failed,
  timed_out, is_active, update_runs, normalize_schedule_error,
}
use marvo.Schedules.Progress.{holds}
use marvo.Schedules.Finish.{
  claimed_rows, close, is_current, drives, set_schedule, stamp, count_failure, prune_schedule_runs,
  reread,
}

pub record ScheduleFailure : Type 0 where
  pub error : String
  pub retryable : Bool
  pub is_timed_out : Bool
  pub retry_delay : Duration
  pub max_attempts : ℕ

-- A limit below one is one; a negative limit is 0 here.
abbrev pub normalize_failure : ScheduleFailure → ScheduleFailure
normalize_failure f = record f {
  error = normalize_schedule_error f.error;
  max_attempts = if ltb f.max_attempts 1 then 1 else f.max_attempts;
}

abbrev pub can_retry : ScheduleFailure → Schedule → ScheduleRun → Bool
can_retry f s r =
    f.retryable && ltb r.attempt f.max_attempts && is_active s.status && is_current s r

-- The SET list of a run that waits for its next attempt.
abbrev pub retry : Instant → String → Instant → ScheduleRun → ScheduleRun
retry retry_at error finished_at r = record r {
  status = waiting_retry;
  next_attempt_at = some retry_at;
  lease_until = none;
  error = error;
  finished_at = none;
  updated_at = finished_at;
}

-- A natural occurrence that fails for good pauses its schedule.
abbrev pub pause_failed : Schedule → Schedule
pause_failed s = record s { status = paused; paused_reason = "failure" }

abbrev pub after_failure : ScheduleFailure → Schedule → ScheduleRun → Instant → Schedule → Schedule
after_failure f s r t q =
    if drives s r
    then stamp t (pause_failed (count_failure f.error q))
    else if is_current s r
    then stamp t (count_failure f.error q)
    else stamp t q

abbrev pub terminal : ScheduleFailure → RunStatus
terminal f = if f.is_timed_out then timed_out else failed

module _ (lib : CronLibrary) (clock : Instant) where
  unfoldable pub fail_run :
      ScheduleFailure
      → ClaimedScheduleRun
      → Schedule
      → ScheduleRun
      → Instant
      → Tx Db Error (Unit {0})
  fail_run f c s r t db =
      if can_retry f s r
      then (update_runs (holds r.id c.run.attempt) (retry (truncate (t + f.retry_delay)) f.error t)
            >> set_schedule s.id (λ q. stamp t (count_failure f.error q)))
          db
      else (update_runs (holds r.id c.run.attempt) (close (terminal f) f.error t)
            >> set_schedule s.id (after_failure f s r t)
            >> prune_schedule_runs s.id)
          db

  unfoldable pub finish_failure_tx :
      ClaimedScheduleRun → ScheduleFailure → Instant → Tx Db Error ((Schedule × ScheduleRun) × Bool)
  unfolding fail_run
  finish_failure_tx c f t = do
    (s, r) ← claimed_rows lib clock c
    fail_run f c s r t
    pure ((s, r), can_retry f s r)

  unfoldable pub reread_retried :
      (Schedule × ScheduleRun) × Bool → Db → Result Error ((Schedule × ScheduleRun) × Bool)
  reread_retried (rows, retried) db = elim (reread lib clock rows db) [
    | err e ↦ err e
    | ok read ↦ ok (read, retried)
  ]

  -- The last part of the result says whether the run will be retried.
  unfoldable pub finish_failure :
      ClaimedScheduleRun
      → ScheduleFailure
      → Instant
      → Exec Db Error ((Schedule × ScheduleRun) × Bool)
  unfolding finish_failure_tx reread_retried
  finish_failure c f finished_at =
      and_then (commit (finish_failure_tx c (normalize_failure f) (truncate finished_at)))
        reread_retried
