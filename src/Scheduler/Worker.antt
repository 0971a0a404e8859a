-- ===== src/Scheduler/Worker.antt =====
-- internal/scheduler/manager.go: what becomes of a run when its execution has returned: the rest of the goroutine
-- of `startWorker`, and `finishFailure`. The executor's result and the cause that its
-- context was cancelled with are arguments; the callbacks that only tell the user's clients are left out. `none`
-- is a panic.
pub mod Fenced
pub mod Once
pub mod Attempts
use Prim.Native.String.{len, ◌++◌}
use marvo.Base.{
  ℕ, ◌+◌, ◌-◌, String, Bool, true, false, not, ◌&&◌, ◌||◌, Option, none, some, List, [], ◌∷◌, leb,
  if◌then◌else◌, ◌==◌, string_eq, nat_eq, length, trim_space, cut_bytes,
}
use marvo.Base.Partial.{◌>>=◌}
use marvo.Scheduling.{Instant, Duration, CronLibrary}
use marvo.Sql.{Result, ok, err}
use marvo.Schedules.Tables
use marvo.Schedules.Tables.{
  Error, not_found, conflict, Schedule, ScheduleRun, ClaimedScheduleRun, is_paused, is_scheduled,
}
use marvo.Schedules.Progress.{interrupt_run}
use marvo.Schedules.Finish.{finish_success, finish_cancelled}
use marvo.Schedules.Failure
use marvo.Schedules.Failure.{ScheduleFailure}
use marvo.Deliveries.{Connector}
use marvo.Deliveries.Attempts.{get_elem?}
use marvo.Activities
use marvo.Activities.{kind_notice, max_content_bytes}
use marvo.Activities.Input.{ActivityPublish}
use marvo.Activities.Publish.{publish, has_source_message}
use marvo.Scheduler.Notices.{
  ExecutionError, stopped, failed_with, ExecutionResult, Publisher, announced, failure_notice,
  publish_fallback_activity,
}

-- context.Cause(runContext): nothing, or one of the errors of the package.
pub data Cause : Type 0 where
  no_cause user_stopped run_stopped run_timeout run_lease_lost : Cause

-- The tables of a user that a worker writes.
pub record Space : Type 0 where
  pub schedules : Tables.Db
  pub activities : Activities.Db

abbrev pub retry_delays : List Duration
retry_delays = 30000000000 ∷ 60000000000 ∷ 300000000000 ∷ 900000000000 ∷ 3600000000000 ∷ []

abbrev pub delay_index : ℕ → ℕ
delay_index attempt =
    if leb (length retry_delays) (attempt - 1) then length retry_delays - 1 else attempt - 1

-- What `finishFailure` tells FinishFailure.
unfoldable pub failure_of : ExecutionResult → Bool → String → ℕ → Option ScheduleFailure
failure_of e is_timed_out error attempt = do
  delay ← get_elem? retry_delays (delay_index attempt)
  some (record {
    error = error;
    retryable = e.retryable || is_timed_out;
    is_timed_out = is_timed_out;
    retry_delay = delay;
    max_attempts = length retry_delays + 1;
  })

forgive_missing : Error → Result Error (Unit {0})
forgive_missing not_found = ok tt
forgive_missing x = err x

-- What `finishFailure` does after FinishFailure.
unfoldable pub notify_failure :
    Publisher
    → Instant
    → ExecutionResult
    → ScheduleRun
    → Activities.Db
    → Result Error ((Schedule × ScheduleRun) × Bool) × Tables.Db
    → Result Error (Unit {0}) × Space
unfolding forgive_missing
notify_failure p now e claimed activities (err x, db) =
    (forgive_missing x, record { schedules = db; activities = activities })
notify_failure p now e claimed activities (ok ((updated, finished), retrying), db) = (
  ok tt,
  record {
    schedules = db;
    activities =
        if not retrying && not (updated.session_id == "")
        then announced p now (failure_notice e claimed updated finished) activities
        else activities;
  },
)

-- What the worker does after FinishSuccess.
unfoldable pub notify_success :
    Publisher
    → Instant
    → ExecutionResult
    → Schedule
    → Activities.Db
    → Result Error (Schedule × ScheduleRun) × Tables.Db
    → Result Error (Unit {0}) × Space
notify_success p now e s activities (err x, db) =
    (err x, record { schedules = db; activities = activities })
notify_success p now e s activities (ok rows, db) = (
  ok tt,
  record {
    schedules = db;
    activities =
        if not (e.session_id == "")
          && not (e.message_id == "")
          && not (trim_space e.final_text == "")
        then publish_fallback_activity p now s e activities
        else activities;
  },
)

-- The tables after a call of the store of schedules alone.
abbrev pub alone :
    {A : Type 0} → Activities.Db → Result Error A × Tables.Db → Result Error (Unit {0}) × Space
alone activities (err x, db) = (err x, record { schedules = db; activities = activities })
alone activities (ok a, db) = (ok tt, record { schedules = db; activities = activities })

unfoldable pub is_user_stopped : Cause → Option ExecutionError → Bool
is_user_stopped user_stopped error = true
is_user_stopped cause (some stopped) = true
is_user_stopped cause _ = false

-- The text of an error.
abbrev pub error_text : ExecutionError → String
error_text stopped = "automatic task user disabled"
error_text (failed_with text) = text

-- Another owner has taken the run, or it is gone.
unfoldable pub forgive : Result Error (Unit {0}) → Result Error (Unit {0})
forgive (err conflict) = ok tt
forgive (err not_found) = ok tt
forgive out = out

-- `clock` is time.Now() in the stores, `t` the manager's own reading of the clock.
module _ (lib : CronLibrary) (clock : Instant) (p : Publisher) (c : ClaimedScheduleRun)
    (t : Instant) (s : Space) where
  unfoldable pub finish_failure :
      ExecutionResult → Bool → String → Option (Result Error (Unit {0}) × Space)
  finish_failure e is_timed_out error = do
    f ← failure_of e is_timed_out error c.run.attempt
    some (
        notify_failure p clock e c.run s.activities
          (Failure.finish_failure lib clock c f t s.schedules))

  unfoldable pub finish_returned :
      ExecutionResult → Option ExecutionError → Option (Result Error (Unit {0}) × Space)
  finish_returned e (some x) = finish_failure e false (error_text x)
  finish_returned e none =
      some (
        notify_success p clock e c.schedule s.activities (finish_success lib clock c t s.schedules))

  unfoldable pub finish_caused : Cause → ExecutionResult → Option (Result Error (Unit {0}) × Space)
  finish_caused run_stopped e =
      some (alone s.activities (finish_cancelled lib clock c t s.schedules))
  finish_caused run_timeout e = finish_failure e true "自动任务单次执行超时"
  finish_caused run_lease_lost e =
      finish_failure (record e { retryable = true }) false "自动任务执行状态暂时不可用"
  finish_caused _ e = finish_returned e e.error

  -- The switch of `startWorker`; `closing` says that the manager itself stops.
  unfoldable pub finalize :
      Bool → Cause → ExecutionResult → Option (Result Error (Unit {0}) × Space)
  unfolding is_user_stopped finish_caused finish_returned
  finalize closing cause e = do
    (out, after) ←
        (if closing
          then some (ok tt, s)
          else if is_user_stopped cause e.error
          then some (
              alone s.activities
                (interrupt_run clock c.run.id c.run.attempt t "用户空间已停用" s.schedules))
          else finish_caused cause e)
    some (forgive out, after)
