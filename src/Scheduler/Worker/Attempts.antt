-- ===== src/Scheduler/Worker/Attempts.antt =====
-- A failed run that is tried again.
use marvo.Base.{
  ◌+◌, ℕ, ◌≡◌, ◌≤◌, ◌<◌, refl, sym, ap, ◌∙◌, arith, String, Bool, true, ◌||◌, some, string_eq,
  nat_eq,
}
use marvo.Base.Partial.{Ends, ends, Ends-bind, Ends-some}
use marvo.Scheduling.{truncate, Instant, CronLibrary}
use marvo.Sql.{Result, ok, err}
use marvo.Schedules.Tables
use marvo.Schedules.Tables.{Error, Schedule, ScheduleRun, ClaimedScheduleRun}
use marvo.Schedules.Failure
use marvo.Schedules.Failure.{ScheduleFailure}
use marvo.Schedules.Waits.{WaitsUntil, finish_failure-WaitsUntil}
use marvo.Schedules.Retries.{finish_failure_bound}
use marvo.Scheduler.Worker.{Space, failure_of, notify_failure, finish_failure}
use marvo.Scheduler.Notices.{Publisher, ExecutionResult}
use marvo.Scheduler.Worker.Fenced.{delay_lem}

-- What `finishFailure` tells FinishFailure, whatever the attempt.
record Allows (e : ExecutionResult) (is_timed_out : Bool) (f : ScheduleFailure) : Type 0 where
  least : 30000000000 ≤ f.retry_delay
  greatest : f.retry_delay ≤ 3600000000000
  attempts : f.max_attempts ≡ 6
  reason : f.retryable ≡ (e.retryable || is_timed_out)

failure_of-Allows :
    (e : ExecutionResult) (b : Bool) (error : String) (attempt : ℕ)
    → Ends (Allows e b) (failure_of e b error attempt)
unfolding failure_of
failure_of-Allows e b error attempt =
    Ends-bind (delay_lem attempt)
      λ d h. ends (record { least = h.0; greatest = h.1; attempts = refl; reason = refl })

-- A run that will be tried again is not announced.
notify_failure-quiet :
    (p : Publisher) (now : Instant) (e : ExecutionResult) (r : ScheduleRun) (s : Space)
    (out : Result Error ((Schedule × ScheduleRun) × Bool) × Tables.Db)
    (rows : Schedule × ScheduleRun)
    → out.0 ≡ ok (rows, true)
    → notify_failure p now e r s.activities out ≡ (ok tt, record s { schedules = out.1 })
unfolding notify_failure
notify_failure-quiet p now e r s (ok (kept, retrying), db) rows h =
    let value : (kept, retrying) ≡ (rows, true) = cc h in
    let again : retrying ≡ true = ap (λ (x : (Schedule × ScheduleRun) × Bool). x.1) value in
    rw again refl
notify_failure-quiet p now e r s (err x, db) rows h = cc

-- The time of the next attempt lies between half a minute and an hour after the failure.
in_time :
    (t delay : ℕ)
    → 30000000000 ≤ delay
    → delay ≤ 3600000000000
    → (truncate t + 30000000000 ≤ truncate (truncate t + delay))
      × (truncate (truncate t + delay) ≤ truncate t + 3600000000000)
in_time t delay low high = (omega arith, omega arith)

-- When finishFailure lets a run be tried again, its attempt was one of the first five, the failure can be retried or
-- is a timeout, the run waits in the tables for an attempt between half a minute and an hour after the (whole
-- milliseconds of the) failure, and no activity is published.
pub finish_failure_retries :
    (lib : CronLibrary) (clock : Instant) (p : Publisher) (c : ClaimedScheduleRun) (t : Instant)
    (s : Space) (e : ExecutionResult) (is_timed_out : Bool) (error : String) (f : ScheduleFailure)
    (rows : Schedule × ScheduleRun)
    → failure_of e is_timed_out error c.run.attempt ≡ some f
    → (Failure.finish_failure lib clock c f t s.schedules).0 ≡ ok (rows, true)
    → (c.run.attempt < 6)
      × ((e.retryable || is_timed_out) ≡ true)
      × ((at : Instant) × WaitsUntil at rows (Failure.finish_failure lib clock c f t s.schedules).1
          × (truncate t + 30000000000 ≤ at)
          × (at ≤ truncate t + 3600000000000))
      × (finish_failure lib clock p c t s e is_timed_out error
          ≡ some (
            ok tt,
            record s { schedules = (Failure.finish_failure lib clock c f t s.schedules).1 },
          ))
unfolding finish_failure
finish_failure_retries lib clock p c t s e b error f rows made retried =
    let out = Failure.finish_failure lib clock c f t s.schedules in
    let allowed = Ends-some (failure_of-Allows e b error c.run.attempt) made in
    let (reason, below) = finish_failure_bound lib clock c f t s.schedules rows retried in
    let (low, high) = in_time t f.retry_delay allowed.least allowed.greatest in
    (
      ground (arith, below, allowed.attempts),
      sym allowed.reason ∙ reason,
      (
        truncate (truncate t + f.retry_delay),
        finish_failure-WaitsUntil lib clock c f t s.schedules rows retried,
        low,
        high,
      ),
      rw (made, notify_failure-quiet p clock e c.run s out rows retried) refl,
    )
