-- ===== src/Scheduler/Worker/Fenced.antt =====
-- A worker whose run was taken from it.
use marvo.Base.{
  ℕ, zero, suc, ◌≡◌, ◌≤◌, refl, ap, arith, String, Bool, true, false, Option, none, some,
}
use marvo.Base.Partial.{Ends, ends, Ends-bind, Ends-if}
use marvo.Scheduling.{Instant, CronLibrary}
use marvo.Sql.{Result, ok, err}
use marvo.Sql.Fails.{Refused}
use marvo.Schedules.Tables
use marvo.Schedules.Tables.{Error, not_found, Schedule, ScheduleRun, ClaimedScheduleRun}
use marvo.Schedules.Fencing.{Stale, Stale-finish-Refused, Stale-notes-Refused}
use marvo.Schedules.Failure.{ScheduleFailure}
use marvo.Deliveries.Attempts.{get_elem?}
use marvo.Scheduler.Worker.{
  Space, Cause, no_cause, user_stopped, run_stopped, run_timeout, run_lease_lost, alone,
  notify_failure, notify_success, failure_of, finish_failure, finish_returned, finish_caused,
  is_user_stopped, error_text, finalize, delay_index, retry_delays,
}
use marvo.Scheduler.Notices.{Publisher, ExecutionResult, ExecutionError}

-- The index into the table of delays is in range.
pub delay_lem :
    (n : ℕ)
    → Ends (λ d. (30000000000 ≤ d) × (d ≤ 3600000000000)) (get_elem? retry_delays (delay_index n))
delay_lem zero = ends (omega arith, omega arith)
delay_lem (suc zero) = ends (omega arith, omega arith)
delay_lem (suc (suc zero)) = ends (omega arith, omega arith)
delay_lem (suc (suc (suc zero))) = ends (omega arith, omega arith)
delay_lem (suc (suc (suc (suc zero)))) = ends (omega arith, omega arith)
delay_lem (suc (suc (suc (suc (suc n))))) =
    let far : delay_index (suc (suc (suc (suc (suc n))))) ≡ 4 = ground arith in
    rw far (ends (omega arith, omega arith))

-- Any failure.
abbrev nothing : ScheduleFailure
nothing = record {
  error = "";
  retryable = false;
  is_timed_out = false;
  retry_delay = 0;
  max_attempts = 0;
}

alone-stays :
    {A : Type 0} (s : Space) (out : Result Error A × Tables.Db)
    → Refused out s.schedules
    → (alone s.activities out).1 ≡ s
alone-stays s (ok a, db) h = cc
alone-stays s (err x, db) h = ap (λ d. record s { schedules = d }) h.1

notify_failure-stays :
    (p : Publisher) (now : Instant) (e : ExecutionResult) (r : ScheduleRun) (s : Space)
    (out : Result Error ((Schedule × ScheduleRun) × Bool) × Tables.Db)
    → Refused out s.schedules
    → (notify_failure p now e r s.activities out).1 ≡ s
unfolding notify_failure
notify_failure-stays p now e r s (ok a, db) h = cc
notify_failure-stays p now e r s (err x, db) h = ap (λ d. record s { schedules = d }) h.1

notify_success-stays :
    (p : Publisher) (now : Instant) (e : ExecutionResult) (task : Schedule) (s : Space)
    (out : Result Error (Schedule × ScheduleRun) × Tables.Db)
    → Refused out s.schedules
    → (notify_success p now e task s.activities out).1 ≡ s
unfolding notify_success
notify_success-stays p now e task s (ok a, db) h = cc
notify_success-stays p now e task s (err x, db) h = ap (λ d. record s { schedules = d }) h.1

module _ (lib : CronLibrary) (clock : Instant) (p : Publisher) (c : ClaimedScheduleRun)
    (t : Instant) (s : Space) (stale : Stale c.run.id c.run.attempt s.schedules) where
  -- What the worker leaves is what it has found.
  abbrev Stays : Option (Result Error (Unit {0}) × Space) → Type 0
  Stays o = Ends (λ out. out.1 ≡ s) o

  made : (f : ScheduleFailure) → Ends (λ (g : ScheduleFailure). Unit {0}) (some f)
  made f = ends tt

  finish_failure-Stays :
      (e : ExecutionResult) (b : Bool) (error : String)
      → Stays (finish_failure lib clock p c t s e b error)
  unfolding finish_failure failure_of
  finish_failure-Stays e b error =
      Ends-bind (Ends-bind (delay_lem c.run.attempt) (λ d _. made _)) λ f _. ends (
        notify_failure-stays p clock e c.run s _
          ((Stale-finish-Refused lib clock c f t s.schedules stale).1))

  finish_returned-Stays :
      (e : ExecutionResult) (error : Option ExecutionError)
      → Stays (finish_returned lib clock p c t s e error)
  unfolding finish_returned
  finish_returned-Stays e (some x) = finish_failure-Stays e false (error_text x)
  finish_returned-Stays e none = ends (
      notify_success-stays p clock e c.schedule s _
        ((Stale-finish-Refused lib clock c nothing t s.schedules stale).0))

  finish_caused-Stays :
      (cause : Cause) (e : ExecutionResult) → Stays (finish_caused lib clock p c t s cause e)
  unfolding finish_caused
  finish_caused-Stays no_cause e = finish_returned-Stays e e.error
  finish_caused-Stays user_stopped e = finish_returned-Stays e e.error
  finish_caused-Stays run_stopped e =
      ends (alone-stays s _ ((Stale-finish-Refused lib clock c nothing t s.schedules stale).2))
  finish_caused-Stays run_timeout e = finish_failure-Stays e true _
  finish_caused-Stays run_lease_lost e =
      finish_failure-Stays (record e { retryable = true }) false _

-- A worker whose run was claimed again, or is closed or deleted, does no harm: however its execution has ended, it
-- finishes without a panic, and leaves the schedules, the runs, the activities and their deliveries as they are.
pub finalize-harmless :
    (lib : CronLibrary) (clock : Instant) (p : Publisher) (c : ClaimedScheduleRun) (t : Instant)
    (s : Space) (closing : Bool) (cause : Cause) (e : ExecutionResult)
    → Stale c.run.id c.run.attempt s.schedules
    → Ends (λ out. out.1 ≡ s) (finalize lib clock p c t s closing cause e)
unfolding finalize
finalize-harmless lib clock p c t s closing cause e stale =
    Ends-bind
      (Ends-if closing (λ _. ends refl)
        (λ _.
          Ends-if (is_user_stopped cause e.error)
            (λ _. ends (
              alone-stays s _ (
                (Stale-notes-Refused c.run.id c.run.attempt t clock "用户空间已停用" s.schedules
                  stale).2)))
            (λ _. finish_caused-Stays lib clock p c t s stale cause e)))
      (λ out h. ends h)
