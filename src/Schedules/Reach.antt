-- ===== src/Schedules/Reach.antt =====
-- The histories of the tables: any sequence of the store's methods, each at its own time and with any result of the
-- drawn ids. SQLite runs the transactions one after the other.
use marvo.Base.{ℕ, String, [], ℤ, arith}
use marvo.Scheduling.{Instant, Duration, CronLibrary}
use marvo.Sql.Rows.{count_where}
use marvo.Schedules.Tables.{ClaimedScheduleRun, Db}
use marvo.Schedules.Edit.{ScheduleInput, create, update, pause, resume, complete, delete}
use marvo.Schedules.Queue.{run_now, claim_due}
use marvo.Schedules.Progress.{
  renew_lease, set_run_session, set_run_request_message, set_run_response_message,
  set_adaptive_next, interrupt_run,
}
use marvo.Schedules.Finish.{finish_success, finish_cancelled, cancel_pending_run}
use marvo.Schedules.Failure.{ScheduleFailure, finish_failure}
use marvo.Schedules.Invariant.{IsSound}
use marvo.Schedules.Changes.{
  create-IsSound, update-IsSound, pause-IsSound, resume-IsSound, complete-IsSound, delete-IsSound,
}
use marvo.Schedules.Claims.{run_now-IsSound, claim_due-IsSound}
use marvo.Schedules.Notes.{
  renew_lease-IsSound, set_run_session-IsSound, set_run_request_message-IsSound,
  set_run_response_message-IsSound, set_adaptive_next-IsSound, interrupt_run-IsSound,
}
use marvo.Schedules.Closings.{
  finish_success-IsSound, finish_cancelled-IsSound, cancel_pending_run-IsSound,
  finish_failure-IsSound,
}

abbrev pub empty_db : Db
empty_db = record { schedules = []; runs = [] }

-- One call of a method that changes the tables.
pub data Call : Type 0 where
  created : String → ScheduleInput → Instant → Call
  updated : String → ℕ → ScheduleInput → Instant → Call
  paused : String → ℕ → String → Instant → Call
  resumed : String → ℕ → Instant → Call
  completed : String → ℕ → Instant → Call
  deleted : String → ℕ → Call
  run_at_once : String → String → String → Instant → Call
  claimed : String → Instant → Duration → Call
  renewed : String → ℕ → Instant → Instant → Call
  session_set : String → String → ℕ → String → Instant → Call
  request_set : String → ℕ → String → Instant → Call
  response_set : String → ℕ → String → Instant → Call
  proposed : String → ℤ → Instant → Call
  interrupted : String → ℕ → Instant → String → Call
  succeeded : ClaimedScheduleRun → Instant → Call
  failed : ClaimedScheduleRun → ScheduleFailure → Instant → Call
  cancelled : ClaimedScheduleRun → Instant → Call
  withdrawn : String → String → Instant → Call

module _ (lib : CronLibrary) where
  -- The tables after a call during which the clock shows `clock`.
  unfoldable pub after : Instant → Call → Db → Db
  after clock (created id input now) db = (create lib clock id input now db).1
  after clock (updated id revision input now) db = (update lib clock id revision input now db).1
  after clock (paused id revision reason now) db = (pause lib clock id revision reason now db).1
  after clock (resumed id revision now) db = (resume lib clock id revision now db).1
  after clock (completed id revision now) db = (complete lib clock id revision now db).1
  after clock (deleted id revision) db = (delete lib clock id revision db).1
  after clock (run_at_once id run_id key now) db = (run_now lib clock id run_id key now db).1
  after clock (claimed run_id now lease) db = (claim_due lib clock run_id now lease db).1
  after clock (renewed id attempt until now) db = (renew_lease id attempt until now db).1
  after clock (session_set owner id attempt session now) db =
      (set_run_session owner id attempt session now db).1
  after clock (request_set id attempt message now) db =
      (set_run_request_message id attempt message now db).1
  after clock (response_set id attempt message now) db =
      (set_run_response_message id attempt message now db).1
  after clock (proposed id delay now) db = (set_adaptive_next lib clock id delay now db).1
  after clock (interrupted id attempt retry_at reason) db =
      (interrupt_run clock id attempt retry_at reason db).1
  after clock (succeeded c t) db = (finish_success lib clock c t db).1
  after clock (failed c f t) db = (finish_failure lib clock c f t db).1
  after clock (cancelled c t) db = (finish_cancelled lib clock c t db).1
  after clock (withdrawn owner id t) db = (cancel_pending_run lib clock owner id t db).1

  pub data Reach : Db → Type 0 where
    start : Reach empty_db
    step : (clock : Instant) → (call : Call) → (db : Db) → Reach db → Reach (after clock call db)

  after-IsSound :
      (clock : Instant) (call : Call) (db : Db) → IsSound db → IsSound (after clock call db)
  unfolding after
  after-IsSound clock (created id input now) db sound =
      create-IsSound lib clock id input now db sound
  after-IsSound clock (updated id revision input now) db sound =
      update-IsSound lib clock id revision input now db sound
  after-IsSound clock (paused id revision reason now) db sound =
      pause-IsSound lib clock id revision reason now db sound
  after-IsSound clock (resumed id revision now) db sound =
      resume-IsSound lib clock id revision now db sound
  after-IsSound clock (completed id revision now) db sound =
      complete-IsSound lib clock id revision now db sound
  after-IsSound clock (deleted id revision) db sound = delete-IsSound lib clock id revision db sound
  after-IsSound clock (run_at_once id run_id key now) db sound =
      run_now-IsSound lib clock id run_id key now db sound
  after-IsSound clock (claimed run_id now lease) db sound =
      claim_due-IsSound lib clock run_id now lease db sound
  after-IsSound clock (renewed id attempt until now) db sound =
      renew_lease-IsSound id attempt until now db sound
  after-IsSound clock (session_set owner id attempt session now) db sound =
      set_run_session-IsSound owner id attempt session now db sound
  after-IsSound clock (request_set id attempt message now) db sound =
      set_run_request_message-IsSound id attempt message now db sound
  after-IsSound clock (response_set id attempt message now) db sound =
      set_run_response_message-IsSound id attempt message now db sound
  after-IsSound clock (proposed id delay now) db sound =
      set_adaptive_next-IsSound lib clock id delay now db sound
  after-IsSound clock (interrupted id attempt retry_at reason) db sound =
      interrupt_run-IsSound clock id attempt retry_at reason db sound
  after-IsSound clock (succeeded c t) db sound = finish_success-IsSound lib clock c t db sound
  after-IsSound clock (failed c f t) db sound = finish_failure-IsSound lib clock c f t db sound
  after-IsSound clock (cancelled c t) db sound = finish_cancelled-IsSound lib clock c t db sound
  after-IsSound clock (withdrawn owner id t) db sound =
      cancel_pending_run-IsSound lib clock owner id t db sound

  empty-IsSound : IsSound empty_db
  unfolding count_where
  empty-IsSound = record {
    one_run = λ id. omega arith;
    one_open = λ id. omega arith;
    runs_shaped = tt;
    one_schedule = λ id. omega arith;
    schedules_shaped = tt;
  }

  -- Whatever methods were called, in whatever order and at whatever times, keys are unique, no
  -- schedule has two runs that are queued, running or waiting, a run has a lease exactly while
  -- it runs and a next attempt exactly while it waits, a closed run knows when it ended, a run that
  -- runs or waits for a retry has counted an attempt, and an active schedule has a next run.
  pub Reach-IsSound : (db : Db) → Reach db → IsSound db
  Reach-IsSound _ start = empty-IsSound
  Reach-IsSound _ (step clock call db reach) = after-IsSound clock call db (Reach-IsSound db reach)
