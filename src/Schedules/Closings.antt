-- ===== src/Schedules/Closings.antt =====
-- Ending a run, whichever way, keeps the invariant of the tables.
use marvo.Base.{
  ◌+◌, refl, String, Bool, not, ◌||◌, Option, none, some, if-elim, ◌==◌, string_eq, nat_eq,
}
use marvo.Scheduling.{Instant, CronLibrary, truncate}
use marvo.Sql.{Result}
use marvo.Sql.Rows.{find_where, count_where}
use marvo.Sql.Keeps.{Keeps, Sound, Keeps-bind, commit-Keeps}
use marvo.Schedules.Tables.{
  Error, Schedule, ScheduleRun, ClaimedScheduleRun, Db, succeeded, cancelled, valid_activity_id,
  read_schedule,
}
use marvo.Schedules.Queue.{waits_as}
use marvo.Schedules.Progress.{holds}
use marvo.Schedules.Finish.{
  close, prune_schedule_runs, stamp, count_failure, set_schedule, advance_after_success,
  advance_after_cancel, finish_success, finish_success_tx, finish_cancelled, finish_cancelled_tx,
  cancel_row, cancel_pending_run, cancel_pending_tx, waits_for,
}
use marvo.Schedules.Failure.{
  ScheduleFailure, terminal, after_failure, can_retry, fail_run, finish_failure, finish_failure_tx,
  normalize_failure,
}
use marvo.Schedules.Invariant.{IsSound, update_where-IsSound}
use marvo.Schedules.Steps.{close_running-IsStep, close_waiting-IsStep, retry-IsStep}
use marvo.Schedules.Claims.{read_schedule-Keeps}
use marvo.Schedules.Notes.{holds-Runs}
use marvo.Schedules.Advances.{
  prune_schedule_runs-Keeps, edit_schedule-Keeps, after_failure-IsSchedule, after_failure-id,
  waits_as-Waits, terminal-closed, with_claim-Keeps, advance_after_success-Keeps,
  advance_after_cancel-Keeps,
}

module _ (lib : CronLibrary) (clock : Instant) where
  finish_success_tx-Keeps :
      (c : ClaimedScheduleRun) (t : Instant) → Keeps IsSound (finish_success_tx lib clock c t)
  unfolding finish_success_tx prune_schedule_runs
  finish_success_tx-Keeps c t = with_claim-Keeps lib clock c _ (λ (s, r) db sound.
      Keeps-bind IsSound (advance_after_success lib clock s r t) _
        (advance_after_success-Keeps lib clock s r t)
        (λ u db' sound'. prune_schedule_runs-Keeps s.id db' sound') _
        (update_where-IsSound (holds r.id c.run.attempt) (close succeeded "" t) db
          (close_running-IsStep (holds r.id c.run.attempt) succeeded "" t refl
            (holds-Runs r.id c.run.attempt))
          sound))

  pub finish_success-IsSound :
      (c : ClaimedScheduleRun) (finished_at : Instant) (db : Db)
      → IsSound db
      → IsSound (finish_success lib clock c finished_at db).1
  unfolding finish_success
  finish_success-IsSound c finished_at db sound =
      commit-Keeps IsSound (finish_success_tx lib clock c (truncate finished_at)) db
        (finish_success_tx-Keeps c (truncate finished_at)) sound

  finish_cancelled_tx-Keeps :
      (c : ClaimedScheduleRun) (t : Instant) → Keeps IsSound (finish_cancelled_tx lib clock c t)
  unfolding finish_cancelled_tx prune_schedule_runs
  finish_cancelled_tx-Keeps c t = with_claim-Keeps lib clock c _ (λ (s, r) db sound.
      Keeps-bind IsSound (advance_after_cancel lib clock s r t) _
        (advance_after_cancel-Keeps lib clock s r t)
        (λ u db' sound'. prune_schedule_runs-Keeps s.id db' sound') _
        (update_where-IsSound (holds r.id c.run.attempt) (close cancelled "" t) db
          (close_running-IsStep (holds r.id c.run.attempt) cancelled "" t refl
            (holds-Runs r.id c.run.attempt))
          sound))

  pub finish_cancelled-IsSound :
      (c : ClaimedScheduleRun) (finished_at : Instant) (db : Db)
      → IsSound db
      → IsSound (finish_cancelled lib clock c finished_at db).1
  unfolding finish_cancelled
  finish_cancelled-IsSound c finished_at db sound =
      commit-Keeps IsSound (finish_cancelled_tx lib clock c (truncate finished_at)) db
        (finish_cancelled_tx-Keeps c (truncate finished_at)) sound

  cancel_row-Keeps :
      (r : ScheduleRun) (t : Instant) (s : Schedule) → Keeps IsSound (cancel_row lib clock r t s)
  unfolding cancel_row prune_schedule_runs
  cancel_row-Keeps r t s db sound =
      if-elim (Sound IsSound) (count_where (waits_as r.id) db.runs == 1) _ _
        (Keeps-bind IsSound (advance_after_cancel lib clock s r t) _
          (advance_after_cancel-Keeps lib clock s r t)
          (λ u db' sound'. prune_schedule_runs-Keeps s.id db' sound') _
          (update_where-IsSound (waits_as r.id) (close cancelled "" t) db
            (close_waiting-IsStep (waits_as r.id) cancelled "" t refl (waits_as-Waits r.id)) sound))
        sound

  cancel_pending_tx-Keeps :
      (owner : String) (t : Instant) (o : Option ScheduleRun)
      → Keeps IsSound (cancel_pending_tx lib clock owner t o)
  unfolding cancel_pending_tx
  cancel_pending_tx-Keeps owner t none db sound = sound
  cancel_pending_tx-Keeps owner t (some r) db sound =
      Keeps-bind IsSound (read_schedule lib clock owner) (cancel_row lib clock r t)
        (read_schedule-Keeps lib clock owner) (cancel_row-Keeps r t) db sound

  pub cancel_pending_run-IsSound :
      (owner run_id : String) (finished_at : Instant) (db : Db)
      → IsSound db
      → IsSound (cancel_pending_run lib clock owner run_id finished_at db).1
  unfolding cancel_pending_run
  cancel_pending_run-IsSound owner run_id finished_at db sound =
      if-elim (λ (out : Result Error Bool × Db). IsSound out.1)
        (not (valid_activity_id owner) || not (valid_activity_id run_id)) _ _ sound
        (commit-Keeps IsSound
          (λ s.
            cancel_pending_tx lib clock owner (truncate finished_at)
              (find_where (waits_for lib clock owner run_id) s.runs) s)
          db
          (λ s i.
            cancel_pending_tx-Keeps owner (truncate finished_at)
              (find_where (waits_for lib clock owner run_id) s.runs) s i)
          sound)

  fail_run-Keeps :
      (f : ScheduleFailure) (c : ClaimedScheduleRun) (s : Schedule) (r : ScheduleRun) (t : Instant)
      → Keeps IsSound (fail_run lib clock f c s r t)
  unfolding fail_run
  fail_run-Keeps f c s r t db sound =
      if-elim (Sound IsSound) (can_retry f s r) _ _
        (edit_schedule-Keeps s.id (λ q. stamp t (count_failure f.error q)) (λ q. refl) (λ q h. h) _
          (update_where-IsSound (holds r.id c.run.attempt) _ db
            (retry-IsStep (holds r.id c.run.attempt) (truncate (t + f.retry_delay)) f.error t
              (holds-Runs r.id c.run.attempt))
            sound))
        (Keeps-bind IsSound (set_schedule s.id (after_failure f s r t)) _
          (edit_schedule-Keeps s.id (after_failure f s r t) (after_failure-id f s r t)
            (after_failure-IsSchedule f s r t))
          (λ u. prune_schedule_runs-Keeps s.id) _
          (update_where-IsSound (holds r.id c.run.attempt) _ db
            (close_running-IsStep (holds r.id c.run.attempt) (terminal f) f.error t
              (terminal-closed f) (holds-Runs r.id c.run.attempt))
            sound))

  finish_failure_tx-Keeps :
      (c : ClaimedScheduleRun) (f : ScheduleFailure) (t : Instant)
      → Keeps IsSound (finish_failure_tx lib clock c f t)
  unfolding finish_failure_tx
  finish_failure_tx-Keeps c f t = with_claim-Keeps lib clock c _ (λ (s, r).
      Keeps-bind IsSound (fail_run lib clock f c s r t) _ (fail_run-Keeps f c s r t)
        (λ u db sound. sound))

  pub finish_failure-IsSound :
      (c : ClaimedScheduleRun) (f : ScheduleFailure) (finished_at : Instant) (db : Db)
      → IsSound db
      → IsSound (finish_failure lib clock c f finished_at db).1
  unfolding finish_failure
  finish_failure-IsSound c f finished_at db sound =
      commit-Keeps IsSound
        (finish_failure_tx lib clock c (normalize_failure f) (truncate finished_at)) db
        (finish_failure_tx-Keeps c (normalize_failure f) (truncate finished_at)) sound
