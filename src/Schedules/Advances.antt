-- ===== src/Schedules/Advances.antt =====
-- What the end of a run does to its schedule keeps the invariant of the tables.
use marvo.Base.{
  ◌≡◌, refl, arith, String, false, ◌&&◌, Option, none, some, if-elim, ◌==◌, string_eq, nat_eq, ℤ,
  pos,
}
use marvo.Scheduling.{Instant, CronLibrary}
use marvo.Scheduling.Calendar.{next}
use marvo.Sql.{Tx, ◌>>=◌, require}
use marvo.Sql.Keeps.{Keeps, Sound, Keeps-bind, Keeps-then, Keeps-require}
use marvo.Schedules.Tables.{
  Error, conflict, Schedule, ScheduleRun, ClaimedScheduleRun, Db, is_open, is_running, read_run,
  read_schedule,
}
use marvo.Schedules.Queue.{waits_as}
use marvo.Schedules.Finish.{
  survives, prune_schedule_runs, claimed_rows, next_run, next_found, stamp, clear_failures, move_on,
  recover, set_schedule, drives, is_current, proposal_of, advance_after_success,
  advance_after_cancel,
}
use marvo.Schedules.Failure.{ScheduleFailure, terminal, after_failure}
use marvo.Schedules.Invariant.{IsSound, IsSchedule, update_schedules-Keeps, keep_runs-IsSound}
use marvo.Schedules.Steps.{Waits}
use marvo.Schedules.Claims.{read_run-Keeps, read_schedule-Keeps}

pub prune_schedule_runs-Keeps : (id : String) → Keeps IsSound (prune_schedule_runs id)
unfolding prune_schedule_runs
prune_schedule_runs-Keeps id db sound = keep_runs-IsSound (survives id db.runs) db sound

-- A change of the schedule that keeps its key and its shape, whatever the row.
pub edit_schedule-Keeps :
    (id : String) (f : Schedule → Schedule)
    → ((s : Schedule) → (f s).id ≡ s.id)
    → ((s : Schedule) → IsSchedule s → IsSchedule (f s))
    → Keeps IsSound (set_schedule id f)
edit_schedule-Keeps id f same shape =
    update_schedules-Keeps (λ s. s.id == id) f
      (record { same_id = same; keeps_shape = λ s h. shape s })

-- The next run of a schedule, or its completion, under any stamp.
moved-Keeps :
    (id : String) (o : Option Instant) (f : Schedule → Schedule)
    → ((s : Schedule) → (f s).id ≡ s.id)
    → ((s : Schedule) → IsSchedule s → IsSchedule (f s))
    → Keeps IsSound (set_schedule id (λ s. f (move_on o s)))
moved-Keeps id none f same shape =
    edit_schedule-Keeps id (λ s. f (move_on none s)) (λ s. same (move_on none s))
      (λ s h. shape (move_on none s) (refl, h.1))
moved-Keeps id (some t) f same shape =
    edit_schedule-Keeps id (λ s. f (move_on (some t) s)) (λ s. same (move_on (some t) s))
      (λ s h. shape (move_on (some t) s) (ground arith, h.1))

pub after_failure-IsSchedule :
    (f : ScheduleFailure) (s : Schedule) (r : ScheduleRun) (t : Instant) (q : Schedule)
    → IsSchedule q
    → IsSchedule (after_failure f s r t q)
after_failure-IsSchedule f s r t q h =
    if-elim IsSchedule (drives s r) _ _ (refl, h.1) (if-elim IsSchedule (is_current s r) _ _ h h)

pub after_failure-id :
    (f : ScheduleFailure) (s : Schedule) (r : ScheduleRun) (t : Instant) (q : Schedule)
    → (after_failure f s r t q).id ≡ q.id
after_failure-id f s r t q =
    if-elim (λ (x : Schedule). x.id ≡ q.id) (drives s r) _ _ refl
      (if-elim (λ (x : Schedule). x.id ≡ q.id) (is_current s r) _ _ refl refl)

pub waits_as-Waits : (id : String) → Waits (waits_as id)
waits_as-Waits id r h = ground arith

pub terminal-closed : (f : ScheduleFailure) → is_open (terminal f) ≡ false
terminal-closed f = if-elim (λ s. is_open s ≡ false) f.is_timed_out _ _ refl refl

module _ (lib : CronLibrary) (clock : Instant) where
  next_found-Keeps : (o : Option (Option Instant)) → Keeps IsSound (next_found lib clock o)
  unfolding next_found
  next_found-Keeps none db sound = tt
  next_found-Keeps (some o) db sound = sound

  next_run-Keeps : (s : Schedule) (t : Instant) (p : ℤ) → Keeps IsSound (next_run lib clock s t p)
  unfolding next_run
  next_run-Keeps s t p = next_found-Keeps (next lib s.definition clock t p)

  -- Rows that were read and whose claim was checked, whatever is done with them.
  pub with_claim-Keeps :
      {A : Type 0} (c : ClaimedScheduleRun) (k : Schedule × ScheduleRun → Tx Db Error A)
      → ((rows : Schedule × ScheduleRun) → Keeps IsSound (k rows))
      → Keeps IsSound (claimed_rows lib clock c >>= k)
  unfolding claimed_rows
  with_claim-Keeps c k keeps =
      Keeps-bind IsSound (claimed_rows lib clock c) k
        (Keeps-bind IsSound (read_run c.run.id) _ (read_run-Keeps c.run.id) (λ run.
          Keeps-bind IsSound (read_schedule lib clock run.schedule_id) _
            (read_schedule-Keeps lib clock run.schedule_id)
            (λ current.
              Keeps-then IsSound
                (require (is_running run.status && run.attempt == c.run.attempt) conflict) _
                (Keeps-require IsSound (is_running run.status && run.attempt == c.run.attempt)
                  conflict)
                (λ db sound. sound))))
        keeps

  pub advance_after_success-Keeps :
      (s : Schedule) (r : ScheduleRun) (t : Instant)
      → Keeps IsSound (advance_after_success lib clock s r t)
  unfolding advance_after_success
  advance_after_success-Keeps s r t db sound =
      if-elim (Sound IsSound) (drives s r) _ _
        (Keeps-bind IsSound (next_run lib clock s t (proposal_of r.adaptive_next_seconds)) _
          (next_run-Keeps s t (proposal_of r.adaptive_next_seconds))
          (λ o. moved-Keeps s.id o (λ q. stamp t (clear_failures q)) (λ q. refl) (λ q h. h)) db
          sound)
        (if-elim (Sound IsSound) (is_current s r) _ _
          (edit_schedule-Keeps s.id (λ q. stamp t (recover q)) (λ q. refl) (λ q h. h) db sound)
          (edit_schedule-Keeps s.id (stamp t) (λ q. refl) (λ q h. h) db sound))

  pub advance_after_cancel-Keeps :
      (s : Schedule) (r : ScheduleRun) (t : Instant)
      → Keeps IsSound (advance_after_cancel lib clock s r t)
  unfolding advance_after_cancel
  advance_after_cancel-Keeps s r t db sound =
      if-elim (Sound IsSound) (drives s r) _ _
        (Keeps-bind IsSound (next_run lib clock s t (pos 0)) _ (next_run-Keeps s t (pos 0))
          (λ o. moved-Keeps s.id o (stamp t) (λ q. refl) (λ q h. h)) db sound)
        (edit_schedule-Keeps s.id (stamp t) (λ q. refl) (λ q h. h) db sound)
