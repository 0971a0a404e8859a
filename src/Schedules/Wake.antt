-- ===== src/Schedules/Wake.antt =====
-- When the scheduler has to look at a user again.
use marvo.Base.{◌≡◌, refl, ◌∙◌, arith, Bool, not, ◌&&◌, ◌||◌, Option, none, if◌then◌else◌, exists}
use marvo.Scheduling.{Instant}
use marvo.Sql.Columns.{least_due, reached, reached-earlier, reached-least_due, exists-cong}
use marvo.Schedules.Tables.{Db, RunStatus, is_active, is_waiting, is_running, is_open_of}
use marvo.Schedules.Queue.{
  schedule_due, run_due, next_wake, is_expired, is_due_run, is_due_schedule,
}

-- A schedule is due if it is active and nothing of it is open.
reached-schedule_due :
    (acts opened : Bool) (t : Option Instant) (now : Instant)
    → reached (if acts && not opened then t else none) now ≡ (acts && reached t now && not opened)
reached-schedule_due acts opened t now = ground arith

-- A run that waits is due at its next attempt, one that runs at the end of its lease.
reached-run_due :
    (now : Instant) (s : RunStatus) (attempt lease : Option Instant)
    → reached (if is_waiting s then attempt else if is_running s then lease else none) now
      ≡ (is_waiting s && reached attempt now || is_running s && reached lease now)
reached-run_due now s attempt lease = ground arith

-- The time that the scheduler is told to wake up at has come exactly if a claim finds something
-- to do: a run whose lease is over, a run whose next attempt is due, or an active schedule that is due
-- and has no open run. Neither is work left asleep nor does the scheduler wake up in vain.
pub next_wake_iff :
    (db : Db) (now : Instant)
    → reached (next_wake db) now ≡ (
        exists (is_due_schedule db now) db.schedules
        || exists (λ r. is_due_run now r || is_expired now r) db.runs)
unfolding next_wake
next_wake_iff db now =
    let due =
      reached-least_due (schedule_due db) db.schedules now
      ∙ exists-cong _ (is_due_schedule db now) db.schedules (λ s.
        reached-schedule_due (is_active s.status) (exists (is_open_of s.id) db.runs) s.next_run_at
          now) in
    let runs =
      reached-least_due run_due db.runs now
      ∙ exists-cong _ (λ r. is_due_run now r || is_expired now r) db.runs
          (λ r. reached-run_due now r.status r.next_attempt_at r.lease_until) in
    reached-earlier (least_due (schedule_due db) db.schedules) (least_due run_due db.runs) now
    ∙ rw (due, runs) refl
