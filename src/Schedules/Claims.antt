-- ===== src/Schedules/Claims.antt =====
-- Running a schedule at once, and claiming what is due, keep the invariant of the tables.
use marvo.Base.{
  ◌+◌, refl, String, Option, none, some, Bool-cases, inl, inr, if-elim, ltb, ◌==◌, nat_eq,
}
use marvo.Scheduling.{Instant, Duration, CronLibrary, truncate, minimum_interval}
use marvo.Sql.{Result, ok, err}
use marvo.Sql.Rows.{least_where, count_where}
use marvo.Sql.Keeps.{Keeps, Sound, Keeps-bind, Keeps-lift, commit-Keeps}
use marvo.Schedules.Tables.{
  Error, busy, Schedule, ScheduleRun, ClaimedScheduleRun, Db, scheduled, manual, scheduled_key,
  manual_key, valid_activity_id, read_run, read_schedule, select_schedule, select_run,
  scan_schedule,
}
use marvo.Schedules.Queue.{
  violates_unique, new_run, run_now, run_now_tx, claim_due, claim_tx, pick, occur, occur_row,
  take_run, rolled_back, scheduled_time, is_due_schedule, schedule_order, is_expired, recovered,
  claimed, waits_as,
}
use marvo.Schedules.Invariant.{IsSound, update_where-IsSound}
use marvo.Schedules.Inserts.{append_run-IsSound, insert_run-Keeps}
use marvo.Schedules.Steps.{recovered-IsStep, claimed-IsStep}

-- A read leaves the tables alone.
pub read_run-Keeps : (id : String) → Keeps IsSound (read_run id)
read_run-Keeps id db sound = Keeps-lift IsSound (select_run id db) db sound

module _ (lib : CronLibrary) (clock : Instant) where
  pub read_schedule-Keeps : (id : String) → Keeps IsSound (read_schedule lib clock id)
  read_schedule-Keeps id db sound = Keeps-lift IsSound (select_schedule lib clock id db) db sound

  run_now_tx-Keeps :
      (id run_id occurrence_id : String) (now : Instant)
      → Keeps IsSound (run_now_tx lib clock id run_id occurrence_id now)
  unfolding run_now_tx
  run_now_tx-Keeps id run_id occurrence_id now =
      Keeps-bind IsSound (read_schedule lib clock id) _ (read_schedule-Keeps id) (λ s.
        insert_run-Keeps (new_run run_id s (manual_key occurrence_id) manual now now) busy
          (refl, refl))

  pub run_now-IsSound :
      (id run_id occurrence_id : String) (now : Instant) (db : Db)
      → IsSound db
      → IsSound (run_now lib clock id run_id occurrence_id now db).1
  unfolding run_now
  run_now-IsSound id run_id occurrence_id now db sound =
      if-elim (λ (out : Result Error ScheduleRun × Db). IsSound out.1) (valid_activity_id id) _ _
        (commit-Keeps IsSound (run_now_tx lib clock id run_id occurrence_id (truncate now)) db
          (run_now_tx-Keeps id run_id occurrence_id (truncate now)) sound)
        sound

  occur_row-Keeps :
      (run_id : String) (now : Instant) (o : Result Error Schedule)
      → Keeps IsSound (occur_row lib clock run_id now o)
  unfolding occur_row
  occur_row-Keeps run_id now (err e) db sound = tt
  occur_row-Keeps run_id now (ok s) db sound =
      let r =
        new_run run_id s (scheduled_key s.id (scheduled_time s.next_run_at)) scheduled
          (scheduled_time s.next_run_at) now in
      elim (Bool-cases (violates_unique r db.runs)) [
        | inl e ↦ rw e sound
        | inr e ↦ rw e (append_run-IsSound r db e (refl, refl) sound)
      ]

  occur-Keeps :
      (run_id : String) (now : Instant) (o : Option Schedule)
      → Keeps IsSound (occur lib clock run_id now o)
  unfolding occur
  occur-Keeps run_id now none db sound = sound
  occur-Keeps run_id now (some row) db sound =
      occur_row-Keeps run_id now (scan_schedule lib clock (some row)) db sound

  pub pick-Keeps :
      (run_id : String) (now : Instant) (o : Option ScheduleRun)
      → Keeps IsSound (pick lib clock run_id now o)
  unfolding pick
  pick-Keeps run_id now (some r) db sound = sound
  pick-Keeps run_id now none db sound =
      occur-Keeps run_id now (least_where (is_due_schedule db now) schedule_order db.schedules) db
        sound

  take_run-Keeps :
      (now lease_until : Instant) (o : Option ScheduleRun)
      → Keeps IsSound (take_run lib clock now lease_until o)
  unfolding take_run
  take_run-Keeps now lease_until none db sound = sound
  take_run-Keeps now lease_until (some r) db sound =
      if-elim (Sound IsSound) (count_where (waits_as r.id) db.runs == 1) _ _
        (Keeps-bind IsSound (read_run r.id) _ (read_run-Keeps r.id)
          (λ run.
            Keeps-bind IsSound (read_schedule lib clock r.schedule_id) _
              (read_schedule-Keeps r.schedule_id) (λ s db sound. sound))
          _
          (update_where-IsSound (waits_as r.id) (claimed now lease_until) db
            (claimed-IsStep r.id now lease_until) sound))
        sound

  claim_tx-Keeps :
      (run_id : String) (now : Instant) (lease : Duration)
      → Keeps IsSound (claim_tx lib clock run_id now lease)
  unfolding claim_tx
  claim_tx-Keeps run_id now lease db sound =
      Keeps-bind IsSound (pick lib clock run_id now _) _ (pick-Keeps run_id now _)
        (λ r. take_run-Keeps now (truncate (now + lease)) r) _
        (update_where-IsSound (is_expired now) (recovered now) db (recovered-IsStep now) sound)

  rolled_back-Sound :
      (db : Db) (r : Result Error (Option ClaimedScheduleRun × Db))
      → IsSound db
      → Sound IsSound r
      → Sound IsSound (rolled_back lib clock db r)
  unfolding rolled_back
  rolled_back-Sound db (ok (none, db')) sound s = sound
  rolled_back-Sound db (ok (some c, db')) sound s = s
  rolled_back-Sound db (err e) sound s = tt

  pub claim_due-IsSound :
      (run_id : String) (now : Instant) (lease : Duration) (db : Db)
      → IsSound db
      → IsSound (claim_due lib clock run_id now lease db).1
  unfolding claim_due
  claim_due-IsSound run_id now lease db sound =
      if-elim (λ (out : Result Error (Option ClaimedScheduleRun) × Db). IsSound out.1)
        (ltb lease minimum_interval) _ _ sound
        (commit-Keeps IsSound
          (λ s. rolled_back lib clock s (claim_tx lib clock run_id (truncate now) lease s)) db
          (λ s i.
            rolled_back-Sound s (claim_tx lib clock run_id (truncate now) lease s) i
              (claim_tx-Keeps run_id (truncate now) lease s i))
          sound)
