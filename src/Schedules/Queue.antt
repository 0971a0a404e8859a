-- ===== src/Schedules/Queue.antt =====
-- internal/store/schedule.go: queueing, claiming and leasing runs, and what a run records of itself.
use marvo.Base.{
  text_lt, ◌+◌, String, Bool, false, not, ◌&&◌, ◌||◌, Option, none, some, List, [], ◌∷◌, ◌++◌, ltb,
  if◌then◌else◌, ◌==◌, string_eq, nat_eq, exists, pos, or_else,
}
use marvo.Scheduling.{Instant, Duration, minimum_interval, CronLibrary, truncate}
use marvo.Sql.{Result, ok, err, Exec, Tx, ◌>>=◌, ◌>>◌, pure, commit, and_then}
use marvo.Sql.Rows.{count_where, least_where}
use marvo.Sql.Columns.{column_lt, earlier, least_due, reached}
use marvo.Schedules.Tables.{
  Error, invalid_schedule, not_found, busy, Schedule, ScheduleRun, ClaimedScheduleRun, Db, queued,
  running, waiting_retry, Trigger, scheduled, manual, OccurrenceKey, scheduled_key, manual_key,
  is_active, is_open_of, is_waiting, is_running, valid_activity_id, get_run, read_schedule,
  read_run, update_runs, scan_schedule,
}

-- The row that `RunNow` and `ClaimDue` insert.
abbrev pub new_run : String → Schedule → OccurrenceKey → Trigger → Instant → Instant → ScheduleRun
new_run id s key trigger scheduled_for now = record {
  id = id;
  schedule_id = s.id;
  schedule_revision = s.revision;
  occurrence_key = key;
  trigger = trigger;
  scheduled_for = scheduled_for;
  status = queued;
  attempt = 0;
  next_attempt_at = some now;
  lease_until = none;
  session_id = "";
  request_message_id = "";
  message_id = "";
  adaptive_next_seconds = pos 0;
  error = "";
  created_at = now;
  started_at = none;
  finished_at = none;
  updated_at = now;
}

abbrev pub same_key : OccurrenceKey → OccurrenceKey → Bool
same_key (scheduled_key a t) (scheduled_key b u) = a == b && t == u
same_key (manual_key a) (manual_key b) = a == b
same_key _ _ = false

-- The primary key, the unique occurrence key, and the partial unique index on open runs.
unfoldable pub violates_unique : ScheduleRun → List ScheduleRun → Bool
violates_unique r runs =
    exists (λ q. q.id == r.id || same_key q.occurrence_key r.occurrence_key) runs
    || exists (is_open_of r.schedule_id) runs

-- INSERT INTO schedule_runs; `e` is what the caller makes of a violated unique constraint.
unfoldable pub insert_run : ScheduleRun → Error → Tx Db Error (Unit {0})
insert_run r e db =
    if violates_unique r db.runs then err e else ok (tt, record db { runs = db.runs ++ r ∷ [] })

module _ (lib : CronLibrary) (clock : Instant) where
  unfoldable pub run_now_tx : String → String → String → Instant → Tx Db Error (Unit {0})
  run_now_tx id run_id occurrence_id now = do
    s ← read_schedule lib clock id
    insert_run (new_run run_id s (manual_key occurrence_id) manual now now) busy

  -- `run_id` and `occurrence_id` are the drawn ids.
  unfoldable pub run_now : String → String → String → Instant → Exec Db Error ScheduleRun
  unfolding run_now_tx
  run_now id run_id occurrence_id now db =
      if valid_activity_id id
      then and_then (commit (run_now_tx id run_id occurrence_id (truncate now)))
          (λ _. get_run run_id) db
      else (err not_found, db)

abbrev pub schedule_due : Db → Schedule → Option Instant
schedule_due db s =
    if is_active s.status && not (exists (is_open_of s.id) db.runs) then s.next_run_at else none

abbrev pub run_due : ScheduleRun → Option Instant
run_due r =
    if is_waiting r.status
    then r.next_attempt_at
    else if is_running r.status
    then r.lease_until
    else none

unfoldable pub next_wake : Db → Option Instant
next_wake db = earlier (least_due (schedule_due db) db.schedules) (least_due run_due db.runs)

abbrev pub is_expired : Instant → ScheduleRun → Bool
is_expired now r = is_running r.status && reached r.lease_until now

abbrev pub recovered : Instant → ScheduleRun → ScheduleRun
recovered now r = record r {
  status = waiting_retry;
  next_attempt_at = some now;
  lease_until = none;
  error = if r.error == "" then "执行在服务重启后恢复" else r.error;
  updated_at = now;
}

abbrev pub is_due_run : Instant → ScheduleRun → Bool
is_due_run now r = is_waiting r.status && reached r.next_attempt_at now

abbrev pub run_order : ScheduleRun → ScheduleRun → Bool
run_order a b =
    column_lt a.next_attempt_at b.next_attempt_at
    || not (column_lt b.next_attempt_at a.next_attempt_at)
      && (ltb a.created_at b.created_at || a.created_at == b.created_at && text_lt a.id b.id)

abbrev pub is_due_schedule : Db → Instant → Schedule → Bool
is_due_schedule db now s =
    is_active s.status && reached s.next_run_at now && not (exists (is_open_of s.id) db.runs)

abbrev pub schedule_order : Schedule → Schedule → Bool
schedule_order a b =
    column_lt a.next_run_at b.next_run_at
    || not (column_lt b.next_run_at a.next_run_at) && text_lt a.id b.id

abbrev pub scheduled_time : Option Instant → Instant
scheduled_time none = 0
scheduled_time (some t) = t

abbrev pub claimed : Instant → Instant → ScheduleRun → ScheduleRun
claimed now lease_until r = record r {
  status = running;
  attempt = r.attempt + 1;
  next_attempt_at = none;
  lease_until = some lease_until;
  started_at = or_else r.started_at (some now);
  finished_at = none;
  updated_at = now;
}

-- WHERE id = ? AND status IN ('queued', 'waiting_retry')
abbrev pub waits_as : String → ScheduleRun → Bool
waits_as id r = r.id == id && is_waiting r.status

module _ (lib : CronLibrary) (clock : Instant) where
  -- A new occurrence of a scanned schedule, or `none` if the occurrence is there already.
  unfoldable pub occur_row :
      String → Instant → Result Error Schedule → Tx Db Error (Option ScheduleRun)
  occur_row run_id now (err e) db = err e
  occur_row run_id now (ok s) db =
      let r =
        new_run run_id s (scheduled_key s.id (scheduled_time s.next_run_at)) scheduled
          (scheduled_time s.next_run_at) now in
      if violates_unique r db.runs
      then ok (none, db)
      else ok (some r, record db { runs = db.runs ++ r ∷ [] })

  -- There may be no due schedule.
  unfoldable pub occur : String → Instant → Option Schedule → Tx Db Error (Option ScheduleRun)
  unfolding occur_row
  occur run_id now none db = ok (none, db)
  occur run_id now (some row) db = occur_row run_id now (scan_schedule lib clock (some row)) db

  -- The run to claim: a waiting one, or else a new occurrence.
  unfoldable pub pick : String → Instant → Option ScheduleRun → Tx Db Error (Option ScheduleRun)
  unfolding occur
  pick run_id now (some r) db = ok (some r, db)
  pick run_id now none db =
      occur run_id now (least_where (is_due_schedule db now) schedule_order db.schedules) db

  -- Nothing is claimed unless one row was affected.
  unfoldable pub take_run :
      Instant → Instant → Option ScheduleRun → Tx Db Error (Option ClaimedScheduleRun)
  take_run now lease_until none db = ok (none, db)
  take_run now lease_until (some r) db =
      if count_where (waits_as r.id) db.runs == 1
      then (do
        update_runs (waits_as r.id) (claimed now lease_until)
        run ← read_run r.id
        schedule ← read_schedule lib clock r.schedule_id
        pure (some (record { schedule = schedule; run = run })))
          db
      else ok (none, db)

  -- The transaction ends without a commit where it claims nothing.
  unfoldable pub rolled_back :
      Db
      → Result Error (Option ClaimedScheduleRun × Db)
      → Result Error (Option ClaimedScheduleRun × Db)
  rolled_back db (ok (none, db')) = ok (none, db)
  rolled_back db (ok (some c, db')) = ok (some c, db')
  rolled_back db (err e) = err e

  unfoldable pub claim_tx : String → Instant → Duration → Tx Db Error (Option ClaimedScheduleRun)
  unfolding pick take_run
  claim_tx run_id now lease = do
    update_runs (is_expired now) (recovered now)
    waiting ← (λ db. ok (least_where (is_due_run now) run_order db.runs, db))
    r ← pick run_id now waiting
    take_run now (truncate (now + lease)) r

  unfoldable pub claim_due : String → Instant → Duration → Exec Db Error (Option ClaimedScheduleRun)
  unfolding claim_tx rolled_back
  claim_due run_id now lease db =
      if ltb lease minimum_interval
      then (err invalid_schedule, db)
      else commit (λ s. rolled_back s (claim_tx run_id (truncate now) lease s)) db
