-- ===== src/Schedules/Finish.antt =====
-- internal/store/schedule.go: how a run ends, and what that does to its schedule.
use marvo.Base.{
  ◌+◌, ◌*◌, ◌-◌, String, Bool, true, false, not, ◌&&◌, ◌||◌, Option, none, some, List,
  if◌then◌else◌, ◌==◌, string_eq, nat_eq, ℤ, pos, negsuc, take, keep, exists,
}
use marvo.Scheduling.{Instant, second, CronLibrary, truncate}
use marvo.Scheduling.Calendar.{next}
use marvo.Sql.{Result, ok, err, Exec, Tx, ◌>>=◌, ◌>>◌, require, pure, commit, and_then}
use marvo.Sql.Rows.{count_where, find_where}
use marvo.Schedules.Tables.{
  Error, invalid_schedule, conflict, corrupt, Schedule, ScheduleRun, ClaimedScheduleRun, Db,
  completed, RunStatus, succeeded, cancelled, is_active, is_open, is_running, is_scheduled,
  valid_activity_id, get, get_run, read_schedule, read_run, update_runs, update_schedules,
  max_schedule_runs_per_task,
}
use marvo.Schedules.Queue.{waits_as}
use marvo.Schedules.Listing.{newest_first}
use marvo.Schedules.Progress.{holds}

-- status NOT IN ('queued', 'running', 'waiting_retry'), of one schedule
abbrev pub is_closed_of : String → ScheduleRun → Bool
is_closed_of schedule_id r = r.schedule_id == schedule_id && not (is_open r.status)

-- The newest closed runs of a schedule, as many as are kept.
unfoldable pub kept_runs : String → List ScheduleRun → List ScheduleRun
kept_runs schedule_id runs =
    take max_schedule_runs_per_task (newest_first (keep (is_closed_of schedule_id) runs))

-- Whether `pruneScheduleRuns` leaves a run.
abbrev pub survives : String → List ScheduleRun → ScheduleRun → Bool
survives schedule_id runs r =
    not (is_closed_of schedule_id r) || exists (λ q. q.id == r.id) (kept_runs schedule_id runs)

unfoldable pub prune_schedule_runs : String → Tx Db Error (Unit {0})
prune_schedule_runs schedule_id db =
    ok (tt, record db { runs = keep (survives schedule_id db.runs) db.runs })

-- How a run is closed: UPDATE ... SET status = ?, next_attempt_at = NULL, lease_until = NULL, ...
abbrev pub close : RunStatus → String → Instant → ScheduleRun → ScheduleRun
close status error finished_at r = record r {
  status = status;
  next_attempt_at = none;
  lease_until = none;
  error = error;
  finished_at = some finished_at;
  updated_at = finished_at;
}

-- `time.Duration(seconds) * time.Second`
abbrev pub proposal_of : ℤ → ℤ
proposal_of (pos n) = pos (n * second)
proposal_of (negsuc n) = negsuc ((n + 1) * second - 1)

-- A run whose schedule still is as it was when the run was made.
abbrev pub is_current : Schedule → ScheduleRun → Bool
is_current s r = s.revision == r.schedule_revision

-- A natural occurrence of an active schedule.
abbrev pub drives : Schedule → ScheduleRun → Bool
drives s r = is_active s.status && is_current s r && is_scheduled r.trigger

-- UPDATE schedules SET f WHERE id = ?
abbrev pub set_schedule : String → (Schedule → Schedule) → Tx Db Error (Unit {0})
set_schedule id f = update_schedules (λ s. s.id == id) f

abbrev pub stamp : Instant → Schedule → Schedule
stamp t s = record s { last_run_at = some t; updated_at = t }

abbrev pub clear_failures : Schedule → Schedule
clear_failures s = record s { consecutive_failures = 0; last_error = ""; paused_reason = "" }

abbrev pub count_failure : String → Schedule → Schedule
count_failure error s = record s {
  consecutive_failures = s.consecutive_failures + 1;
  last_error = error;
}

-- The schedule moves on to its next run; without one it is completed.
abbrev pub move_on : Option Instant → Schedule → Schedule
move_on none s = record s { status = completed; next_run_at = none }
move_on (some t) s = record s { next_run_at = some t }

-- A manual run of an unchanged schedule that went well.
abbrev pub recover : Schedule → Schedule
recover s = record s {
  consecutive_failures = 0;
  last_error = "";
  paused_reason = if s.paused_reason == "failure" then "" else s.paused_reason;
}

module _ (lib : CronLibrary) (clock : Instant) where
  -- scheduling.Next, whose error ends the transaction.
  unfoldable pub next_found : Option (Option Instant) → Tx Db Error (Option Instant)
  next_found none db = err corrupt
  next_found (some o) db = ok (o, db)

  unfoldable pub next_run : Schedule → Instant → ℤ → Tx Db Error (Option Instant)
  next_run s t proposal = next_found (next lib s.definition clock t proposal)

  -- The run of a claim and its schedule, if the claim still holds.
  unfoldable pub claimed_rows : ClaimedScheduleRun → Tx Db Error (Schedule × ScheduleRun)
  claimed_rows c = do
    run ← read_run c.run.id
    current ← read_schedule lib clock run.schedule_id
    require (is_running run.status && run.attempt == c.run.attempt) conflict
    pure (current, run)

  unfoldable pub advance_after_success : Schedule → ScheduleRun → Instant → Tx Db Error (Unit {0})
  unfolding next_run
  advance_after_success s r t db =
      if drives s r
      then (next_run s t (proposal_of r.adaptive_next_seconds) >>= λ o.
            set_schedule s.id (λ q. stamp t (clear_failures (move_on o q))))
          db
      else if is_current s r
      then set_schedule s.id (λ q. stamp t (recover q)) db
      else set_schedule s.id (stamp t) db

  unfoldable pub finish_success_tx :
      ClaimedScheduleRun → Instant → Tx Db Error (Schedule × ScheduleRun)
  unfolding claimed_rows advance_after_success
  finish_success_tx c t = do
    (s, r) ← claimed_rows c
    update_runs (holds r.id c.run.attempt) (close succeeded "" t)
    advance_after_success s r t
    prune_schedule_runs s.id
    pure (s, r)

  -- What the methods read after the commit.
  unfoldable pub reread : Schedule × ScheduleRun → Db → Result Error (Schedule × ScheduleRun)
  reread (s, r) db = elim (get lib clock s.id db) [
    | err e ↦ err e
    | ok updated ↦ elim (get_run r.id db) [ err e ↦ err e | ok finished ↦ ok (updated, finished) ]
  ]

  unfoldable pub finish_success :
      ClaimedScheduleRun → Instant → Exec Db Error (Schedule × ScheduleRun)
  unfolding finish_success_tx reread
  finish_success c finished_at =
      and_then (commit (finish_success_tx c (truncate finished_at))) reread

  -- After a cancelled run, and after a run that is cancelled before it starts.
  unfoldable pub advance_after_cancel : Schedule → ScheduleRun → Instant → Tx Db Error (Unit {0})
  unfolding next_run
  advance_after_cancel s r t db =
      if drives s r
      then (next_run s t (pos 0) >>= λ o. set_schedule s.id (λ q. stamp t (move_on o q))) db
      else set_schedule s.id (stamp t) db

  unfoldable pub finish_cancelled_tx :
      ClaimedScheduleRun → Instant → Tx Db Error (Schedule × ScheduleRun)
  unfolding claimed_rows advance_after_cancel
  finish_cancelled_tx c t = do
    (s, r) ← claimed_rows c
    update_runs (holds r.id c.run.attempt) (close cancelled "" t)
    advance_after_cancel s r t
    prune_schedule_runs s.id
    pure (s, r)

  unfoldable pub finish_cancelled :
      ClaimedScheduleRun → Instant → Exec Db Error (Schedule × ScheduleRun)
  unfolding finish_cancelled_tx reread
  finish_cancelled c finished_at =
      and_then (commit (finish_cancelled_tx c (truncate finished_at))) reread

  -- The UPDATE of `CancelPendingRun`, and what follows where it affects one row.
  unfoldable pub cancel_row : ScheduleRun → Instant → Schedule → Tx Db Error Bool
  unfolding advance_after_cancel
  cancel_row r t s db =
      if count_where (waits_as r.id) db.runs == 1
      then (do
        update_runs (waits_as r.id) (close cancelled "" t)
        advance_after_cancel s r t
        prune_schedule_runs s.id
        pure true)
          db
      else ok (false, db)

  unfoldable pub cancel_pending_tx : String → Instant → Option ScheduleRun → Tx Db Error Bool
  unfolding cancel_row
  cancel_pending_tx schedule_id t none db = ok (false, db)
  cancel_pending_tx schedule_id t (some r) db =
      (read_schedule lib clock schedule_id >>= cancel_row r t) db

  -- WHERE id = ? AND schedule_id = ? AND status IN ('queued', 'waiting_retry')
  unfoldable pub waits_for : String → String → ScheduleRun → Bool
  waits_for schedule_id run_id r = waits_as run_id r && r.schedule_id == schedule_id

  unfoldable pub cancel_pending_run : String → String → Instant → Exec Db Error Bool
  unfolding cancel_pending_tx waits_for
  cancel_pending_run schedule_id run_id finished_at db =
      if not (valid_activity_id schedule_id) || not (valid_activity_id run_id)
      then (err invalid_schedule, db)
      else commit
          (λ s.
            cancel_pending_tx schedule_id (truncate finished_at)
              (find_where (waits_for schedule_id run_id) s.runs) s)
          db
