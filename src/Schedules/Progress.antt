-- ===== src/Schedules/Progress.antt =====
-- internal/store/schedule.go: what the worker of a running run records, each call with the attempt it was
-- claimed with.
use Prim.Native.String.{len}
use marvo.Base.{
  ℕ, ◌/◌, String, Bool, not, ◌&&◌, ◌||◌, Option, none, some, List, [], ◌∷◌, ltb, if◌then◌else◌,
  ◌==◌, string_eq, nat_eq, trim_space, keep, ℤ, pos, Map, insert,
}
use marvo.Scheduling.{Instant, Duration, second, CronLibrary, truncate}
use marvo.Scheduling.Calendar.{clamp_adaptive}
use marvo.Sql.{Result, ok, err, Exec, Tx, ◌>>◌, commit}
use marvo.Sql.Rows.{update_where, count_where}
use marvo.Schedules.Tables.{
  Error, invalid_schedule, not_found, conflict, busy, Schedule, ScheduleRun, Db, waiting_retry,
  is_open, is_running, valid_activity_id, get, update_schedules, normalize_schedule_error,
}
use marvo.Schedules.Listing.{newest_first}

-- WHERE id = ? AND status = 'running' AND attempt = ?
abbrev pub holds : String → ℕ → ScheduleRun → Bool
holds id attempt r = r.id == id && is_running r.status && r.attempt == attempt

-- An UPDATE of runs, with an error unless it affected one row.
abbrev pub change_run :
    (ScheduleRun → Bool) → (ScheduleRun → ScheduleRun) → Error → Exec Db Error (Unit {0})
change_run p f e db = (
  if count_where p db.runs == 1 then ok tt else err e,
  record db { runs = update_where p f db.runs },
)

unfoldable pub renew_lease : String → ℕ → Instant → Instant → Exec Db Error Bool
renew_lease run_id expected_attempt lease_until now db =
    if not (valid_activity_id run_id) || ltb expected_attempt 1
    then (err invalid_schedule, db)
    else (
      ok (count_where (holds run_id expected_attempt) db.runs == 1),
      record db {
        runs =
            update_where (holds run_id expected_attempt)
              (λ r. record r {
                lease_until = some (truncate lease_until);
                updated_at = truncate now;
              })
              db.runs;
      },
    )

-- WHERE id = ? AND schedule_id = ? AND status = 'running' AND attempt = ?
abbrev pub holds_of : String → String → ℕ → ScheduleRun → Bool
holds_of schedule_id id attempt r =
    r.id == id && r.schedule_id == schedule_id && is_running r.status && r.attempt == attempt

unfoldable pub require_one :
    (ScheduleRun → Bool) → (ScheduleRun → ScheduleRun) → Tx Db Error (Unit {0})
require_one p f db =
    if count_where p db.runs == 1
    then ok (tt, record db { runs = update_where p f db.runs })
    else err not_found

unfoldable pub set_run_session_tx : String → String → ℕ → String → Instant → Tx Db Error (Unit {0})
unfolding require_one
set_run_session_tx schedule_id run_id expected_attempt session_id now = do
  update_schedules (λ s. s.id == schedule_id)
      (λ s. record s { session_id = session_id; updated_at = truncate now })
  require_one (holds_of schedule_id run_id expected_attempt)
      (λ r. record r { session_id = session_id; updated_at = truncate now })

unfoldable pub set_run_session : String → String → ℕ → String → Instant → Exec Db Error (Unit {0})
unfolding set_run_session_tx
set_run_session schedule_id run_id expected_attempt session_id now db =
    if not (valid_activity_id schedule_id)
      || not (valid_activity_id run_id)
      || ltb expected_attempt 1
      || trim_space session_id == ""
      || ltb 256 (len (trim_space session_id))
    then (err invalid_schedule, db)
    else commit (set_run_session_tx schedule_id run_id expected_attempt (trim_space session_id) now)
        db

unfoldable pub bad_message : String → ℕ → String → Bool
bad_message run_id expected_attempt message_id =
    not (valid_activity_id run_id)
    || ltb expected_attempt 1
    || message_id == ""
    || ltb 256 (len message_id)

unfoldable pub set_run_request_message : String → ℕ → String → Instant → Exec Db Error (Unit {0})
unfolding bad_message
set_run_request_message run_id expected_attempt message_id now db =
    if bad_message run_id expected_attempt (trim_space message_id)
    then (err invalid_schedule, db)
    else change_run (holds run_id expected_attempt)
        (λ r. record r {
          request_message_id = trim_space message_id;
          message_id = "";
          updated_at = truncate now;
        })
        not_found db

unfoldable pub set_run_response_message : String → ℕ → String → Instant → Exec Db Error (Unit {0})
unfolding bad_message
set_run_response_message run_id expected_attempt message_id now db =
    if bad_message run_id expected_attempt (trim_space message_id)
    then (err invalid_schedule, db)
    else change_run (holds run_id expected_attempt)
        (λ r. record r { message_id = trim_space message_id; updated_at = truncate now }) not_found
        db

-- WHERE schedule_id = ? AND status = 'running'
abbrev pub runs_for : String → ScheduleRun → Bool
runs_for schedule_id r = r.schedule_id == schedule_id && is_running r.status

module _ (lib : CronLibrary) (clock : Instant) where
  -- The clamped delay, written down as whole seconds.
  unfoldable pub propose : String → Instant → Schedule → Option Duration → Exec Db Error Schedule
  propose schedule_id now s none db = (err invalid_schedule, db)
  propose schedule_id now s (some delay) db = (
    if count_where (runs_for schedule_id) db.runs == 1 then ok s else err busy,
    record db {
      runs =
          update_where (runs_for schedule_id)
            (λ r. record r {
              adaptive_next_seconds = pos (delay / second);
              updated_at = truncate now;
            })
            db.runs;
    },
  )

  unfoldable pub propose_found :
      String → ℤ → Instant → Result Error Schedule → Exec Db Error Schedule
  unfolding propose
  propose_found schedule_id delay now (err e) db = (err e, db)
  propose_found schedule_id delay now (ok s) db =
      propose schedule_id now s (clamp_adaptive lib s.definition clock delay) db

  unfoldable pub set_adaptive_next : String → ℤ → Instant → Exec Db Error Schedule
  unfolding propose_found
  set_adaptive_next schedule_id delay now db =
      propose_found schedule_id delay now (get lib clock schedule_id db) db

-- `clock` is the value of `time.Now()` here.
unfoldable pub interrupt_run : Instant → String → ℕ → Instant → String → Exec Db Error (Unit {0})
interrupt_run clock run_id expected_attempt retry_at reason db =
    if not (valid_activity_id run_id) || ltb expected_attempt 1
    then (err invalid_schedule, db)
    else (
      if count_where (holds run_id expected_attempt) db.runs == 0 then err conflict else ok tt,
      record db {
        runs =
            update_where (holds run_id expected_attempt)
              (λ r. record r {
                status = waiting_retry;
                next_attempt_at = some (truncate retry_at);
                lease_until = none;
                error = normalize_schedule_error reason;
                finished_at = none;
                updated_at = truncate clock;
              })
              db.runs;
      },
    )

-- Ordered by creation; of two runs of one schedule the later one is kept.
by_schedule : List ScheduleRun → Map String ScheduleRun
by_schedule [] = []
by_schedule (r ∷ rest) = let more = by_schedule rest in insert r.schedule_id r more

unfoldable pub list_active_runs : Db → Map String ScheduleRun
unfolding by_schedule
list_active_runs db = by_schedule (newest_first (keep (λ r. is_open r.status) db.runs))
