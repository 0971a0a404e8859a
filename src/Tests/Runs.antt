-- ===== src/Tests/Runs.antt =====
-- internal/store/schedule.go at concrete inputs: the end of a run, and the history.
use marvo.Base.{
  ◌≡◌, ◌≤◌, refl, true, not, [], ◌∷◌, keep, Bool, List, length, ◌+◌, ◌==◌, string_eq, trim_space,
}
use marvo.Scheduling.{normalize, has_adaptive_fields, seconds_duration}
use marvo.Scheduling.Calendar.{next, normalize_existing}
use marvo.Sql.{ok}
use marvo.Sql.Rows.{count_where, find_where, update_where}
use marvo.Schedules.Tables.{
  Schedule, ScheduleRun, valid_activity_id, max_schedule_runs_per_task, select_schedule, select_run,
  get, get_run, normalize_schedule_error,
}
use marvo.Schedules.Finish.{is_closed_of, prune_schedule_runs}
use marvo.Schedules.Failure.{retry, finish_failure}
use marvo.Sql.Keeps.{Sound}
use marvo.Schedules.Finish.{
  advance_after_success, advance_after_cancel, stamp, count_failure, claimed_rows, reread,
}
use marvo.Schedules.Moves.{HasMovedOn, advance-HasMovedOn}
use marvo.Schedules.Pruned.{prune_bound}
use marvo.Tests.Scheduling.{every_second, every_second-IsDocumented}
use marvo.Tests.Schedules.{
  task, waiting_db, waiting_db-IsSound, now, minute, claim, claimed_db, report, title, failure,
}
use marvo.Schedules.Listing.{list_runs, newest_first}
use marvo.Schedules.Newest.{NoNewer, IsSorted, list_runs-IsSorted}
use marvo.Sql.Rows.{All}

prunes : prune_schedule_runs task waiting_db ≡ ok (tt, waiting_db)
unfolding prune_schedule_runs
prunes = refl

prune_bound_example :
    (count_where (is_closed_of task) waiting_db.runs ≤ max_schedule_runs_per_task)
    × (keep (λ r. not (is_closed_of task r)) waiting_db.runs
        ≡ keep (λ r. not (is_closed_of task r)) waiting_db.runs)
    × (waiting_db.schedules ≡ waiting_db.schedules)
prune_bound_example = prune_bound task waiting_db waiting_db waiting_db-IsSound prunes

advance-HasMovedOn_example :
    Sound
      (HasMovedOn now task)
      (advance_after_success every_second now report claim.run now claimed_db)
    × Sound
        (HasMovedOn now task)
        (advance_after_cancel every_second now report claim.run now claimed_db)
advance-HasMovedOn_example =
    advance-HasMovedOn every_second now report claim.run now claimed_db every_second-IsDocumented
      refl

-- The claimed run fails, and waits for a second attempt.
abbrev failed_rows : Schedule × ScheduleRun
failed_rows = (stamp now (count_failure title report), retry (now + minute) title now claim.run)

fails : (finish_failure every_second now claim failure now claimed_db).0 ≡ ok (failed_rows, true)
unfolding finish_failure claimed_rows select_run find_where select_schedule next normalize_existing
    normalize trim_space has_adaptive_fields seconds_duration reread get valid_activity_id
    update_where get_run normalize_schedule_error
fails = refl

lists : list_runs task 10 claimed_db ≡ ok (claim.run ∷ [])
unfolding list_runs valid_activity_id newest_first
lists = refl

list_runs-IsSorted_example :
    (rest : List ScheduleRun) × IsSorted (claim.run ∷ [])
    × (length (claim.run ∷ []) ≤ 100)
    × All (NoNewer rest) (claim.run ∷ [])
    × ((p : ScheduleRun → Bool)
        → count_where p (claim.run ∷ []) + count_where p rest
          ≡ count_where p (keep (λ r. r.schedule_id == task) claimed_db.runs))
list_runs-IsSorted_example = list_runs-IsSorted task 10 claimed_db (claim.run ∷ []) lists
