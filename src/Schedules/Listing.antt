-- ===== src/Schedules/Listing.antt =====
-- internal/store/schedule.go: the listings and their orders.
use marvo.Base.{
  text_lt, ℕ, String, Bool, not, ◌&&◌, ◌||◌, some, List, [], ◌∷◌, ltb, if◌then◌else◌, ◌==◌,
  string_eq, nat_eq, keep, take, is_some,
}
use marvo.Scheduling.{Instant, CronLibrary}
use marvo.Sql.{Result, ok, err}
use marvo.Sql.Columns.{column_lt}
use marvo.Schedules.Tables.{
  Error, invalid_schedule, Schedule, ScheduleRun, Db, Status, active, paused, completed,
  valid_activity_id, scan_schedule,
}

-- ORDER BY created_at DESC, id DESC
abbrev pub newer : ScheduleRun → ScheduleRun → Bool
newer a b = ltb b.created_at a.created_at || a.created_at == b.created_at && text_lt b.id a.id

-- One row into a sorted list.
unfoldable pub place : ScheduleRun → List ScheduleRun → List ScheduleRun
place r [] = r ∷ []
place r (q ∷ rest) = let more = place r rest in if newer r q then r ∷ q ∷ rest else q ∷ more

unfoldable pub newest_first : List ScheduleRun → List ScheduleRun
unfolding place
newest_first [] = []
newest_first (r ∷ rest) = place r (newest_first rest)

unfoldable pub list_runs : String → ℕ → Db → Result Error (List ScheduleRun)
list_runs schedule_id limit db =
    if valid_activity_id schedule_id
    then ok (
        take (if ltb limit 1 || ltb 100 limit then 30 else limit)
          (newest_first (keep (λ r. r.schedule_id == schedule_id) db.runs)))
    else err invalid_schedule

abbrev pub rank : Status → ℕ
rank active = 0
rank paused = 1
rank completed = 2

-- ORDER BY the status, next_run_at with NULL last, next_run_at, updated_at DESC, id
abbrev pub listed_before : Schedule → Schedule → Bool
listed_before a b =
    if not (rank a.status == rank b.status)
    then ltb (rank a.status) (rank b.status)
    else if not (column_lt a.next_run_at b.next_run_at)
        && not (column_lt b.next_run_at a.next_run_at)
    then ltb b.updated_at a.updated_at || a.updated_at == b.updated_at && text_lt a.id b.id
    else if is_some a.next_run_at && is_some b.next_run_at
    then column_lt a.next_run_at b.next_run_at
    else is_some a.next_run_at

unfoldable pub place_schedule : Schedule → List Schedule → List Schedule
place_schedule s [] = s ∷ []
place_schedule s (q ∷ rest) =
    let more = place_schedule s rest in if listed_before s q then s ∷ q ∷ rest else q ∷ more

unfoldable pub in_order : List Schedule → List Schedule
in_order [] = []
in_order (s ∷ rest) = place_schedule s (in_order rest)

abbrev prepend : Schedule → Result Error (List Schedule) → Result Error (List Schedule)
prepend s (ok rest) = ok (s ∷ rest)
prepend s (err e) = err e

module _ (lib : CronLibrary) (clock : Instant) where
  -- The listing ends with the first row that cannot be read.
  scan_all : List Schedule → Result Error (List Schedule)
  scan_all [] = ok []
  scan_all (row ∷ rest) =
      let more = scan_all rest in
      elim (scan_schedule lib clock (some row)) [ err e ↦ err e | ok s ↦ prepend s more ]

  unfoldable pub list : Db → Result Error (List Schedule)
  unfolding scan_all
  list db = scan_all (in_order db.schedules)
