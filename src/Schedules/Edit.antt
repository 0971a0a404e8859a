-- ===== src/Schedules/Edit.antt =====
-- internal/store/schedule.go: creating, changing, pausing, resuming, completing and deleting a schedule.
-- A revision that a client sends and that is negative is refused as 0 is, so it is a natural number here.
-- A text is valid UTF-8, so the tests for that have no counterpart.
use Prim.Native.String.{len, count}
use marvo.Base.{
  ℕ, ◌+◌, String, Bool, true, false, not, ◌&&◌, ◌||◌, Option, none, some, [], ◌∷◌, ◌++◌, ltb, leb,
  if◌then◌else◌, ◌==◌, string_eq, nat_eq, trim_space, exists, keep,
}
use marvo.Scheduling.{Instant, Kind, at, Definition, CronLibrary, truncate, normalize}
use marvo.Scheduling.Calendar.{first}
use marvo.Sql.{Result, ok, err, Exec}
use marvo.Sql.Rows.{update_where, count_where}
use marvo.Schedules.Tables.{
  Error, invalid_schedule, not_found, conflict, busy, corrupt, Status, active, paused, completed,
  Schedule, Db, is_active, is_paused, is_completed, is_open_of, valid_activity_id,
  contains_disallowed_control, get, max_schedule_name_runes, max_schedule_instruction_bytes,
  max_schedule_pause_reason_bytes,
}

pub record ScheduleInput : Type 0 where
  pub name : String
  pub instruction : String
  pub definition : Definition

module _ (lib : CronLibrary) where
  -- The definition of an input, in normal form, and its first run.
  timed : ScheduleInput → Option Definition → Instant → Result Error (ScheduleInput × Instant)
  timed input none now = err invalid_schedule
  timed input (some d) now = elim (first lib d now) [
    | none ↦ err invalid_schedule
    | some next ↦ ok (record input { definition = d }, next)
  ]

  normalize_trimmed_input : ScheduleInput → Instant → Result Error (ScheduleInput × Instant)
  unfolding timed
  normalize_trimmed_input input now =
      if input.name == ""
        || input.instruction == ""
        || ltb max_schedule_name_runes (count input.name)
        || ltb max_schedule_instruction_bytes (len input.instruction)
        || contains_disallowed_control input.name false
        || contains_disallowed_control input.instruction true
      then err invalid_schedule
      else timed input (normalize lib input.definition now) now

  unfoldable pub normalize_schedule_input :
      ScheduleInput → Instant → Result Error (ScheduleInput × Instant)
  unfolding normalize_trimmed_input
  normalize_schedule_input input now =
      normalize_trimmed_input
        (record input { name = trim_space input.name; instruction = trim_space input.instruction })
        now

-- The row that `Create` inserts.
abbrev pub new_schedule : String → ScheduleInput → Instant → Instant → Schedule
new_schedule id input next now = record {
  id = id;
  name = input.name;
  instruction = input.instruction;
  definition = input.definition;
  status = active;
  next_run_at = some (truncate next);
  session_id = "";
  revision = 1;
  consecutive_failures = 0;
  last_error = "";
  last_run_at = none;
  paused_reason = "";
  created_at = truncate now;
  updated_at = truncate now;
}

-- WHERE id = ? AND revision = ?
abbrev pub has_revision : String → ℕ → Schedule → Bool
has_revision id revision s = s.id == id && s.revision == revision

-- The SET list of `Update`.
abbrev pub set_input : ScheduleInput → Instant → Instant → Schedule → Schedule
set_input input next now s = record s {
  name = input.name;
  instruction = input.instruction;
  definition = input.definition;
  next_run_at = if is_paused s.status then none else some (truncate next);
  status = if is_completed s.status then active else s.status;
  revision = s.revision + 1;
  consecutive_failures = 0;
  last_error = "";
  paused_reason = "";
  updated_at = truncate now;
}

-- The SET list of `changeStatus`.
abbrev pub set_status : Status → String → Option Instant → Instant → Schedule → Schedule
set_status status reason next now s = record s {
  status = status;
  next_run_at = if is_active status then next else none;
  paused_reason = reason;
  revision = s.revision + 1;
  updated_at = truncate now;
}

module _ (lib : CronLibrary) (clock : Instant) where
  unfoldable pub created :
      String → Instant → Result Error (ScheduleInput × Instant) → Exec Db Error Schedule
  created id now (err e) db = (err e, db)
  created id now (ok (input, next)) db =
      if exists (λ s. s.id == id) db.schedules
      then (err corrupt, db)
      else let db' = record db {
        schedules = db.schedules ++ new_schedule id input next now ∷ [];
      } in
        (get lib clock id db', db')

  -- `id` is the drawn id; an id that is taken violates the primary key.
  unfoldable pub create : String → ScheduleInput → Instant → Exec Db Error Schedule
  unfolding created
  create id input now db = created id now (normalize_schedule_input lib input now) db

  -- What `Update` and `changeStatus` return when no row was changed.
  unfoldable pub missing : Result Error Schedule → Error
  missing (err not_found) = not_found
  missing _ = conflict

  -- Changes the row with the expected revision, and reads it.
  unfoldable pub write_revision : String → ℕ → (Schedule → Schedule) → Exec Db Error Schedule
  unfolding missing
  write_revision id revision f db =
      if count_where (has_revision id revision) db.schedules == 0
      then (err (missing (get lib clock id db)), db)
      else let db' = record db {
        schedules = update_where (has_revision id revision) f db.schedules;
      } in
        (get lib clock id db', db')

  unfoldable pub updated :
      String → ℕ → Instant → Result Error (ScheduleInput × Instant) → Exec Db Error Schedule
  updated id revision now (err e) db = (err e, db)
  updated id revision now (ok (input, next)) db =
      write_revision id revision (set_input input next now) db

  unfoldable pub update : String → ℕ → ScheduleInput → Instant → Exec Db Error Schedule
  unfolding updated
  update id revision input now db =
      if not (valid_activity_id id) || ltb revision 1
      then (err invalid_schedule, db)
      else updated id revision now (normalize_schedule_input lib input now) db

  unfoldable pub change_status :
      String → ℕ → Status → String → Option Instant → Instant → Exec Db Error Schedule
  change_status id revision status reason next now db =
      if not (valid_activity_id id) || ltb revision 1
      then (err invalid_schedule, db)
      else write_revision id revision (set_status status reason next now) db

  unfoldable pub pause : String → ℕ → String → Instant → Exec Db Error Schedule
  pause id revision reason now db =
      if ltb max_schedule_pause_reason_bytes (len (trim_space reason))
        || contains_disallowed_control (trim_space reason) false
      then (err invalid_schedule, db)
      else change_status id revision paused (trim_space reason) none now db

  -- A one-shot whose time has passed is retried at once.
  overdue : Kind → Option Instant → Instant → Bool
  overdue at (some t) now = leb t now
  overdue _ _ now = false

  unfoldable pub resumed_at : Schedule → Instant → Option Instant
  unfolding overdue
  resumed_at s now =
      if overdue s.definition.kind s.definition.spec.at_time now
      then some (truncate now)
      else first lib s.definition now

  unfoldable pub resumed : String → ℕ → Instant → Option Instant → Exec Db Error Schedule
  resumed id revision now none db = (err invalid_schedule, db)
  resumed id revision now (some next) db =
      change_status id revision active "" (some (truncate next)) now db

  unfoldable pub resume_found :
      String → ℕ → Instant → Result Error Schedule → Exec Db Error Schedule
  unfolding resumed resumed_at
  resume_found id revision now (err e) db = (err e, db)
  resume_found id revision now (ok s) db =
      if s.revision == revision
      then resumed id revision now (resumed_at s now) db
      else (err conflict, db)

  unfoldable pub resume : String → ℕ → Instant → Exec Db Error Schedule
  unfolding resume_found
  resume id revision now db = resume_found id revision now (get lib clock id db) db

  unfoldable pub complete : String → ℕ → Instant → Exec Db Error Schedule
  complete id revision now db = change_status id revision completed "" none now db

  -- What `Delete` returns when no row was deleted.
  unfoldable pub not_deleted : ℕ → Result Error Schedule → Result Error Bool
  not_deleted revision (ok s) = if s.revision == revision then err busy else err conflict
  not_deleted revision (err not_found) = ok false
  not_deleted revision (err e) = err e

  -- A foreign key takes the runs of a deleted schedule with it.
  unfoldable pub delete : String → ℕ → Exec Db Error Bool
  unfolding not_deleted
  delete id revision db =
      if not (valid_activity_id id) || ltb revision 1
      then (err invalid_schedule, db)
      else if exists (has_revision id revision) db.schedules && not (exists (is_open_of id) db.runs)
      then (
        ok true,
        record {
          schedules = keep (λ s. not (has_revision id revision s)) db.schedules;
          runs = keep (λ r. not (r.schedule_id == id)) db.runs;
        },
      )
      else (not_deleted revision (get lib clock id db), db)
