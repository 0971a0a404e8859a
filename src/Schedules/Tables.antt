-- ===== src/Schedules/Tables.antt =====
-- internal/store/schedule.go: the rows, and how they are read. A column of milliseconds is kept as the
-- instant on that millisecond. `clock` is the value of `time.Now()` while a method runs.
use Prim.Native.Nat.{ℕ}
use Prim.Native.Char.{code}
use Prim.Native.String.{String, len}
use marvo.Base.{
  Bool, true, false, not, ◌&&◌, ◌||◌, Option, none, some, List, leb, if◌then◌else◌, ◌==◌, string_eq,
  nat_eq, ℤ, pos, is_some, trim_space, cut_bytes,
}
use marvo.Scheduling.{Instant, Definition, CronLibrary}
use marvo.Scheduling.Calendar.{next}
use marvo.Sql.{Result, ok, err, Tx, lift}
use marvo.Sql.Rows.{find_where, update_where}

pub data Error : Type 0 where
  invalid_schedule not_found conflict busy corrupt : Error

pub data Status : Type 0 where
  active paused completed : Status

pub data RunStatus : Type 0 where
  queued running waiting_retry succeeded failed timed_out cancelled : RunStatus

pub data Trigger : Type 0 where
  scheduled manual : Trigger

-- `occurrence_key`: "scheduled:<id>:<milliseconds>" or "manual:<id>"
pub data OccurrenceKey : Type 0 where
  scheduled_key : String → Instant → OccurrenceKey
  manual_key : String → OccurrenceKey

pub record Schedule : Type 0 where
  pub id : String
  pub name : String
  pub instruction : String
  pub definition : Definition
  pub status : Status
  pub next_run_at : Option Instant
  pub session_id : String
  pub revision : ℕ
  pub consecutive_failures : ℕ
  pub last_error : String
  pub last_run_at : Option Instant
  pub paused_reason : String
  pub created_at : Instant
  pub updated_at : Instant

pub record ScheduleRun : Type 0 where
  pub id : String
  pub schedule_id : String
  pub schedule_revision : ℕ
  pub occurrence_key : OccurrenceKey
  pub trigger : Trigger
  pub scheduled_for : Instant
  pub status : RunStatus
  pub attempt : ℕ
  pub next_attempt_at : Option Instant
  pub lease_until : Option Instant
  pub session_id : String
  pub request_message_id : String
  pub message_id : String
  pub adaptive_next_seconds : ℤ
  pub error : String
  pub created_at : Instant
  pub started_at : Option Instant
  pub finished_at : Option Instant
  pub updated_at : Instant

pub record ClaimedScheduleRun : Type 0 where
  pub schedule : Schedule
  pub run : ScheduleRun

pub record Db : Type 0 where
  pub schedules : List Schedule
  pub runs : List ScheduleRun

abbrev pub max_schedule_name_runes : ℕ
max_schedule_name_runes = 200

abbrev pub max_schedule_instruction_bytes : ℕ
max_schedule_instruction_bytes = 65536

abbrev pub max_schedule_pause_reason_bytes : ℕ
max_schedule_pause_reason_bytes = 1000

abbrev pub max_schedule_error_bytes : ℕ
max_schedule_error_bytes = 4096

abbrev pub max_schedule_runs_per_task : ℕ
max_schedule_runs_per_task = 1000

-- status IN ('queued', 'running', 'waiting_retry')
abbrev pub is_open : RunStatus → Bool
is_open queued = true
is_open running = true
is_open waiting_retry = true
is_open _ = false

-- status IN ('queued', 'waiting_retry')
abbrev pub is_waiting : RunStatus → Bool
is_waiting queued = true
is_waiting waiting_retry = true
is_waiting _ = false

-- status = 'running'
abbrev pub is_running : RunStatus → Bool
is_running running = true
is_running _ = false

abbrev pub is_active : Status → Bool
is_active active = true
is_active _ = false

abbrev pub is_paused : Status → Bool
is_paused paused = true
is_paused _ = false

abbrev pub is_completed : Status → Bool
is_completed completed = true
is_completed _ = false

abbrev pub is_scheduled : Trigger → Bool
is_scheduled scheduled = true
is_scheduled manual = false

-- A run that stands in the way of another one of its schedule.
abbrev pub is_open_of : String → ScheduleRun → Bool
is_open_of schedule_id r = r.schedule_id == schedule_id && is_open r.status

abbrev is_hex : ℕ → Bool
is_hex c = leb b'0' c && leb c b'9' || leb b'a' c && leb c b'f'

unfoldable pub all_hex : String → Bool
all_hex String.[] = true
all_hex (String.◌∷◌ c s) = is_hex (code c) && all_hex s

-- 32 hexadecimal digits that are their own lower case.
unfoldable pub valid_activity_id : String → Bool
unfolding all_hex
valid_activity_id id = len id == 32 && all_hex id

-- unicode.IsControl
is_control : ℕ → Bool
is_control c = leb c 0x1f || leb 0x7f c && leb c 0x9f

unfoldable pub contains_disallowed_control : String → Bool → Bool
unfolding is_control
contains_disallowed_control String.[] multiline = false
contains_disallowed_control (String.◌∷◌ c s) multiline =
    is_control (code c) && (not multiline || not (code c == 10) && not (code c == 9))
    || contains_disallowed_control s multiline

-- A text cut to whole characters is what is left when bytes are taken off its cut form until it is valid.
unfoldable pub normalize_schedule_error : String → String
normalize_schedule_error value =
    let t = trim_space value in
    if t == ""
    then "智能体执行失败"
    else if leb (len t) max_schedule_error_bytes
    then t
    else cut_bytes max_schedule_error_bytes t

-- A row of `schedules` is read only if its definition still has a next run.
unfoldable pub scan_schedule : CronLibrary → Instant → Option Schedule → Result Error Schedule
scan_schedule lib clock none = err not_found
scan_schedule lib clock (some s) =
    if is_some (next lib s.definition clock clock (pos 0)) then ok s else err corrupt

unfoldable pub scan_run : Option ScheduleRun → Result Error ScheduleRun
scan_run none = err not_found
scan_run (some r) = ok r

module _ (lib : CronLibrary) (clock : Instant) where
  -- SELECT ... FROM schedules WHERE id = ?
  unfoldable pub select_schedule : String → Db → Result Error Schedule
  unfolding scan_schedule
  select_schedule id db = scan_schedule lib clock (find_where (λ s. s.id == id) db.schedules)

  unfoldable pub get : String → Db → Result Error Schedule
  get id db = if valid_activity_id id then select_schedule id db else err not_found

  -- A statement of a transaction that reads a schedule.
  abbrev pub read_schedule : String → Tx Db Error Schedule
  read_schedule id db = lift (select_schedule id db) db

-- SELECT ... FROM schedule_runs WHERE id = ?
unfoldable pub select_run : String → Db → Result Error ScheduleRun
unfolding scan_run
select_run id db = scan_run (find_where (λ r. r.id == id) db.runs)

unfoldable pub get_run : String → Db → Result Error ScheduleRun
get_run id db = if valid_activity_id id then select_run id db else err not_found

abbrev pub read_run : String → Tx Db Error ScheduleRun
read_run id db = lift (select_run id db) db

-- UPDATE schedules SET f WHERE p
abbrev pub update_schedules : (Schedule → Bool) → (Schedule → Schedule) → Tx Db Error (Unit {0})
update_schedules p f db = ok (tt, record db { schedules = update_where p f db.schedules })

-- UPDATE schedule_runs SET f WHERE p
abbrev pub update_runs : (ScheduleRun → Bool) → (ScheduleRun → ScheduleRun) → Tx Db Error (Unit {0})
update_runs p f db = ok (tt, record db { runs = update_where p f db.runs })
