-- ===== src/Tests/Schedules.antt =====
-- internal/store/schedule.go at concrete inputs.
use marvo.Base.{
  ◌+◌, ◌≡◌, refl, arith, String, true, false, ◌||◌, none, some, [], ◌∷◌, exists, pos, string_eq,
  trim_space,
}
use marvo.Scheduling.{Instant, truncate, normalize, has_adaptive_fields, seconds_duration}
use marvo.Scheduling.Calendar.{next, normalize_existing}
use marvo.Sql.{ok}
use marvo.Sql.Rows.{count_where, find_where, least_where, update_where}
use marvo.Sql.Columns.{reached}
use marvo.Sql.Fails.{Refused}
use marvo.Schedules.Tables.{
  Schedule, ScheduleRun, ClaimedScheduleRun, Db, active, queued, succeeded, scheduled,
  scheduled_key, valid_activity_id, select_schedule, select_run,
}
use marvo.Schedules.Edit.{ScheduleInput, update, pause, resume, complete, delete}
use marvo.Schedules.Queue.{claim_due, claimed, next_wake, is_due_run, is_due_schedule, is_expired}
use marvo.Schedules.Finish.{finish_success, finish_cancelled}
use marvo.Schedules.Failure.{ScheduleFailure, finish_failure}
use marvo.Schedules.Invariant.{IsSound}
use marvo.Schedules.Reach.{Reach, Reach-IsSound, empty_db, after}
use marvo.Schedules.Reach
use marvo.Schedules.Fencing.{Stale, Stale-finish-Refused}
use marvo.Schedules.Revisions.{DeleteRefused, Outdated-Refused}
use marvo.Schedules.Wake.{next_wake_iff}
use marvo.Schedules.Claimed.{IsClaim, claim_due-IsClaim}
use marvo.Schedules.Counted.{claim_due-Stale}
use marvo.Tests.Scheduling.{every_second, hourly, unset}

abbrev pub task : String
task = "0123456789abcdef0123456789abcdef"

abbrev other_task : String
other_task = "f123456789abcdef0123456789abcdef"

abbrev first_run : String
first_run = "1123456789abcdef0123456789abcdef"

abbrev second_run : String
second_run = "2123456789abcdef0123456789abcdef"

abbrev pub title : String
title = "report"

abbrev drawn_key : String
drawn_key = "k"

-- An hourly schedule that is due at 3602 seconds.
abbrev pub report : Schedule
report = record {
  id = task;
  name = title;
  instruction = title;
  definition = hourly;
  status = active;
  next_run_at = some 3602000000000;
  session_id = unset;
  revision = 1;
  consecutive_failures = 0;
  last_error = unset;
  last_run_at = none;
  paused_reason = unset;
  created_at = 0;
  updated_at = 0;
}

abbrev waiting_run : ScheduleRun
waiting_run = record {
  id = first_run;
  schedule_id = task;
  schedule_revision = 1;
  occurrence_key = scheduled_key task 3602000000000;
  trigger = scheduled;
  scheduled_for = 3602000000000;
  status = queued;
  attempt = 0;
  next_attempt_at = some 3602000000000;
  lease_until = none;
  session_id = unset;
  request_message_id = unset;
  message_id = unset;
  adaptive_next_seconds = pos 0;
  error = unset;
  created_at = 3602000000000;
  started_at = none;
  finished_at = none;
  updated_at = 3602000000000;
}

abbrev pub waiting_db : Db
waiting_db = record { schedules = report ∷ []; runs = waiting_run ∷ [] }

abbrev idle_db : Db
idle_db = record { schedules = report ∷ []; runs = [] }

abbrev pub now : Instant
now = 3603000000000

abbrev pub minute : Instant
minute = 60000000000

abbrev pub claim : ClaimedScheduleRun
claim = record { schedule = report; run = claimed now (now + minute) waiting_run }

abbrev pub claimed_db : Db
claimed_db = record { schedules = report ∷ []; runs = claim.run ∷ [] }

pub waiting_db-IsSound : IsSound waiting_db
unfolding count_where
waiting_db-IsSound = record {
  one_run = λ id. ground arith;
  one_open = λ id. ground arith;
  runs_shaped = ((refl, refl), tt);
  one_schedule = λ id. ground arith;
  schedules_shaped = ((refl, omega arith), tt);
}

claims : claim_due every_second now second_run now minute waiting_db ≡ (ok (some claim), claimed_db)
unfolding claim_due least_where update_where count_where select_run find_where select_schedule next
    normalize_existing normalize trim_space has_adaptive_fields seconds_duration
claims = refl

stale : Stale first_run 2 claimed_db
stale = refl

Reach-IsSound_example : IsSound (
    after every_second now (Reach.run_at_once task first_run drawn_key now) (
      after every_second now
        (Reach.created task (record { name = title; instruction = title; definition = hourly }) now)
        empty_db))
Reach-IsSound_example = Reach-IsSound every_second _ (
    Reach.step now (Reach.run_at_once task first_run drawn_key now) _ (
      Reach.step now
        (Reach.created task (record { name = title; instruction = title; definition = hourly }) now)
        _ Reach.start))

claim_due-IsClaim_example : IsClaim (truncate (truncate now + minute)) claim claimed_db
claim_due-IsClaim_example =
    claim_due-IsClaim every_second now second_run now minute waiting_db claimed_db claim
      waiting_db-IsSound claims

claim_due-Stale_example :
    (claim.run.attempt ≡ waiting_run.attempt + 1) × Stale first_run 0 claimed_db
unfolding find_where
claim_due-Stale_example =
    claim_due-Stale every_second now second_run now minute waiting_db claimed_db claim waiting_run 0
      waiting_db-IsSound claims refl (omega arith)

abbrev pub failure : ScheduleFailure
failure = record {
  error = title;
  retryable = true;
  is_timed_out = false;
  retry_delay = minute;
  max_attempts = 3;
}

abbrev old_claim : ClaimedScheduleRun
old_claim = record { schedule = report; run = record claim.run { attempt = 2 } }

Stale-finish-Refused_example :
    Refused (finish_success every_second now old_claim now claimed_db) claimed_db
    × Refused (finish_failure every_second now old_claim failure now claimed_db) claimed_db
    × Refused (finish_cancelled every_second now old_claim now claimed_db) claimed_db
Stale-finish-Refused_example =
    Stale-finish-Refused every_second now old_claim failure now claimed_db stale

abbrev input : ScheduleInput
input = record { name = title; instruction = title; definition = hourly }

Outdated-Refused_example :
    Refused (update every_second now task 2 input now claimed_db) claimed_db
    × Refused (pause every_second now task 2 title now claimed_db) claimed_db
    × Refused (resume every_second now task 2 now claimed_db) claimed_db
    × Refused (complete every_second now task 2 now claimed_db) claimed_db
    × DeleteRefused task (delete every_second now task 2 claimed_db) claimed_db
Outdated-Refused_example = Outdated-Refused every_second now task 2 input title now claimed_db refl

-- A schedule whose run is over is deleted, and its run with it.
abbrev done_db : Db
done_db = record {
  schedules = report ∷ [];
  runs = record claim.run { status = succeeded; lease_until = none; finished_at = some now } ∷ [];
}

deletes : delete every_second now task 1 done_db ≡ (ok true, empty_db)
unfolding delete valid_activity_id
deletes = refl

next_wake_iff_example : reached (next_wake claimed_db) now ≡ (
    exists (is_due_schedule claimed_db now) claimed_db.schedules
    || exists (λ r. is_due_run now r || is_expired now r) claimed_db.runs)
next_wake_iff_example = next_wake_iff claimed_db now
