-- ===== src/Schedules/Notes.antt =====
-- What a worker records of its run keeps the invariant of the tables.
use marvo.Base.{
  ℕ, ◌/◌, refl, arith, String, Bool, Option, none, some, Bool-cases, inl, inr, if-elim, ℤ, pos,
  ◌==◌, string_eq, nat_eq, trim_space,
}
use marvo.Scheduling.{Instant, Duration, second, CronLibrary, truncate}
use marvo.Scheduling.Calendar.{clamp_adaptive}
use marvo.Sql.{Result, ok, err}
use marvo.Sql.Rows.{count_where}
use marvo.Sql.Keeps.{Keeps, commit-Keeps}
use marvo.Schedules.Tables.{Error, Schedule, ScheduleRun, Db, get, normalize_schedule_error}
use marvo.Schedules.Progress.{
  holds, holds_of, runs_for, renew_lease, require_one, set_run_session, set_run_session_tx,
  bad_message, set_run_request_message, set_run_response_message, propose, propose_found,
  set_adaptive_next, interrupt_run,
}
use marvo.Schedules.Invariant.{
  IsSound, IsStep, update_where-IsSound, update_where_schedules-IsSound,
}
use marvo.Schedules.Steps.{note-IsStep, retry-IsStep, Runs}

pub holds-Runs : (id : String) (attempt : ℕ) → Runs (holds id attempt)
holds-Runs id attempt r h = ground arith

holds_of-Runs : (owner id : String) (attempt : ℕ) → Runs (holds_of owner id attempt)
holds_of-Runs owner id attempt r h = ground arith

runs_for-Runs : (owner : String) → Runs (runs_for owner)
runs_for-Runs owner r h = ground arith

pub renew_lease-IsSound :
    (run_id : String) (attempt : ℕ) (lease_until now : Instant) (db : Db)
    → IsSound db
    → IsSound (renew_lease run_id attempt lease_until now db).1
unfolding renew_lease
renew_lease-IsSound run_id attempt lease_until now db sound =
    if-elim (λ (out : Result Error Bool × Db). IsSound out.1) _ _ _ sound
      (update_where-IsSound (holds run_id attempt) _ db
        (note-IsStep (holds run_id attempt)
          (λ r. record r { lease_until = some (truncate lease_until); updated_at = truncate now })
          (holds-Runs run_id attempt) (λ r. refl) (λ r. refl) (λ r. refl)
          (λ r shape. (refl, shape.1, shape.2)))
        sound)

require_one-Keeps :
    (p : ScheduleRun → Bool) (f : ScheduleRun → ScheduleRun)
    → IsStep p f
    → Keeps IsSound (require_one p f)
unfolding require_one
require_one-Keeps p f step db sound = elim (Bool-cases (count_where p db.runs == 1)) [
  | inl e ↦ rw e (update_where-IsSound p f db step sound)
  | inr e ↦ rw e tt
]

set_run_session_tx-Keeps :
    (owner run_id : String) (attempt : ℕ) (session : String) (now : Instant)
    → Keeps IsSound (set_run_session_tx owner run_id attempt session now)
unfolding set_run_session_tx
set_run_session_tx-Keeps owner run_id attempt session now db sound =
    require_one-Keeps (holds_of owner run_id attempt)
      (λ r. record r { session_id = session; updated_at = truncate now })
      (note-IsStep (holds_of owner run_id attempt)
        (λ r. record r { session_id = session; updated_at = truncate now })
        (holds_of-Runs owner run_id attempt) (λ r. refl) (λ r. refl) (λ r. refl) (λ r shape. shape))
      _
      (update_where_schedules-IsSound (λ s. s.id == owner)
        (λ s. record s { session_id = session; updated_at = truncate now }) db
        (record { same_id = λ s. refl; keeps_shape = λ s h shape. shape }) sound)

pub set_run_session-IsSound :
    (owner run_id : String) (attempt : ℕ) (session : String) (now : Instant) (db : Db)
    → IsSound db
    → IsSound (set_run_session owner run_id attempt session now db).1
unfolding set_run_session
set_run_session-IsSound owner run_id attempt session now db sound =
    if-elim (λ (out : Result Error (Unit {0}) × Db). IsSound out.1) _ _ _ sound
      (commit-Keeps IsSound (set_run_session_tx owner run_id attempt (trim_space session) now) db
        (set_run_session_tx-Keeps owner run_id attempt (trim_space session) now) sound)

pub set_run_request_message-IsSound :
    (run_id : String) (attempt : ℕ) (message : String) (now : Instant) (db : Db)
    → IsSound db
    → IsSound (set_run_request_message run_id attempt message now db).1
unfolding set_run_request_message
set_run_request_message-IsSound run_id attempt message now db sound =
    if-elim (λ (out : Result Error (Unit {0}) × Db). IsSound out.1)
      (bad_message run_id attempt (trim_space message)) _ _ sound
      (update_where-IsSound (holds run_id attempt) _ db
        (note-IsStep (holds run_id attempt)
          (λ r. record r {
            request_message_id = trim_space message;
            message_id = "";
            updated_at = truncate now;
          })
          (holds-Runs run_id attempt) (λ r. refl) (λ r. refl) (λ r. refl) (λ r shape. shape))
        sound)

pub set_run_response_message-IsSound :
    (run_id : String) (attempt : ℕ) (message : String) (now : Instant) (db : Db)
    → IsSound db
    → IsSound (set_run_response_message run_id attempt message now db).1
unfolding set_run_response_message
set_run_response_message-IsSound run_id attempt message now db sound =
    if-elim (λ (out : Result Error (Unit {0}) × Db). IsSound out.1)
      (bad_message run_id attempt (trim_space message)) _ _ sound
      (update_where-IsSound (holds run_id attempt) _ db
        (note-IsStep (holds run_id attempt)
          (λ r. record r { message_id = trim_space message; updated_at = truncate now })
          (holds-Runs run_id attempt) (λ r. refl) (λ r. refl) (λ r. refl) (λ r shape. shape))
        sound)

pub interrupt_run-IsSound :
    (clock : Instant) (run_id : String) (attempt : ℕ) (retry_at : Instant) (reason : String)
    (db : Db)
    → IsSound db
    → IsSound (interrupt_run clock run_id attempt retry_at reason db).1
unfolding interrupt_run
interrupt_run-IsSound clock run_id attempt retry_at reason db sound =
    if-elim (λ (out : Result Error (Unit {0}) × Db). IsSound out.1) _ _ _ sound
      (update_where-IsSound (holds run_id attempt) _ db
        (retry-IsStep (holds run_id attempt) (truncate retry_at) (normalize_schedule_error reason)
          (truncate clock) (holds-Runs run_id attempt))
        sound)

module _ (lib : CronLibrary) (clock : Instant) where
  propose-IsSound :
      (id : String) (now : Instant) (s : Schedule) (o : Option Duration) (db : Db)
      → IsSound db
      → IsSound (propose lib clock id now s o db).1
  unfolding propose
  propose-IsSound id now s none db sound = sound
  propose-IsSound id now s (some delay) db sound =
      update_where-IsSound (runs_for id) _ db
        (note-IsStep (runs_for id)
          (λ r. record r {
            adaptive_next_seconds = pos (delay / second);
            updated_at = truncate now;
          })
          (runs_for-Runs id) (λ r. refl) (λ r. refl) (λ r. refl) (λ r shape. shape))
        sound

  propose_found-IsSound :
      (id : String) (delay : ℤ) (now : Instant) (r : Result Error Schedule) (db : Db)
      → IsSound db
      → IsSound (propose_found lib clock id delay now r db).1
  unfolding propose_found
  propose_found-IsSound id delay now (err e) db sound = sound
  propose_found-IsSound id delay now (ok s) db sound =
      propose-IsSound id now s (clamp_adaptive lib s.definition clock delay) db sound

  pub set_adaptive_next-IsSound :
      (id : String) (delay : ℤ) (now : Instant) (db : Db)
      → IsSound db
      → IsSound (set_adaptive_next lib clock id delay now db).1
  unfolding set_adaptive_next
  set_adaptive_next-IsSound id delay now db sound =
      propose_found-IsSound id delay now (get lib clock id db) db sound
