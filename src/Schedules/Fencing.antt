-- ===== src/Schedules/Fencing.antt =====
-- A worker whose claim is over cannot change anything: its run was claimed again, or is no longer running.
use marvo.Base.{
  ℕ, ◌≡◌, ◌≢◌, refl, ap, arith, String, Bool, true, false, not, ◌&&◌, ◌||◌, Option, none, some,
  if-elim, ltb, ◌==◌, string_eq, nat_eq, exists, trim_space,
}
use marvo.Scheduling.{Instant, CronLibrary, truncate}
use marvo.Sql.{Result, ok, Tx, ◌>>=◌, lift}
use marvo.Sql.Rows.{
  find_where, update_where, update_where_none, count_where_none, exists_of_find_where,
  find_where-fits,
}
use marvo.Sql.Fails.{is_err, Refused, bind_fails, rest_fails, require_fails, commit-Refused}
use marvo.Schedules.Tables.{
  Error, conflict, not_found, ScheduleRun, ClaimedScheduleRun, Db, is_running, read_schedule,
  select_run, scan_run, valid_activity_id,
}
use marvo.Schedules.Progress.{
  holds, renew_lease, interrupt_run, set_run_request_message, set_run_response_message, bad_message,
  change_run,
}
use marvo.Schedules.Finish.{
  claimed_rows, finish_success, finish_success_tx, finish_cancelled, finish_cancelled_tx, reread,
}
use marvo.Schedules.Failure.{
  ScheduleFailure, finish_failure, finish_failure_tx, normalize_failure, reread_retried,
}

-- No running run has this id and this attempt.
abbrev pub Stale : String → ℕ → Db → Type 0
Stale id attempt db = exists (holds id attempt) db.runs ≡ false

-- A run that is read, and then refused whatever run it is.
read_fails :
    {A : Type 0} (o : Option ScheduleRun) (k : ScheduleRun → Tx Db Error A) (db : Db)
    → ((r : ScheduleRun) → o ≡ some r → is_err (k r db) ≡ true)
    → is_err (((λ s. lift (scan_run o) s) >>= k) db) ≡ true
unfolding scan_run
read_fails none k db h = refl
read_fails (some r) k db h = h r refl

module _ (lib : CronLibrary) (clock : Instant) where
  over :
      (c : ClaimedScheduleRun) (db : Db) (run : ScheduleRun)
      → Stale c.run.id c.run.attempt db
      → find_where (λ r. r.id == c.run.id) db.runs ≡ some run
      → (is_running run.status && run.attempt == c.run.attempt) ≡ false
  over c db run stale e = ground (
    arith,
    find_where-fits (λ r. r.id == c.run.id) db.runs run e,
    exists_of_find_where (λ r. r.id == c.run.id) (holds c.run.id c.run.attempt) db.runs run e,
  )

  -- A claim that is over is found out before anything is written.
  claimed_rows-fails :
      (c : ClaimedScheduleRun) (db : Db)
      → Stale c.run.id c.run.attempt db
      → is_err (claimed_rows lib clock c db) ≡ true
  unfolding claimed_rows select_run
  claimed_rows-fails c db stale =
      read_fails (find_where (λ r. r.id == c.run.id) db.runs) _ db (λ run e.
        rest_fails (read_schedule lib clock run.schedule_id) _ db (λ current s.
          require_fails (is_running run.status && run.attempt == c.run.attempt) conflict _ s
            (over c db run stale e)))

  -- A worker whose run was claimed again, or closed, cannot end it: success, failure and
  -- cancellation return an error and leave the tables as they are.
  pub Stale-finish-Refused :
      (c : ClaimedScheduleRun) (f : ScheduleFailure) (finished_at : Instant) (db : Db)
      → Stale c.run.id c.run.attempt db
      → Refused (finish_success lib clock c finished_at db) db
        × Refused (finish_failure lib clock c f finished_at db) db
        × Refused (finish_cancelled lib clock c finished_at db) db
  unfolding finish_success finish_failure finish_cancelled finish_success_tx finish_failure_tx
      finish_cancelled_tx
  Stale-finish-Refused c f finished_at db stale =
      let fails = claimed_rows-fails c db stale in
      let t = truncate finished_at in
      (
        commit-Refused (finish_success_tx lib clock c t) (reread lib clock) db
            (bind_fails (claimed_rows lib clock c) _ db fails),
        commit-Refused (finish_failure_tx lib clock c (normalize_failure f) t)
            (reread_retried lib clock) db (bind_fails (claimed_rows lib clock c) _ db fails),
        commit-Refused (finish_cancelled_tx lib clock c t) (reread lib clock) db
            (bind_fails (claimed_rows lib clock c) _ db fails),
      )

same_runs :
    (p : ScheduleRun → Bool) (f : ScheduleRun → ScheduleRun) (db : Db)
    → exists p db.runs ≡ false
    → record db { runs = update_where p f db.runs } ≡ db
same_runs p f db e = ap (λ runs. record db { runs = runs }) (update_where_none p f db.runs e)

change_run-Refused :
    (p : ScheduleRun → Bool) (f : ScheduleRun → ScheduleRun) (e : Error) (db : Db)
    → exists p db.runs ≡ false
    → Refused (change_run p f e db) db
change_run-Refused p f e db h = (rw (count_where_none p db.runs h) refl, same_runs p f db h)

-- Such a worker cannot hold the run either: renewing the lease does not succeed, and the interruption
-- and the notes are refused, all without a change.
pub Stale-notes-Refused :
    (id : String) (attempt : ℕ) (t now : Instant) (text : String) (db : Db)
    → Stale id attempt db
    → ((renew_lease id attempt t now db).1 ≡ db)
      × ((renew_lease id attempt t now db).0 ≢ ok true)
      × Refused (interrupt_run now id attempt t text db) db
      × Refused (set_run_request_message id attempt text now db) db
      × Refused (set_run_response_message id attempt text now db) db
unfolding renew_lease interrupt_run set_run_request_message set_run_response_message
Stale-notes-Refused id attempt t now text db stale =
    let n = count_where_none (holds id attempt) db.runs stale in
    let bad = not (valid_activity_id id) || ltb attempt 1 in
    (
      if-elim (λ (out : Result Error Bool × Db). out.1 ≡ db) bad _ _ refl
          (same_runs (holds id attempt) _ db stale),
      if-elim (λ (out : Result Error Bool × Db). out.0 ≢ ok true) bad _ _ (λ e. cc)
          (λ e. ground (arith, n)),
      if-elim (λ (out : Result Error (Unit {0}) × Db). Refused out db) bad _ _ (refl, refl)
          (rw n refl, same_runs (holds id attempt) _ db stale),
      if-elim (λ (out : Result Error (Unit {0}) × Db). Refused out db)
          (bad_message id attempt (trim_space text)) _ _ (refl, refl)
          (change_run-Refused (holds id attempt) _ not_found db stale),
      if-elim (λ (out : Result Error (Unit {0}) × Db). Refused out db)
          (bad_message id attempt (trim_space text)) _ _ (refl, refl)
          (change_run-Refused (holds id attempt) _ not_found db stale),
    )
