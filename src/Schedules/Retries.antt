-- ===== src/Schedules/Retries.antt =====
-- How often a run is tried.
use marvo.Base.{
  ◌≡◌, ◌<◌, refl, arith, Bool, true, false, ◌&&◌, Bool-cases, inl, inr, ◌⊎◌, ◌==◌, nat_eq,
}
use marvo.Scheduling.{Instant, CronLibrary, truncate}
use marvo.Sql.{Result, ok, err, Tx, require, committed, and_then}
use marvo.Schedules.Tables.{
  Error, conflict, Schedule, ScheduleRun, ClaimedScheduleRun, Db, is_running, read_run,
  read_schedule,
}
use marvo.Schedules.Finish.{claimed_rows, reread}
use marvo.Schedules.Failure.{
  ScheduleFailure, normalize_failure, can_retry, fail_run, finish_failure, finish_failure_tx,
  reread_retried,
}

-- What a transaction that succeeds returns.
abbrev Returns : {A : Type 0} → (A → Type 0) → Result Error (A × Db) → Type 0
Returns P (ok (a, db)) = P a
Returns P (err e) = Unit

bind-Returns :
    {A B : Type 0} (P : A → Type 0) (Q : B → Type 0) (r : Result Error (A × Db))
    (f : A → Tx Db Error B)
    → Returns P r
    → ((a : A) (s : Db) → P a → Returns Q (f a s))
    → Returns Q (elim r as (λ _. Result Error (B × Db)) [ ok (a, s) ↦ f a s | err e ↦ err e ])
bind-Returns P Q (ok (a, s)) f h k = k a s h
bind-Returns P Q (err e) f h k = tt

anything : {A : Type 0} (r : Result Error (A × Db)) → Returns (λ _. Unit {0}) r
anything (ok (a, db)) = tt
anything (err e) = tt

require-Returns : (b : Bool) (e : Error) (db : Db) → Returns (λ _. b ≡ true) (require b e db)
require-Returns true e db = refl
require-Returns false e db = tt

abbrev SameAttempt : ClaimedScheduleRun → Schedule × ScheduleRun → Type 0
SameAttempt c (s, r) = r.attempt ≡ c.run.attempt

-- A retry that was granted leaves the run below its limit.
abbrev Granted : ClaimedScheduleRun → ScheduleFailure → (Schedule × ScheduleRun) × Bool → Type 0
Granted c f (rows, retried) =
    (retried ≡ false) ⊎ ((f.retryable ≡ true) × (c.run.attempt < f.max_attempts))

can_retry-Granted :
    (c : ClaimedScheduleRun) (f : ScheduleFailure) (s : Schedule) (r : ScheduleRun)
    → r.attempt ≡ c.run.attempt
    → Granted c f ((s, r), can_retry f s r)
can_retry-Granted c f s r e = elim (Bool-cases (can_retry f s r)) [
  | inl granted ↦ inr (ground arith, ground arith)
  | inr refused ↦ inl refused
]

module _ (lib : CronLibrary) (clock : Instant) where
  claimed_rows-SameAttempt :
      (c : ClaimedScheduleRun) (db : Db) → Returns (SameAttempt c) (claimed_rows lib clock c db)
  unfolding claimed_rows
  claimed_rows-SameAttempt c db =
      bind-Returns (λ _. Unit) (SameAttempt c) (read_run c.run.id db) _
        (anything (read_run c.run.id db))
        (λ run s _.
          bind-Returns (λ _. Unit) (SameAttempt c) (read_schedule lib clock run.schedule_id s) _
            (anything (read_schedule lib clock run.schedule_id s))
            (λ current s' _.
              bind-Returns (λ _. (is_running run.status && run.attempt == c.run.attempt) ≡ true)
                (SameAttempt c)
                (require (is_running run.status && run.attempt == c.run.attempt) conflict s') _
                (require-Returns (is_running run.status && run.attempt == c.run.attempt) conflict
                  s')
                (λ u s'' h. ground arith)))

  finish_failure_tx-Granted :
      (c : ClaimedScheduleRun) (f : ScheduleFailure) (t : Instant) (db : Db)
      → Returns (Granted c f) (finish_failure_tx lib clock c f t db)
  unfolding finish_failure_tx
  finish_failure_tx-Granted c f t db =
      bind-Returns (SameAttempt c) (Granted c f) (claimed_rows lib clock c db) _
        (claimed_rows-SameAttempt c db)
        (λ (s, r) db' same.
          bind-Returns (λ _. Unit) (Granted c f) (fail_run lib clock f c s r t db') _
            (anything (fail_run lib clock f c s r t db'))
            (λ u db'' _. can_retry-Granted c f s r same))

  read_back :
      (r : Result Error (Schedule × ScheduleRun)) (retried : Bool) (rows : Schedule × ScheduleRun)
      → (elim r as (λ _. Result Error ((Schedule × ScheduleRun) × Bool)) [
        | err e ↦ err e
        | ok read ↦ ok (read, retried)
      ])
        ≡ ok (rows, true)
      → retried ≡ true
  read_back (ok read) retried rows e = cc
  read_back (err x) retried rows e = cc

  committed-Granted :
      (c : ClaimedScheduleRun) (f : ScheduleFailure)
      (r : Result Error (((Schedule × ScheduleRun) × Bool) × Db)) (db : Db)
      (rows : Schedule × ScheduleRun)
      → Returns (Granted c f) r
      → (and_then (λ _. committed db r) (reread_retried lib clock) db).0 ≡ ok (rows, true)
      → (f.retryable ≡ true) × (c.run.attempt < f.max_attempts)
  unfolding reread_retried
  committed-Granted c f (ok ((found, retried), s)) db rows (inl refused) e =
      cc (refused, read_back (reread lib clock found s) retried rows e)
  committed-Granted c f (ok ((found, retried), s)) db rows (inr granted) e = granted
  committed-Granted c f (err x) db rows h e = cc

  -- A failed run is tried again only if its failure can be retried and its attempt is below the
  -- number of attempts that are allowed, or below one.
  pub finish_failure_bound :
      (c : ClaimedScheduleRun) (f : ScheduleFailure) (t : Instant) (db : Db)
      (rows : Schedule × ScheduleRun)
      → (finish_failure lib clock c f t db).0 ≡ ok (rows, true)
      → (f.retryable ≡ true) × ((c.run.attempt < 1) ⊎ (c.run.attempt < f.max_attempts))
  unfolding finish_failure
  finish_failure_bound c f t db rows e =
      let granted =
        committed-Granted c (normalize_failure f)
          (finish_failure_tx lib clock c (normalize_failure f) (truncate t) db) db rows
          (finish_failure_tx-Granted c (normalize_failure f) (truncate t) db) e in
      (granted.0, ground (arith, granted.1))
