-- ===== src/Schedules/Waits.antt =====
-- internal/store/schedule.go: when a run that failed is tried again.
use marvo.Base.{
  ◌+◌, ◌≡◌, refl, sym, ap, subst, arith, String, Bool, true, false, ◌&&◌, Option, none, some,
  Bool-cases, inl, inr, ◌⊎◌, ◌==◌, string_eq, nat_eq, text_iff,
}
use marvo.Scheduling.{Instant, CronLibrary, truncate}
use marvo.Sql.{Result, ok, err, Tx, require, committed, and_then, lift}
use marvo.Sql.Rows.{find_where, find_where-updated, find_where-fits}
use marvo.Schedules.Tables.{
  Error, conflict, Schedule, ScheduleRun, ClaimedScheduleRun, Db, waiting_retry, is_running,
  read_run, read_schedule, select_run, select_schedule, scan_run, get, get_run, valid_activity_id,
}
use marvo.Schedules.Progress.{holds}
use marvo.Schedules.Finish.{claimed_rows, reread}
use marvo.Schedules.Failure.{
  ScheduleFailure, normalize_failure, can_retry, fail_run, retry, finish_failure, finish_failure_tx,
  reread_retried,
}

-- What a transaction that succeeds returns and leaves.
abbrev Leaves {ℓ} : {A : Type ℓ} → (A → Db → Type 0) → Result Error (A × Db) → Type 0
Leaves P (ok (a, db)) = P a db
Leaves P (err e) = Unit

bind-Leaves :
    {A B : Type 0} (P : A → Db → Type 0) (Q : B → Db → Type 0) (r : Result Error (A × Db))
    (f : A → Tx Db Error B)
    → Leaves P r
    → ((a : A) (s : Db) → P a s → Leaves Q (f a s))
    → Leaves Q (elim r as (λ _. Result Error (B × Db)) [ ok (a, s) ↦ f a s | err e ↦ err e ])
bind-Leaves P Q (ok (a, s)) f h k = k a s h
bind-Leaves P Q (err e) f h k = tt

lift-Leaves :
    {A : Type 0} (r : Result Error A) (db : Db) → Leaves (λ a s. (r ≡ ok a) × (s ≡ db)) (lift r db)
lift-Leaves (ok a) db = (refl, refl)
lift-Leaves (err e) db = tt

require-Leaves :
    (b : Bool) (e : Error) (db : Db) → Leaves (λ _ s. (b ≡ true) × (s ≡ db)) (require b e db)
require-Leaves true e db = (refl, refl)
require-Leaves false e db = tt

scanned : (o : Option ScheduleRun) (r : ScheduleRun) → scan_run o ≡ ok r → o ≡ some r
unfolding scan_run
scanned none r e = cc
scanned (some q) r e = let same : q ≡ r = cc e in ap some same

-- The rows that are returned: the run is what the tables hold, and waits for its time.
abbrev pub WaitsUntil : Instant → Schedule × ScheduleRun → Db → Type 0
WaitsUntil at rows db =
    (find_where (λ q. q.id == rows.1.id) db.runs ≡ some rows.1)
    × (rows.1.status ≡ waiting_retry)
    × (rows.1.next_attempt_at ≡ some at)

module _ (lib : CronLibrary) (clock : Instant) (c : ClaimedScheduleRun) where
  -- The row of the run is there, and held by the claim.
  IsHeld : Schedule × ScheduleRun → Db → Type 0
  IsHeld (s, r) db =
      (find_where (λ q. q.id == r.id) db.runs ≡ some r) × (holds r.id c.run.attempt r ≡ true)

  -- The run that is read is the row of its own id.
  listed :
      (r : ScheduleRun) (db : Db)
      → select_run c.run.id db ≡ ok r
      → find_where (λ q. q.id == r.id) db.runs ≡ some r
  unfolding select_run
  listed r db e =
      let found = scanned (find_where (λ q. q.id == c.run.id) db.runs) r e in
      let own : r.id ≡ c.run.id =
        ground (
          arith,
          find_where-fits (λ q. q.id == c.run.id) db.runs r found,
          text_iff r.id c.run.id,
        ) in
      subst (λ id. find_where (λ q. q.id == id) db.runs ≡ some r) (sym own) found

  claimed_rows-IsHeld : (db : Db) → Leaves IsHeld (claimed_rows lib clock c db)
  unfolding claimed_rows IsHeld
  claimed_rows-IsHeld db =
      bind-Leaves (λ r s. (select_run c.run.id db ≡ ok r) × (s ≡ db)) IsHeld (read_run c.run.id db)
        _ (lift-Leaves (select_run c.run.id db) db)
        (λ r s1 (read, same1).
          bind-Leaves (λ _ s. s ≡ s1) IsHeld (read_schedule lib clock r.schedule_id s1) _
            (unchanged (select_schedule lib clock r.schedule_id s1) s1)
            (λ current s2 same2.
              bind-Leaves
                (λ _ s. ((is_running r.status && r.attempt == c.run.attempt) ≡ true) × (s ≡ s2))
                IsHeld (require (is_running r.status && r.attempt == c.run.attempt) conflict s2) _
                (require-Leaves (is_running r.status && r.attempt == c.run.attempt) conflict s2)
                (λ u s3 (mine, same3). (
                  rw (same3, same2, same1) (listed r db read),
                  ground (arith, mine, text_iff r.id r.id),
                ))))
    where
      unchanged : {A : Type 0} (r : Result Error A) (s : Db) → Leaves (λ _ t. t ≡ s) (lift r s)
      unchanged (ok a) s = refl
      unchanged (err e) s = tt

  -- A run that will be tried again waits for its time.
  IsWaiting : Instant → (Schedule × ScheduleRun) × Bool → Db → Type 0
  IsWaiting at ((s, r), retried) db =
      (retried ≡ false)
      ⊎ ((q : ScheduleRun) × (find_where (λ q. q.id == r.id) db.runs ≡ some q)
          × (q.status ≡ waiting_retry)
          × (q.next_attempt_at ≡ some at))

  fail_run-IsWaiting :
      (f : ScheduleFailure) (t : Instant) (s : Schedule) (r : ScheduleRun) (db : Db)
      → IsHeld (s, r) db
      → Leaves
          (λ _. IsWaiting (truncate (t + f.retry_delay)) ((s, r), can_retry f s r))
          (fail_run lib clock f c s r t db)
  unfolding fail_run IsHeld IsWaiting
  fail_run-IsWaiting f t s r db (found, held) = elim (Bool-cases (can_retry f s r)) [
    | inl again ↦
        let at = truncate (t + f.retry_delay) in
        let row =
          find_where-updated (λ q. q.id == r.id) (holds r.id c.run.attempt) (retry at f.error t)
            db.runs r (λ q. refl) found in
        rw again (inr (retry at f.error t r, rw held at row, refl, refl))
    | inr final ↦ rw final (closed _)
  ]
    where
      closed :
          (x : Result Error (Unit {0} × Db))
          → Leaves (λ _ db'. IsWaiting (truncate (t + f.retry_delay)) ((s, r), false) db') x
      closed (ok (a, s')) = inl refl
      closed (err e) = tt

  finish_failure_tx-IsWaiting :
      (f : ScheduleFailure) (t : Instant) (db : Db)
      → Leaves (IsWaiting (truncate (t + f.retry_delay))) (finish_failure_tx lib clock c f t db)
  unfolding finish_failure_tx IsHeld
  finish_failure_tx-IsWaiting f t db =
      bind-Leaves IsHeld (IsWaiting (truncate (t + f.retry_delay))) (claimed_rows lib clock c db) _
        (claimed_rows-IsHeld db)
        (λ (s, r) db' (found, held).
          bind-Leaves (λ _. IsWaiting (truncate (t + f.retry_delay)) ((s, r), can_retry f s r))
            (IsWaiting (truncate (t + f.retry_delay))) (fail_run lib clock f c s r t db') _
            (fail_run-IsWaiting f t s r db' (found, held)) (λ u s' h. h))

  -- What is read back of a run, where it is read at all.
  got :
      (id : String) (db : Db) (q r : ScheduleRun)
      → get_run id db ≡ ok r
      → find_where (λ q. q.id == id) db.runs ≡ some q
      → q ≡ r
  unfolding get_run select_run scan_run
  got id db q r e found = elim (Bool-cases (valid_activity_id id)) [
    | inl valid ↦ cc (rw (valid, found) at e)
    | inr bad ↦ cc (rw bad at e)
  ]

  reread_lem :
      (rows : Schedule × ScheduleRun) (db : Db) (read : Schedule × ScheduleRun)
      → reread lib clock rows db ≡ ok read
      → get_run rows.1.id db ≡ ok read.1
  unfolding reread
  reread_lem (s, r) db read e = by_parts (get lib clock s.id db) (get_run r.id db) e
    where
      by_parts :
          (x : Result Error Schedule) (y : Result Error ScheduleRun)
          → (elim x as (λ _. Result Error (Schedule × ScheduleRun)) [
            | err e ↦ err e
            | ok updated ↦ elim y as (λ _. Result Error (Schedule × ScheduleRun)) [
              | err e ↦ err e
              | ok finished ↦ ok (updated, finished)
            ]
          ])
            ≡ ok read
          → y ≡ ok read.1
      by_parts (err e) y k = cc
      by_parts (ok updated) (err e) k = cc
      by_parts (ok updated) (ok finished) k =
          let pair : (updated, finished) ≡ read = cc k in
          ap (λ (p : Schedule × ScheduleRun). ok p.1) pair

  read_back :
      (found : Schedule × ScheduleRun) (retried : Bool) (db : Db) (rows : Schedule × ScheduleRun)
      → reread_retried lib clock (found, retried) db ≡ ok (rows, true)
      → (retried ≡ true) × (reread lib clock found db ≡ ok rows)
  unfolding reread_retried
  read_back found retried db rows e = by_parts (reread lib clock found db) e
    where
      by_parts :
          (x : Result Error (Schedule × ScheduleRun))
          → (elim x as (λ _. Result Error ((Schedule × ScheduleRun) × Bool)) [
            | err e ↦ err e
            | ok read ↦ ok (read, retried)
          ])
            ≡ ok (rows, true)
          → (retried ≡ true) × (x ≡ ok rows)
      by_parts (err e) k = cc
      by_parts (ok read) k =
          let pair : (read, retried) ≡ (rows, true) = cc k in
          (
            ap (λ (p : (Schedule × ScheduleRun) × Bool). p.1) pair,
            ap (λ (p : (Schedule × ScheduleRun) × Bool). ok p.0) pair,
          )

  IsWaiting-WaitsUntil :
      (at : Instant) (found : Schedule × ScheduleRun) (retried : Bool) (db : Db)
      (rows : Schedule × ScheduleRun)
      → IsWaiting at (found, retried) db
      → reread_retried lib clock (found, retried) db ≡ ok (rows, true)
      → WaitsUntil at rows db
  unfolding IsWaiting
  IsWaiting-WaitsUntil at (s, r) retried db rows (inl final) e =
      cc (final, (read_back (s, r) retried db rows e).0)
  IsWaiting-WaitsUntil at (s, r) retried db rows (inr (q, there, status, next)) e =
      let same : q ≡ rows.1 =
        got r.id db q rows.1 (reread_lem (s, r) db rows (read_back (s, r) retried db rows e).1)
          there in
      let own : q.id ≡ r.id =
        ground (arith, find_where-fits (λ q. q.id == r.id) db.runs q there, text_iff q.id r.id) in
      subst
        (λ (x : ScheduleRun).
          (find_where (λ q. q.id == x.id) db.runs ≡ some x)
          × (x.status ≡ waiting_retry)
          × (x.next_attempt_at ≡ some at))
        same
        (subst (λ id. find_where (λ q. q.id == id) db.runs ≡ some q) (sym own) there, status, next)

  committed-WaitsUntil :
      (at : Instant) (r : Result Error (((Schedule × ScheduleRun) × Bool) × Db)) (db : Db)
      (rows : Schedule × ScheduleRun)
      → Leaves (IsWaiting at) r
      → (and_then (λ _. committed db r) (reread_retried lib clock) db).0 ≡ ok (rows, true)
      → WaitsUntil at rows (and_then (λ _. committed db r) (reread_retried lib clock) db).1
  committed-WaitsUntil at (ok ((found, retried), s)) db rows h e =
      IsWaiting-WaitsUntil at found retried s rows h e
  committed-WaitsUntil at (err x) db rows h e = cc

  -- The run of a failure that is retried waits in the tables until the delay after the failure is over.
  pub finish_failure-WaitsUntil :
      (f : ScheduleFailure) (t : Instant) (db : Db) (rows : Schedule × ScheduleRun)
      → (finish_failure lib clock c f t db).0 ≡ ok (rows, true)
      → WaitsUntil
          (truncate (truncate t + f.retry_delay))
          rows
          (finish_failure lib clock c f t db).1
  unfolding finish_failure
  finish_failure-WaitsUntil f t db rows =
      committed-WaitsUntil (truncate (truncate t + f.retry_delay))
        (finish_failure_tx lib clock c (normalize_failure f) (truncate t) db) db rows
        (finish_failure_tx-IsWaiting (normalize_failure f) (truncate t) db)
