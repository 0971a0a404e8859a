-- ===== src/Schedules/Counted.antt =====
-- internal/store/schedule.go: the number of the attempt that ClaimDue hands out.
use marvo.Base.{
  ℕ, ◌+◌, ◌≡◌, ◌≤◌, refl, sym, ap, subst, arith, String, Bool, true, Option, none, some, List, [],
  ◌∷◌, if-elim, ltb, Bool-cases, inl, inr, ◌==◌, string_eq, nat_eq, text_iff,
}
use marvo.Scheduling.{Instant, Duration, CronLibrary, truncate, minimum_interval}
use marvo.Sql.{Result, ok, err, Tx, ◌>>=◌, lift, committed}
use marvo.Sql.Rows.{
  find_where-updated, find_where-append, find_where, update_where, count_where, find_where-fits,
  count_where_mono, least_where,
}
use marvo.Sql.Keeps.{Sound, Keeps}
use marvo.Schedules.Tables.{
  Error, Schedule, ScheduleRun, ClaimedScheduleRun, Db, scan_run, select_run, select_schedule,
  scan_schedule,
}
use marvo.Schedules.Queue.{
  claim_due, claim_tx, pick, occur, occur_row, take_run, rolled_back, claimed, waits_as, is_expired,
  recovered, violates_unique, is_due_schedule, schedule_order,
}
use marvo.Schedules.Invariant.{IsSound, update_where-IsSound}
use marvo.Schedules.Steps.{recovered-IsStep}
use marvo.Schedules.Claims.{pick-Keeps}
use marvo.Schedules.Fencing.{Stale}
use marvo.Schedules.Claimed.{claim_due-Stale_other}

-- The row under a key is the only one that a narrower condition fits.
only_row :
    {A : Type 0} (key p : A → Bool) (xs : List A) (row : A)
    → ((x : A) → p x ≡ true → key x ≡ true)
    → find_where key xs ≡ some row
    → count_where key xs ≤ 1
    → count_where p xs ≡ 1
    → p row ≡ true
unfolding find_where count_where
only_row key p [] row sub e u w = cc
only_row key p (x ∷ xs) row sub e u w = elim (Bool-cases (key x)) [
  | inl k ↦
      let own : x ≡ row = cc (rw k at e) in
      rw (← own) (ground (arith, k, u, w, count_where_mono p key xs sub))
  | inr k ↦
      only_row key p xs row sub (rw k at e) (ground (arith, k, u)) (ground (arith, k, w, sub x))
]

-- The tables have the run, with their invariant.
record HasRun (row : ScheduleRun) (db : Db) : Type 0 where
  sound : IsSound db
  found : find_where (λ r. r.id == row.id) db.runs ≡ some row

module _ (lib : CronLibrary) (clock : Instant) (row : ScheduleRun) where
  -- A claim of the run counts its attempt.
  abbrev Counts : Result Error (Option ClaimedScheduleRun × Db) → Type 0
  Counts (ok (some c, s)) = c.run.id ≡ row.id → c.run.attempt ≡ row.attempt + 1
  Counts (ok (none, s)) = Unit
  Counts (err e) = Unit

  bind-Counts :
      {A : Type 0} (I : Db → Type 0) (r : Result Error (A × Db))
      (f : A → Tx Db Error (Option ClaimedScheduleRun))
      → Sound I r
      → ((a : A) (s : Db) → I s → Counts (f a s))
      → Counts (elim r as (λ _. Result Error (Option ClaimedScheduleRun × Db)) [
        | ok (a, s) ↦ f a s
        | err e ↦ err e
      ])
  bind-Counts I (ok (a, s)) f i h = h a s i
  bind-Counts I (err e) f i h = tt

  Found : Db → Type 0
  Found db = find_where (λ r. r.id == row.id) db.runs ≡ some row

  occur_row-Found :
      (run_id : String) (now : Instant) (r : Result Error Schedule)
      → Keeps Found (occur_row lib clock run_id now r)
  unfolding occur_row Found
  occur_row-Found run_id now (err e) db h = tt
  occur_row-Found run_id now (ok s) db h =
      if-elim (Sound Found) (violates_unique _ db.runs) _ _ h
        (find_where-append (λ r. r.id == row.id) db.runs _ row h)

  occur-Found :
      (run_id : String) (now : Instant) (o : Option Schedule)
      → Keeps Found (occur lib clock run_id now o)
  unfolding occur
  occur-Found run_id now none db h = h
  occur-Found run_id now (some s) db h =
      occur_row-Found run_id now (scan_schedule lib clock (some s)) db h

  pick-Found :
      (run_id : String) (now : Instant) (o : Option ScheduleRun)
      → Keeps Found (pick lib clock run_id now o)
  unfolding pick
  pick-Found run_id now (some r) db h = h
  pick-Found run_id now none db h =
      occur-Found run_id now (least_where (is_due_schedule db now) schedule_order db.schedules) db h

  both :
      {A : Type 0} (r : Result Error (A × Db))
      → Sound IsSound r
      → Sound Found r
      → Sound (HasRun row) r
  unfolding Found
  both (ok (a, s)) i h = record { sound = i; found = h }
  both (err e) i h = tt

  -- The row that is read back.
  read-Counts :
      (o : Option ScheduleRun) (schedules : Db → Result Error Schedule) (db : Db)
      → ((q : ScheduleRun) → o ≡ some q → q.id ≡ row.id → q.attempt ≡ row.attempt + 1)
      → Counts (
          ((λ s. lift (scan_run o) s) >>= λ run. (λ s. lift (schedules s) s) >>= λ schedule s.
          ok (some (record { schedule = schedule; run = run }), s))
            db)
  unfolding scan_run
  read-Counts none schedules db h = tt
  read-Counts (some q) schedules db h =
      bind-Counts (λ _. Unit {0}) (lift (schedules db) db) _ (anything (schedules db))
        (λ s db' u. h q refl)
    where
      anything : (r : Result Error Schedule) → Sound (λ _. Unit {0}) (lift r db)
      anything (ok s) = tt
      anything (err e) = tt

  take_run-Counts :
      (now lease_until : Instant) (o : Option ScheduleRun) (db : Db)
      → HasRun row db
      → Counts (take_run lib clock now lease_until o db)
  unfolding take_run select_run
  take_run-Counts now lease_until none db h = tt
  take_run-Counts now lease_until (some r) db h =
      elim (Bool-cases (count_where (waits_as r.id) db.runs == 1)) [
        | inr e ↦ rw e tt
        | inl e ↦
            let runs = update_where (waits_as r.id) (claimed now lease_until) db.runs in
            rw e (
              read-Counts (find_where (λ q. q.id == r.id) runs)
                (select_schedule lib clock r.schedule_id) (record db { runs = runs })
                (λ q found same.
                  let key : r.id ≡ row.id = ground (
                    arith,
                    find_where-fits (λ p. p.id == r.id) runs q found,
                    text_iff q.id r.id,
                    same,
                  ) in
                  let there : find_where (λ p. p.id == r.id) db.runs ≡ some row = rw key h.found in
                  let waits : waits_as r.id row ≡ true =
                    only_row (λ p. p.id == r.id) (waits_as r.id) db.runs row (λ p w. ground arith)
                      there (h.sound.one_run r.id) (ground arith) in
                  let now_there =
                    find_where-updated (λ p. p.id == r.id) (waits_as r.id) (claimed now lease_until)
                      db.runs row (λ p. refl) there in
                  let changed : claimed now lease_until row ≡ q =
                    cc (rw waits at now_there, found) in
                  subst (λ (p : ScheduleRun). p.attempt ≡ row.attempt + 1) changed refl))
      ]

  claim_rest-Counts :
      (run_id : String) (now lease_until : Instant) (o : Option ScheduleRun) (db : Db)
      → HasRun row db
      → Counts ((pick lib clock run_id now o >>= λ r. take_run lib clock now lease_until r) db)
  unfolding Found
  claim_rest-Counts run_id now lease_until o db h =
      bind-Counts (HasRun row) (pick lib clock run_id now o db) _
        (both (pick lib clock run_id now o db) (pick-Keeps lib clock run_id now o db h.sound)
          (pick-Found run_id now o db h.found))
        (λ r s i. take_run-Counts now lease_until r s i)

  committed-Counts :
      (r : Result Error (Option ClaimedScheduleRun × Db)) (db db' : Db) (c : ClaimedScheduleRun)
      → Counts r
      → committed db (rolled_back lib clock db r) ≡ (ok (some c), db')
      → c.run.id ≡ row.id
      → c.run.attempt ≡ row.attempt + 1
  unfolding rolled_back
  committed-Counts (ok (some q, s)) db db' c h e =
      let same : q ≡ c = cc (ap (λ out. out.0) e) in
      subst (λ (k : ClaimedScheduleRun). k.run.id ≡ row.id → k.run.attempt ≡ row.attempt + 1) same h
  committed-Counts (ok (none, s)) db db' c h e = cc (ap (λ out. out.0) e)
  committed-Counts (err x) db db' c h e = cc (ap (λ out. out.0) e)

module _ (lib : CronLibrary) (clock : Instant) where
  claim_tx-Counts :
      (row : ScheduleRun) (run_id : String) (now : Instant) (lease : Duration) (db : Db)
      → IsSound db
      → find_where (λ r. r.id == row.id) db.runs ≡ some row
      → Counts lib clock row (claim_tx lib clock run_id now lease db)
  unfolding claim_tx
  claim_tx-Counts row run_id now lease db sound found =
      let sound' =
        update_where-IsSound (is_expired now) (recovered now) db (recovered-IsStep now) sound in
      let found' =
        find_where-updated (λ r. r.id == row.id) (is_expired now) (recovered now) db.runs row
          (λ r. refl) found in
      elim (Bool-cases (is_expired now row)) [
        | inl e ↦
            claim_rest-Counts lib clock (recovered now row) run_id now (truncate (now + lease)) _ _
              (record { sound = sound'; found = rw e at found' })
        | inr e ↦
            claim_rest-Counts lib clock row run_id now (truncate (now + lease)) _ _
              (record { sound = sound'; found = rw e at found' })
      ]

  claim_due-counts :
      (run_id : String) (now : Instant) (lease : Duration) (db db' : Db) (c : ClaimedScheduleRun)
      (row : ScheduleRun)
      → IsSound db
      → claim_due lib clock run_id now lease db ≡ (ok (some c), db')
      → find_where (λ r. r.id == row.id) db.runs ≡ some row
      → c.run.id ≡ row.id
      → c.run.attempt ≡ row.attempt + 1
  unfolding claim_due
  claim_due-counts run_id now lease db db' c row sound e found =
      if-elim
        (λ (out : Result Error (Option ClaimedScheduleRun) × Db).
          out ≡ (ok (some c), db') → c.run.id ≡ row.id → c.run.attempt ≡ row.attempt + 1)
        (ltb lease minimum_interval) _ _ (λ e. cc (ap (λ out. out.0) e))
        (committed-Counts lib clock row (claim_tx lib clock run_id (truncate now) lease db) db db' c
          (claim_tx-Counts row run_id (truncate now) lease db sound found))
        e

-- A claim of a run that the tables had counts its attempt up by one, and every attempt up to the one before is stale
-- afterwards: whoever was given the run by an earlier claim holds it no more.
pub claim_due-Stale :
    (lib : CronLibrary) (clock : Instant) (run_id : String) (now : Instant) (lease : Duration)
    (db db' : Db) (c : ClaimedScheduleRun) (row : ScheduleRun) (attempt : ℕ)
    → IsSound db
    → claim_due lib clock run_id now lease db ≡ (ok (some c), db')
    → find_where (λ r. r.id == c.run.id) db.runs ≡ some row
    → attempt ≤ row.attempt
    → (c.run.attempt ≡ row.attempt + 1) × Stale c.run.id attempt db'
claim_due-Stale lib clock run_id now lease db db' c row attempt sound e found earlier =
    let own : row.id ≡ c.run.id = ground (
      arith,
      find_where-fits (λ r. r.id == c.run.id) db.runs row found,
      text_iff row.id c.run.id,
    ) in
    let counted =
      claim_due-counts lib clock run_id now lease db db' c row sound e
        (subst (λ id. find_where (λ r. r.id == id) db.runs ≡ some row) (sym own) found) (sym own) in
    (
      counted,
      claim_due-Stale_other lib clock run_id now lease db db' c attempt sound e
          (λ same. omega arith),
    )
