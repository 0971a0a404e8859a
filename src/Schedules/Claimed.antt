-- ===== src/Schedules/Claimed.antt =====
-- What a claim hands out, and that a later claim of a run ends an earlier one.
use marvo.Base.{
  ℕ, ◌+◌, ◌≡◌, ◌≢◌, ◌≤◌, refl, sym, ap, subst, arith, String, Bool, true, false, Option, none, some,
  List, [], ◌∷◌, if-elim, ltb, exists, Bool-cases, inl, inr, ◌==◌, string_eq, nat_eq, text_iff,
}
use marvo.Scheduling.{Instant, Duration, CronLibrary, truncate, minimum_interval}
use marvo.Sql.{Result, ok, err, Tx, ◌>>=◌, lift, committed}
use marvo.Sql.Rows.{find_where-update_where, find_where, update_where, count_where, find_where-fits}
use marvo.Sql.Keeps.{Sound}
use marvo.Schedules.Tables.{
  Error, Schedule, ScheduleRun, ClaimedScheduleRun, Db, running, scan_run, select_run,
  select_schedule,
}
use marvo.Schedules.Queue.{
  claim_due, claim_tx, pick, take_run, rolled_back, claimed, waits_as, is_expired, recovered,
}
use marvo.Schedules.Progress.{holds}
use marvo.Schedules.Invariant.{IsSound, update_where-IsSound}
use marvo.Schedules.Steps.{claimed-IsStep, recovered-IsStep}
use marvo.Schedules.Claims.{pick-Keeps}
use marvo.Schedules.Fencing.{Stale}

-- The row that is read after the UPDATE of a claim is the row that it changed.
found_claimed :
    (id : String) (now lease_until : Instant) (xs : List ScheduleRun) (q : ScheduleRun)
    → count_where (λ r. r.id == id) xs ≤ 1
    → count_where (waits_as id) xs ≡ 1
    → find_where (λ r. r.id == id) (update_where (waits_as id) (claimed now lease_until) xs)
      ≡ some q
    → (q.status ≡ running) × (q.lease_until ≡ some lease_until)
found_claimed id now lease_until xs q unique one found =
    let (x, waits, row) =
      find_where-update_where (λ r. r.id == id) (waits_as id) (claimed now lease_until) xs q
        (λ r h. ground arith) (λ r. refl) unique one found in
    (
      subst (λ r. r.status ≡ running) row refl,
      subst (λ r. r.lease_until ≡ some lease_until) row refl,
    )

-- What a claim that hands out a run leaves.
abbrev pub IsClaim : Instant → ClaimedScheduleRun → Db → Type 0
IsClaim lease_until c db =
    (c.run.status ≡ running)
    × (c.run.lease_until ≡ some lease_until)
    × (find_where (λ r. r.id == c.run.id) db.runs ≡ some c.run)
    × IsSound db

abbrev Claims : Instant → Result Error (Option ClaimedScheduleRun × Db) → Type 0
Claims lease_until (ok (some c, db)) = IsClaim lease_until c db
Claims lease_until (ok (none, db)) = Unit
Claims lease_until (err e) = Unit

bind-Claims :
    {A : Type 0} (lease_until : Instant) (r : Result Error (A × Db))
    (f : A → Tx Db Error (Option ClaimedScheduleRun))
    → Sound IsSound r
    → ((a : A) (s : Db) → IsSound s → Claims lease_until (f a s))
    → Claims lease_until (elim r as (λ _. Result Error (Option ClaimedScheduleRun × Db)) [
      | ok (a, s) ↦ f a s
      | err e ↦ err e
    ])
bind-Claims lease_until (ok (a, s)) f sound h = h a s sound
bind-Claims lease_until (err e) f sound h = tt

lift-Claims :
    {A : Type 0} (lease_until : Instant) (r : Result Error A) (db : Db)
    (f : A → Tx Db Error (Option ClaimedScheduleRun))
    → ((a : A) → Claims lease_until (f a db))
    → Claims lease_until (elim (lift r db) as (λ _. Result Error (Option ClaimedScheduleRun × Db)) [
      | ok (a, s) ↦ f a s
      | err e ↦ err e
    ])
lift-Claims lease_until (ok a) db f h = h a
lift-Claims lease_until (err e) db f h = tt

-- The run that is read back, and its schedule.
read-Claims :
    (lease_until : Instant) (o : Option ScheduleRun) (schedules : Db → Result Error Schedule)
    (db : Db)
    → ((q : ScheduleRun)
        → o ≡ some q
        → (q.status ≡ running)
          × (q.lease_until ≡ some lease_until)
          × (find_where (λ r. r.id == q.id) db.runs ≡ some q))
    → IsSound db
    → Claims lease_until (
        ((λ s. lift (scan_run o) s) >>= λ run. (λ s. lift (schedules s) s) >>= λ schedule s.
        ok (some (record { schedule = schedule; run = run }), s))
          db)
unfolding scan_run
read-Claims lease_until none schedules db h sound = tt
read-Claims lease_until (some q) schedules db h sound =
    lift-Claims lease_until (schedules db) db _
      (λ s. let (status, lease, found) = h q refl in (status, lease, found, sound))

module _ (lib : CronLibrary) (clock : Instant) where
  take_run-Claims :
      (now lease_until : Instant) (o : Option ScheduleRun) (db : Db)
      → IsSound db
      → Claims lease_until (take_run lib clock now lease_until o db)
  unfolding take_run select_run
  take_run-Claims now lease_until none db sound = tt
  take_run-Claims now lease_until (some r) db sound =
      elim (Bool-cases (count_where (waits_as r.id) db.runs == 1)) [
        | inl e ↦
            let runs = update_where (waits_as r.id) (claimed now lease_until) db.runs in
            rw e (
              read-Claims lease_until (find_where (λ q. q.id == r.id) runs)
                (select_schedule lib clock r.schedule_id) (record db { runs = runs })
                (λ q found.
                  let (status, lease) =
                    found_claimed r.id now lease_until db.runs q (sound.one_run r.id) (ground arith)
                      found in
                  let same : q.id ≡ r.id =
                    ground (
                      arith,
                      find_where-fits (λ p. p.id == r.id) runs q found,
                      text_iff q.id r.id,
                    ) in
                  (
                    status,
                    lease,
                    subst (λ id. find_where (λ p. p.id == id) runs ≡ some q) (sym same) found,
                  ))
                (update_where-IsSound (waits_as r.id) (claimed now lease_until) db
                  (claimed-IsStep r.id now lease_until) sound))
        | inr e ↦ rw e tt
      ]

  claim_tx-Claims :
      (run_id : String) (now : Instant) (lease : Duration) (db : Db)
      → IsSound db
      → Claims (truncate (now + lease)) (claim_tx lib clock run_id now lease db)
  unfolding claim_tx
  claim_tx-Claims run_id now lease db sound =
      bind-Claims (truncate (now + lease)) (pick lib clock run_id now _ _) _
        (pick-Keeps lib clock run_id now _ _
          (update_where-IsSound (is_expired now) (recovered now) db (recovered-IsStep now) sound))
        (λ o s i. take_run-Claims now (truncate (now + lease)) o s i)

  committed-Claims :
      (lease_until : Instant) (r : Result Error (Option ClaimedScheduleRun × Db)) (db db' : Db)
      (c : ClaimedScheduleRun)
      → Claims lease_until r
      → committed db (rolled_back lib clock db r) ≡ (ok (some c), db')
      → IsClaim lease_until c db'
  unfolding rolled_back
  committed-Claims lease_until (ok (some q, s)) db db' c h e =
      let same : q ≡ c = cc (ap (λ out. out.0) e) in
      let tables : s ≡ db' = ap (λ out. out.1) e in
      subst (λ k. IsClaim lease_until k db') same (subst (IsClaim lease_until q) tables h)
  committed-Claims lease_until (ok (none, s)) db db' c h e = cc (ap (λ out. out.0) e)
  committed-Claims lease_until (err x) db db' c h e = cc (ap (λ out. out.0) e)

  -- A run that a claim hands out is running, its lease ends as long after the claim as was asked for, and it is what the
  -- tables then hold under its id; the tables keep their invariant.
  pub claim_due-IsClaim :
      (run_id : String) (now : Instant) (lease : Duration) (db db' : Db) (c : ClaimedScheduleRun)
      → IsSound db
      → claim_due lib clock run_id now lease db ≡ (ok (some c), db')
      → IsClaim (truncate (truncate now + lease)) c db'
  unfolding claim_due
  claim_due-IsClaim run_id now lease db db' c sound =
      if-elim
        (λ (out : Result Error (Option ClaimedScheduleRun) × Db).
          out ≡ (ok (some c), db') → IsClaim (truncate (truncate now + lease)) c db')
        (ltb lease minimum_interval) _ _ (λ e. cc (ap (λ out. out.0) e))
        (committed-Claims (truncate (truncate now + lease))
          (claim_tx lib clock run_id (truncate now) lease db) db db' c
          (claim_tx-Claims run_id (truncate now) lease db sound))

none_counted :
    (p q : ScheduleRun → Bool) (xs : List ScheduleRun)
    → ((r : ScheduleRun) → q r ≡ true → p r ≡ true)
    → count_where p xs ≡ 0
    → exists q xs ≡ false
unfolding count_where
none_counted p q [] h e = refl
none_counted p q (x ∷ xs) h e = ground (arith, h x, none_counted p q xs h)

-- Of two runs with one id one is found.
unique_attempt :
    (id : String) (attempt : ℕ) (xs : List ScheduleRun) (q : ScheduleRun)
    → count_where (λ r. r.id == id) xs ≤ 1
    → find_where (λ r. r.id == id) xs ≡ some q
    → attempt ≢ q.attempt
    → exists (holds id attempt) xs ≡ false
unfolding count_where find_where
unique_attempt id attempt [] q u e ne = refl
unique_attempt id attempt (x ∷ xs) q u e ne = elim (Bool-cases (x.id == id)) [
  | inl same ↦
      let row : x.attempt ≡ q.attempt = cc (simp same at e) in
      let rest : exists (holds id attempt) xs ≡ false =
        none_counted (λ r. r.id == id) (holds id attempt) xs (λ r h. ground arith) (ground arith) in
      ground (arith, row, rest)
  | inr other ↦ ground (arith, unique_attempt id attempt xs q)
]

-- Whoever holds the claimed run under another attempt than the claim gives can do
-- nothing with it any more.
pub claim_due-Stale_other :
    (lib : CronLibrary) (clock : Instant) (run_id : String) (now : Instant) (lease : Duration)
    (db db' : Db) (c : ClaimedScheduleRun) (attempt : ℕ)
    → IsSound db
    → claim_due lib clock run_id now lease db ≡ (ok (some c), db')
    → attempt ≢ c.run.attempt
    → Stale c.run.id attempt db'
claim_due-Stale_other lib clock run_id now lease db db' c attempt sound e ne =
    let (status, lease', found, sound') =
      claim_due-IsClaim lib clock run_id now lease db db' c sound e in
    unique_attempt c.run.id attempt db'.runs c.run (sound'.one_run c.run.id) found ne
