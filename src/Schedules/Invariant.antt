-- ===== src/Schedules/Invariant.antt =====
-- What the tables of internal/store/schedule.go have at all times.
use marvo.Base.{
  ◌≤◌, ◌≡◌, arith, String, Bool, true, not, ◌||◌, none, is_some, ◌==◌, string_eq, keep,
}
use marvo.Sql.Rows.{
  update_where, count_where, All, All-update_where, All-keep, count_where-update_where,
  count_where-keep,
}
use marvo.Sql.Keeps.{Keeps}
use marvo.Schedules.Tables.{
  Schedule, ScheduleRun, Db, RunStatus, queued, running, waiting_retry, is_open_of, is_active,
  update_schedules,
}

-- A waiting run has a next attempt and no lease, a running one a lease and no next attempt, and a
-- closed one neither, but the time when it ended. A run that was started has counted an attempt.
abbrev pub RunShape : RunStatus → ScheduleRun → Type 0
RunShape queued r = (is_some r.next_attempt_at ≡ true) × (r.lease_until ≡ none)
RunShape running r = (is_some r.lease_until ≡ true) × (r.next_attempt_at ≡ none) × (1 ≤ r.attempt)
RunShape waiting_retry r =
    (is_some r.next_attempt_at ≡ true) × (r.lease_until ≡ none) × (1 ≤ r.attempt)
RunShape _ r = (r.next_attempt_at ≡ none) × (r.lease_until ≡ none) × (is_some r.finished_at ≡ true)

abbrev pub IsRun : ScheduleRun → Type 0
IsRun r = RunShape r.status r

-- An active schedule has a next run.
abbrev pub IsSchedule : Schedule → Type 0
IsSchedule s = ((not (is_active s.status) || is_some s.next_run_at) ≡ true) × (1 ≤ s.revision)

-- The keys are unique, a schedule has at most one run that is not closed, and the rows have their shape.
pub record IsSound (db : Db) : Type 0 where
  pub one_run : (id : String) → count_where (λ r. r.id == id) db.runs ≤ 1
  pub one_open : (id : String) → count_where (is_open_of id) db.runs ≤ 1
  pub runs_shaped : All IsRun db.runs
  pub one_schedule : (id : String) → count_where (λ s. s.id == id) db.schedules ≤ 1
  pub schedules_shaped : All IsSchedule db.schedules

-- A change of a run that keeps its key, its shape, and the schedules that it stands in the way of.
pub record IsStep (p : ScheduleRun → Bool) (f : ScheduleRun → ScheduleRun) : Type 0 where
  pub same_id : (r : ScheduleRun) → (f r).id ≡ r.id
  pub no_reopen :
      (r : ScheduleRun) (id : String)
      → p r ≡ true
      → is_open_of id (f r) ≡ true
      → is_open_of id r ≡ true
  pub keeps_shape : (r : ScheduleRun) → p r ≡ true → IsRun r → IsRun (f r)

pub update_where-IsSound :
    (p : ScheduleRun → Bool) (f : ScheduleRun → ScheduleRun) (db : Db)
    → IsStep p f
    → IsSound db
    → IsSound (record db { runs = update_where p f db.runs })
update_where-IsSound p f db step sound = record {
  one_run = λ id. ground (
    arith,
    sound.one_run id,
    count_where-update_where (λ r. r.id == id) p f db.runs
        (λ r _ e. ground (arith, step.same_id r)),
  );
  one_open = λ id. ground (
    arith,
    sound.one_open id,
    count_where-update_where (is_open_of id) p f db.runs (λ r. step.no_reopen r id),
  );
  runs_shaped = All-update_where IsRun p f db.runs step.keeps_shape sound.runs_shaped;
  one_schedule = sound.one_schedule;
  schedules_shaped = sound.schedules_shaped;
}

-- The same for a change of a schedule.
pub record IsEdit (p : Schedule → Bool) (f : Schedule → Schedule) : Type 0 where
  pub same_id : (s : Schedule) → (f s).id ≡ s.id
  pub keeps_shape : (s : Schedule) → p s ≡ true → IsSchedule s → IsSchedule (f s)

pub update_where_schedules-IsSound :
    (p : Schedule → Bool) (f : Schedule → Schedule) (db : Db)
    → IsEdit p f
    → IsSound db
    → IsSound (record db { schedules = update_where p f db.schedules })
update_where_schedules-IsSound p f db edit sound = record {
  one_run = sound.one_run;
  one_open = sound.one_open;
  runs_shaped = sound.runs_shaped;
  one_schedule = λ id. ground (
    arith,
    sound.one_schedule id,
    count_where-update_where (λ s. s.id == id) p f db.schedules
        (λ s _ e. ground (arith, edit.same_id s)),
  );
  schedules_shaped =
      All-update_where IsSchedule p f db.schedules edit.keeps_shape sound.schedules_shaped;
}

pub update_schedules-Keeps :
    (p : Schedule → Bool) (f : Schedule → Schedule)
    → IsEdit p f
    → Keeps IsSound (update_schedules p f)
update_schedules-Keeps p f edit db sound = update_where_schedules-IsSound p f db edit sound

-- Rows may be deleted.
pub keep-IsSound :
    (p : Schedule → Bool) (q : ScheduleRun → Bool) (db : Db)
    → IsSound db
    → IsSound (record { schedules = keep p db.schedules; runs = keep q db.runs })
keep-IsSound p q db sound = record {
  one_run = λ id. ground (arith, sound.one_run id, count_where-keep (λ r. r.id == id) q db.runs);
  one_open = λ id. ground (arith, sound.one_open id, count_where-keep (is_open_of id) q db.runs);
  runs_shaped = All-keep IsRun q db.runs sound.runs_shaped;
  one_schedule = λ id.
      ground (arith, sound.one_schedule id, count_where-keep (λ s. s.id == id) p db.schedules);
  schedules_shaped = All-keep IsSchedule p db.schedules sound.schedules_shaped;
}

pub keep_runs-IsSound :
    (q : ScheduleRun → Bool) (db : Db) → IsSound db → IsSound (record db { runs = keep q db.runs })
keep_runs-IsSound q db sound = record {
  one_run = λ id. ground (arith, sound.one_run id, count_where-keep (λ r. r.id == id) q db.runs);
  one_open = λ id. ground (arith, sound.one_open id, count_where-keep (is_open_of id) q db.runs);
  runs_shaped = All-keep IsRun q db.runs sound.runs_shaped;
  one_schedule = sound.one_schedule;
  schedules_shaped = sound.schedules_shaped;
}
