-- ===== src/Schedules/Inserts.antt =====
-- Rows that are inserted keep the invariant of the tables.
use marvo.Base.{
  ◌≡◌, arith, String, false, List, [], ◌∷◌, ◌++◌, ◌==◌, string_eq, exists, Bool-cases, inl, inr,
  text_iff, ◌||◌,
}
use marvo.Sql.Rows.{count_where, All-append, count_where-append, count_where_of_not_exists}
use marvo.Sql.Keeps.{Keeps}
use marvo.Schedules.Tables.{Error, Schedule, ScheduleRun, Db, is_open_of}
use marvo.Schedules.Queue.{insert_run, violates_unique, same_key}
use marvo.Schedules.Invariant.{IsSound, IsRun, IsSchedule}

no_run :
    (r : ScheduleRun) (runs : List ScheduleRun) (id : String)
    → violates_unique r runs ≡ false
    → r.id ≡ id
    → count_where (λ q. q.id == id) runs ≡ 0
unfolding violates_unique
no_run r runs id fresh e =
    count_where_of_not_exists (λ q. q.id == id)
      (λ q. q.id == r.id || same_key q.occurrence_key r.occurrence_key) runs
      (λ q h. ground (arith, text_iff q.id id, text_iff q.id r.id)) (ground arith)

no_open :
    (r : ScheduleRun) (runs : List ScheduleRun) (id : String)
    → violates_unique r runs ≡ false
    → r.schedule_id ≡ id
    → count_where (is_open_of id) runs ≡ 0
unfolding violates_unique
no_open r runs id fresh e =
    count_where_of_not_exists (is_open_of id) (is_open_of r.schedule_id) runs
      (λ q h. ground (arith, text_iff q.schedule_id id, text_iff q.schedule_id r.schedule_id))
      (ground arith)

-- A run that violates no unique constraint.
pub append_run-IsSound :
    (r : ScheduleRun) (db : Db)
    → violates_unique r db.runs ≡ false
    → IsRun r
    → IsSound db
    → IsSound (record db { runs = db.runs ++ r ∷ [] })
unfolding count_where
append_run-IsSound r db fresh shape sound = record {
  one_run = λ id. ground (
    arith,
    sound.one_run id,
    no_run r db.runs id fresh,
    text_iff r.id id,
    count_where-append (λ q. q.id == id) db.runs (r ∷ []),
  );
  one_open = λ id. ground (
    arith,
    sound.one_open id,
    no_open r db.runs id fresh,
    text_iff r.schedule_id id,
    count_where-append (is_open_of id) db.runs (r ∷ []),
  );
  runs_shaped = All-append IsRun db.runs (r ∷ []) sound.runs_shaped (shape, tt);
  one_schedule = sound.one_schedule;
  schedules_shaped = sound.schedules_shaped;
}

pub insert_run-Keeps : (r : ScheduleRun) (e : Error) → IsRun r → Keeps IsSound (insert_run r e)
unfolding insert_run
insert_run-Keeps r e shape db sound = elim (Bool-cases (violates_unique r db.runs)) [
  | inl t ↦ rw t tt
  | inr f ↦ rw f (append_run-IsSound r db f shape sound)
]

no_schedule :
    (rows : List Schedule) (key id : String)
    → exists (λ s. s.id == key) rows ≡ false
    → key ≡ id
    → count_where (λ s. s.id == id) rows ≡ 0
no_schedule rows key id fresh e =
    count_where_of_not_exists (λ s. s.id == id) (λ s. s.id == key) rows
      (λ s h. ground (arith, text_iff s.id id, text_iff s.id key)) fresh

pub append_schedule-IsSound :
    (s : Schedule) (db : Db)
    → exists (λ q. q.id == s.id) db.schedules ≡ false
    → IsSchedule s
    → IsSound db
    → IsSound (record db { schedules = db.schedules ++ s ∷ [] })
unfolding count_where
append_schedule-IsSound s db fresh shape sound = record {
  one_run = sound.one_run;
  one_open = sound.one_open;
  runs_shaped = sound.runs_shaped;
  one_schedule = λ id. ground (
    arith,
    sound.one_schedule id,
    no_schedule db.schedules s.id id fresh,
    text_iff s.id id,
    count_where-append (λ q. q.id == id) db.schedules (s ∷ []),
  );
  schedules_shaped = All-append IsSchedule db.schedules (s ∷ []) sound.schedules_shaped (shape, tt);
}
