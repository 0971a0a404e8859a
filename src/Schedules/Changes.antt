-- ===== src/Schedules/Changes.antt =====
-- The operations that change one schedule or one run keep the invariant of the tables.
use marvo.Base.{
  ℕ, ◌≡◌, refl, arith, String, Bool, true, not, ◌&&◌, ◌||◌, Option, none, some, is_some, ◌==◌,
  string_eq, nat_eq, exists, Bool-cases, inl, inr, if-elim, ltb, trim_space,
}
use marvo.Scheduling.{Instant, CronLibrary, truncate}
use marvo.Sql.{Result, ok, err}
use marvo.Sql.Rows.{count_where}
use marvo.Schedules.Tables.{
  Error, Schedule, Db, Status, active, paused, completed, is_active, is_open_of, valid_activity_id,
  get,
}
use marvo.Schedules.Edit.{
  ScheduleInput, create, created, update, updated, write_revision, change_status, pause, resume,
  resume_found, resumed, complete, delete, set_input, set_status, has_revision, new_schedule,
  normalize_schedule_input,
}
use marvo.Schedules.Invariant.{IsSound, IsEdit, update_where_schedules-IsSound, keep-IsSound}
use marvo.Schedules.Inserts.{append_schedule-IsSound}

module _ (lib : CronLibrary) (clock : Instant) where
  created-IsSound :
      (id : String) (now : Instant) (r : Result Error (ScheduleInput × Instant)) (db : Db)
      → IsSound db
      → IsSound (created lib clock id now r db).1
  unfolding created
  created-IsSound id now (err e) db sound = sound
  created-IsSound id now (ok (input, t)) db sound =
      elim (Bool-cases (exists (λ s. s.id == id) db.schedules)) [
        | inl e ↦ rw e sound
        | inr e ↦
            rw e
              (append_schedule-IsSound (new_schedule id input t now) db e (refl, omega arith) sound)
      ]

  pub create-IsSound :
      (id : String) (input : ScheduleInput) (now : Instant) (db : Db)
      → IsSound db
      → IsSound (create lib clock id input now db).1
  unfolding create
  create-IsSound id input now db sound =
      created-IsSound id now (normalize_schedule_input lib input now) db sound

  write_revision-IsSound :
      (id : String) (revision : ℕ) (f : Schedule → Schedule) (db : Db)
      → IsEdit (has_revision id revision) f
      → IsSound db
      → IsSound (write_revision lib clock id revision f db).1
  unfolding write_revision
  write_revision-IsSound id revision f db edit sound =
      elim (Bool-cases (count_where (has_revision id revision) db.schedules == 0)) [
        | inl e ↦ rw e sound
        | inr e ↦ rw e (update_where_schedules-IsSound (has_revision id revision) f db edit sound)
      ]

  set_input-IsEdit :
      (p : Schedule → Bool) (input : ScheduleInput) (t now : Instant)
      → IsEdit p (set_input input t now)
  set_input-IsEdit p input t now = record {
    same_id = λ s. refl;
    keeps_shape = λ s h shape. (ground arith, omega arith);
  }

  updated-IsSound :
      (id : String) (revision : ℕ) (now : Instant) (r : Result Error (ScheduleInput × Instant))
      (db : Db)
      → IsSound db
      → IsSound (updated lib clock id revision now r db).1
  unfolding updated
  updated-IsSound id revision now (err e) db sound = sound
  updated-IsSound id revision now (ok (input, t)) db sound =
      write_revision-IsSound id revision (set_input input t now) db
        (set_input-IsEdit (has_revision id revision) input t now) sound

  pub update-IsSound :
      (id : String) (revision : ℕ) (input : ScheduleInput) (now : Instant) (db : Db)
      → IsSound db
      → IsSound (update lib clock id revision input now db).1
  unfolding update
  update-IsSound id revision input now db sound =
      if-elim (λ (out : Result Error _ × Db). IsSound out.1)
        (not (valid_activity_id id) || ltb revision 1) _ _ sound
        (updated-IsSound id revision now (normalize_schedule_input lib input now) db sound)

  -- A schedule is made active only together with its next run.
  change_status-IsSound :
      (id : String) (revision : ℕ) (status : Status) (reason : String) (t : Option Instant)
      (now : Instant) (db : Db)
      → (is_active status ≡ true → is_some t ≡ true)
      → IsSound db
      → IsSound (change_status lib clock id revision status reason t now db).1
  unfolding change_status
  change_status-IsSound id revision status reason t now db h sound =
      if-elim (λ (out : Result Error _ × Db). IsSound out.1)
        (not (valid_activity_id id) || ltb revision 1) _ _ sound
        (write_revision-IsSound id revision (set_status status reason t now) db
          (record {
            same_id = λ s. refl;
            keeps_shape = λ s e shape. (ground (arith, h), omega arith);
          })
          sound)

  pub pause-IsSound :
      (id : String) (revision : ℕ) (reason : String) (now : Instant) (db : Db)
      → IsSound db
      → IsSound (pause lib clock id revision reason now db).1
  unfolding pause
  pause-IsSound id revision reason now db sound =
      if-elim (λ (out : Result Error _ × Db). IsSound out.1) _ _ _ sound
        (change_status-IsSound id revision paused (trim_space reason) none now db (λ e. cc) sound)

  resumed-IsSound :
      (id : String) (revision : ℕ) (now : Instant) (t : Option Instant) (db : Db)
      → IsSound db
      → IsSound (resumed lib clock id revision now t db).1
  unfolding resumed
  resumed-IsSound id revision now none db sound = sound
  resumed-IsSound id revision now (some t) db sound =
      change_status-IsSound id revision active "" (some (truncate t)) now db (λ e. refl) sound

  resume_found-IsSound :
      (id : String) (revision : ℕ) (now : Instant) (r : Result Error Schedule) (db : Db)
      → IsSound db
      → IsSound (resume_found lib clock id revision now r db).1
  unfolding resume_found
  resume_found-IsSound id revision now (err e) db sound = sound
  resume_found-IsSound id revision now (ok s) db sound =
      if-elim (λ (out : Result Error _ × Db). IsSound out.1) (s.revision == revision) _ _
        (resumed-IsSound id revision now _ db sound) sound

  pub resume-IsSound :
      (id : String) (revision : ℕ) (now : Instant) (db : Db)
      → IsSound db
      → IsSound (resume lib clock id revision now db).1
  unfolding resume
  resume-IsSound id revision now db sound =
      resume_found-IsSound id revision now (get lib clock id db) db sound

  pub complete-IsSound :
      (id : String) (revision : ℕ) (now : Instant) (db : Db)
      → IsSound db
      → IsSound (complete lib clock id revision now db).1
  unfolding complete
  complete-IsSound id revision now db sound =
      change_status-IsSound id revision completed "" none now db (λ e. cc) sound

  pub delete-IsSound :
      (id : String) (revision : ℕ) (db : Db)
      → IsSound db
      → IsSound (delete lib clock id revision db).1
  unfolding delete
  delete-IsSound id revision db sound =
      if-elim (λ (out : Result Error Bool × Db). IsSound out.1)
        (not (valid_activity_id id) || ltb revision 1) _ _ sound
        (if-elim (λ (out : Result Error Bool × Db). IsSound out.1)
          (exists (has_revision id revision) db.schedules && not (exists (is_open_of id) db.runs)) _
          _
          (keep-IsSound (λ s. not (has_revision id revision s)) (λ r. not (r.schedule_id == id)) db
            sound)
          sound)
