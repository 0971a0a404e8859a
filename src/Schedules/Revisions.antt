-- ===== src/Schedules/Revisions.antt =====
-- Optimistic concurrency: a change names the revision that it was made for.
use marvo.Base.{
  ℕ, ◌≡◌, ◌≢◌, refl, ap, sym, subst, ◌∙◌, arith, String, Bool, true, false, not, ◌&&◌, ◌||◌, Option,
  none, some, List, [], ◌∷◌, if-elim, ltb, ◌==◌, string_eq, nat_eq, exists, keep, text_iff,
  trim_space, Bool-cases, inl, inr, ◌⊎◌, is_some, pos,
}
use marvo.Scheduling.{Instant, CronLibrary, truncate}
use marvo.Sql.{Result, ok, err}
use marvo.Sql.Rows.{count_where_none, find_where}
use marvo.Sql.Fails.{Refused, is_err}
use marvo.Scheduling.Calendar.{next}
use marvo.Schedules.Tables.{
  Error, invalid_schedule, not_found, conflict, busy, corrupt, Schedule, Db, Status, active, paused,
  completed, get, select_schedule, scan_schedule, valid_activity_id, is_open_of,
}
use marvo.Schedules.Edit.{
  ScheduleInput, update, updated, write_revision, change_status, pause, resume, resume_found,
  resumed, complete, delete, not_deleted, has_revision, set_input, set_status,
  normalize_schedule_input,
}

-- No schedule has this id and this revision.
abbrev pub Outdated : String → ℕ → Db → Type 0
Outdated id revision db = exists (has_revision id revision) db.schedules ≡ false

-- A deletion that does not happen.
abbrev pub NotDeleted : Result Error Bool × Db → Db → Type 0
NotDeleted out db = (out.0 ≢ ok true) × (out.1 ≡ db)

-- A deletion that is refused: with an error, or without one where there is no such schedule.
abbrev pub DeleteRefused : String → Result Error Bool × Db → Db → Type 0
DeleteRefused id out db =
    ((is_err out.0 ≡ true) ⊎ ((out.0 ≡ ok false) × (exists (λ s. s.id == id) db.schedules ≡ false)))
    × (out.1 ≡ db)

absent : {A : Type 0} (p : A → Bool) (xs : List A) → find_where p xs ≡ none → exists p xs ≡ false
unfolding find_where
absent p [] e = refl
absent p (x ∷ xs) e = ground (arith, absent p xs)

module _ (lib : CronLibrary) (clock : Instant) where
  -- What a deletion that affected no row answers, by the row that is read then.
  unread-Refused :
      (id : String) (revision : ℕ) (o : Option Schedule) (db : Db)
      → find_where (λ s. s.id == id) db.schedules ≡ o
      → DeleteRefused id (not_deleted lib clock revision (scan_schedule lib clock o), db) db
  unfolding not_deleted scan_schedule
  unread-Refused id revision none db e = (inr (refl, absent _ db.schedules e), refl)
  unread-Refused id revision (some s) db e =
      if-elim
        (λ (r : Result Error Schedule). DeleteRefused id (not_deleted lib clock revision r, db) db)
        (is_some (next lib s.definition clock clock (pos 0))) (ok s) (err corrupt)
        (if-elim (λ (r : Result Error Bool). DeleteRefused id (r, db) db) (s.revision == revision)
          (err busy) (err conflict) (inl refl, refl) (inl refl, refl))
        (inl refl, refl)

  delete-Refused :
      (id : String) (revision : ℕ) (db : Db)
      → Outdated id revision db
      → DeleteRefused id (delete lib clock id revision db) db
  unfolding delete get select_schedule
  delete-Refused id revision db h =
      elim (Bool-cases (not (valid_activity_id id) || ltb revision 1)) [
        | inl bad ↦ rw bad (inl refl, refl)
        | inr good ↦
            let valid : valid_activity_id id ≡ true = ground arith in
            rw (good, h, valid)
              (unread-Refused id revision (find_where (λ s. s.id == id) db.schedules) db refl)
      ]

  write-Refused :
      (id : String) (revision : ℕ) (f : Schedule → Schedule) (db : Db)
      → Outdated id revision db
      → Refused (write_revision lib clock id revision f db) db
  unfolding write_revision
  write-Refused id revision f db h =
      rw (count_where_none (has_revision id revision) db.schedules h) (refl, refl)

  change-Refused :
      (id : String) (revision : ℕ) (status : Status) (reason : String) (t : Option Instant)
      (now : Instant) (db : Db)
      → Outdated id revision db
      → Refused (change_status lib clock id revision status reason t now db) db
  unfolding change_status
  change-Refused id revision status reason t now db h =
      if-elim (λ (out : Result Error Schedule × Db). Refused out db)
        (not (valid_activity_id id) || ltb revision 1) _ _ (refl, refl)
        (write-Refused id revision (set_status status reason t now) db h)

  updated-Refused :
      (id : String) (revision : ℕ) (now : Instant) (r : Result Error (ScheduleInput × Instant))
      (db : Db)
      → Outdated id revision db
      → Refused (updated lib clock id revision now r db) db
  unfolding updated
  updated-Refused id revision now (err e) db h = (refl, refl)
  updated-Refused id revision now (ok (input, t)) db h =
      write-Refused id revision (set_input input t now) db h

  resumed-Refused :
      (id : String) (revision : ℕ) (now : Instant) (o : Option Instant) (db : Db)
      → Outdated id revision db
      → Refused (resumed lib clock id revision now o db) db
  unfolding resumed
  resumed-Refused id revision now none db h = (refl, refl)
  resumed-Refused id revision now (some t) db h =
      change-Refused id revision active "" (some (truncate t)) now db h

  resume_found-Refused :
      (id : String) (revision : ℕ) (now : Instant) (r : Result Error Schedule) (db : Db)
      → Outdated id revision db
      → Refused (resume_found lib clock id revision now r db) db
  unfolding resume_found
  resume_found-Refused id revision now (err e) db h = (refl, refl)
  resume_found-Refused id revision now (ok s) db h =
      if-elim (λ (out : Result Error Schedule × Db). Refused out db) (s.revision == revision) _ _
        (resumed-Refused id revision now _ db h) (refl, refl)

  not_deleted_lem :
      (revision : ℕ) (r : Result Error Schedule) → not_deleted lib clock revision r ≢ ok true
  unfolding not_deleted
  not_deleted_lem revision (ok s) e = ground arith
  not_deleted_lem revision (err not_found) e = cc
  not_deleted_lem revision (err invalid_schedule) e = cc
  not_deleted_lem revision (err conflict) e = cc
  not_deleted_lem revision (err busy) e = cc
  not_deleted_lem revision (err corrupt) e = cc

  delete_refused :
      (id : String) (revision : ℕ) (db : Db)
      → (exists (has_revision id revision) db.schedules && not (exists (is_open_of id) db.runs))
        ≡ false
      → NotDeleted (delete lib clock id revision db) db
  unfolding delete
  delete_refused id revision db h =
      if-elim (λ (out : Result Error Bool × Db). NotDeleted out db)
        (not (valid_activity_id id) || ltb revision 1) _ _ ((λ e. cc), refl)
        (rw h (not_deleted_lem revision (get lib clock id db), refl))

  -- A client that holds an old revision of a schedule cannot update, pause, resume, complete or
  -- delete it: each call leaves the tables as they are and returns an error, but for a deletion where no
  -- schedule has the id, which may return false instead.
  pub Outdated-Refused :
      (id : String) (revision : ℕ) (input : ScheduleInput) (reason : String) (now : Instant)
      (db : Db)
      → Outdated id revision db
      → Refused (update lib clock id revision input now db) db
        × Refused (pause lib clock id revision reason now db) db
        × Refused (resume lib clock id revision now db) db
        × Refused (complete lib clock id revision now db) db
        × DeleteRefused id (delete lib clock id revision db) db
  unfolding update pause resume complete
  Outdated-Refused id revision input reason now db h = (
    if-elim (λ (out : Result Error Schedule × Db). Refused out db) _ _ _ (refl, refl)
        (updated-Refused id revision now (normalize_schedule_input lib input now) db h),
    if-elim (λ (out : Result Error Schedule × Db). Refused out db) _ _ _ (refl, refl)
        (change-Refused id revision paused (trim_space reason) none now db h),
    resume_found-Refused id revision now (get lib clock id db) db h,
    change-Refused id revision completed "" none now db h,
    delete-Refused id revision db h,
  )

  -- A schedule with a run that is queued, running or waiting cannot be deleted.
  pub busy-NotDeleted :
      (id : String) (revision : ℕ) (db : Db)
      → exists (is_open_of id) db.runs ≡ true
      → NotDeleted (delete lib clock id revision db) db
  busy-NotDeleted id revision db h = delete_refused id revision db (ground (arith, h))

exists-keep :
    {A : Type 0} (p q : A → Bool) (xs : List A)
    → ((x : A) → p x ≡ true → q x ≡ false)
    → exists q (keep p xs) ≡ false
exists-keep p q [] h = refl
exists-keep p q (x ∷ xs) h = ground (arith, h x, exists-keep p q xs h)

keep-keep :
    {A : Type 0} (p q : A → Bool) (xs : List A)
    → ((x : A) → p x ≡ true → q x ≡ true)
    → keep p (keep q xs) ≡ keep p xs
keep-keep p q [] h = refl
keep-keep p q (x ∷ xs) h = ground (arith, h x, keep-keep p q xs h)

removed : String → ℕ → Db → Db
removed id revision db = record {
  schedules = keep (λ s. not (has_revision id revision s)) db.schedules;
  runs = keep (λ r. not (r.schedule_id == id)) db.runs;
}

delete-removed :
    (lib : CronLibrary) (clock : Instant) (id : String) (revision : ℕ) (db : Db)
    → (delete lib clock id revision db).0 ≡ ok true
    → (delete lib clock id revision db).1 ≡ removed id revision db
unfolding delete removed
delete-removed lib clock id revision db =
    if-elim (λ (out : Result Error Bool × Db). out.0 ≡ ok true → out.1 ≡ removed id revision db)
      (not (valid_activity_id id) || ltb revision 1) _ _ (λ e. cc)
      (if-elim (λ (out : Result Error Bool × Db). out.0 ≡ ok true → out.1 ≡ removed id revision db)
        (exists (has_revision id revision) db.schedules && not (exists (is_open_of id) db.runs)) _ _
        (λ e. refl) (λ e. absurd (not_deleted_lem lib clock revision (get lib clock id db) e)))

-- A deletion that happens takes the named revision of the schedule and every run of the schedule
-- away; the rows of any other schedule stay as they are.
pub deleted_gone :
    (lib : CronLibrary) (clock : Instant) (id other : String) (revision : ℕ) (db db' : Db)
    → delete lib clock id revision db ≡ (ok true, db')
    → other ≢ id
    → (exists (has_revision id revision) db'.schedules ≡ false)
      × (exists (λ r. r.schedule_id == id) db'.runs ≡ false)
      × (keep (λ s. s.id == other) db'.schedules ≡ keep (λ s. s.id == other) db.schedules)
      × (keep (λ r. r.schedule_id == other) db'.runs ≡ keep (λ r. r.schedule_id == other) db.runs)
unfolding removed
deleted_gone lib clock id other revision db db' e ne =
    let gone : db' ≡ removed id revision db =
      sym (ap (λ out. out.1) e) ∙ delete-removed lib clock id revision db (ap (λ out. out.0) e) in
    (
      subst (λ d. exists (has_revision id revision) d.schedules ≡ false) (sym gone)
          (exists-keep _ (has_revision id revision) db.schedules (λ s h. ground arith)),
      subst (λ d. exists (λ r. r.schedule_id == id) d.runs ≡ false) (sym gone)
          (exists-keep _ (λ r. r.schedule_id == id) db.runs (λ r h. ground arith)),
      subst (λ d. keep (λ s. s.id == other) d.schedules ≡ keep (λ s. s.id == other) db.schedules)
          (sym gone)
          (keep-keep (λ s. s.id == other) _ db.schedules
            (λ s h. ground (arith, text_iff s.id other, text_iff s.id id))),
      subst
          (λ d.
            keep (λ r. r.schedule_id == other) d.runs ≡ keep (λ r. r.schedule_id == other) db.runs)
          (sym gone)
          (keep-keep (λ r. r.schedule_id == other) _ db.runs
            (λ r h. ground (arith, text_iff r.schedule_id other, text_iff r.schedule_id id))),
    )
