-- ===== src/Schedules/Moves.antt =====
-- Where a schedule moves on to at the end of a run.
use marvo.Base.{
  ◌≡◌, ◌<◌, refl, String, true, false, Option, none, some, List, [], ◌∷◌, Bool-cases, inl, inr, ◌⊎◌,
  ◌==◌, string_eq, ℤ, pos,
}
use marvo.Scheduling.{Instant, CronLibrary, IsDocumented}
use marvo.Scheduling.Calendar.{next}
use marvo.Scheduling.Occurrence.{next-after-completed}
use marvo.Sql.{◌>>=◌}
use marvo.Sql.Rows.{update_where, All}
use marvo.Sql.Keeps.{Sound}
use marvo.Schedules.Tables.{Schedule, ScheduleRun, Db, completed}
use marvo.Schedules.Finish.{
  next_run, next_found, stamp, clear_failures, move_on, set_schedule, drives, proposal_of,
  advance_after_success, advance_after_cancel,
}

-- Over with no next run, or with a next run that lies later than `t`.
abbrev pub IsLater : Instant → Schedule → Type 0
IsLater t s =
    ((s.status ≡ completed) × (s.next_run_at ≡ none))
    ⊎ ((later : Instant) × (s.next_run_at ≡ some later) × (t < later))

-- Every row of a schedule has moved on.
abbrev pub HasMovedOn : Instant → String → Db → Type 0
HasMovedOn t id db = All (λ s. ((s.id == id) ≡ false) ⊎ IsLater t s) db.schedules

All-updated :
    (id : String) (f : Schedule → Schedule) (t : Instant) (rows : List Schedule)
    → ((s : Schedule) → (f s).id ≡ s.id)
    → ((s : Schedule) → IsLater t (f s))
    → All (λ s. ((s.id == id) ≡ false) ⊎ IsLater t s) (update_where (λ s. s.id == id) f rows)
unfolding update_where
All-updated id f t [] same later = tt
All-updated id f t (s ∷ rows) same later = elim (Bool-cases (s.id == id)) [
  | inl e ↦ simp e (inr (later s), All-updated id f t rows same later)
  | inr e ↦ simp e (inl refl, All-updated id f t rows same later)
]

module _ (lib : CronLibrary) (clock : Instant) where
  -- What follows the computation of the next run.
  moved :
      (s : Schedule) (t : Instant) (p : ℤ) (o : Option (Option Instant)) (f : Schedule → Schedule)
      (db : Db)
      → IsDocumented lib
      → next lib s.definition clock t p ≡ o
      → ((q : Schedule) → (f q).id ≡ q.id)
      → ((q : Schedule) → (f q).status ≡ q.status)
      → ((q : Schedule) → (f q).next_run_at ≡ q.next_run_at)
      → Sound
          (HasMovedOn t s.id)
          ((next_found lib clock o >>= λ k. set_schedule s.id (λ q. f (move_on k q))) db)
  unfolding next_found
  moved s t p none f db doc e same status time = tt
  moved s t p (some none) f db doc e same status time =
      All-updated s.id (λ q. f (move_on none q)) t db.schedules (λ q. same (move_on none q))
        (λ q. inl (status (move_on none q), time (move_on none q)))
  moved s t p (some (some later)) f db doc e same status time =
      All-updated s.id (λ q. f (move_on (some later) q)) t db.schedules
        (λ q. same (move_on (some later) q))
        (λ q. inr (
          later,
          time (move_on (some later) q),
          next-after-completed lib s.definition clock t later p doc e,
        ))

  -- At the end of a natural occurrence of an active schedule, whether it went well or was cancelled,
  -- the schedule is completed or has a next run that lies strictly after that end: what was missed
  -- in between is not made up for. The cron library is taken to do what it documents.
  pub advance-HasMovedOn :
      (s : Schedule) (r : ScheduleRun) (t : Instant) (db : Db)
      → IsDocumented lib
      → drives s r ≡ true
      → Sound (HasMovedOn t s.id) (advance_after_success lib clock s r t db)
        × Sound (HasMovedOn t s.id) (advance_after_cancel lib clock s r t db)
  unfolding advance_after_success advance_after_cancel next_run
  advance-HasMovedOn s r t db doc d = (
    simp d (
        moved s t (proposal_of r.adaptive_next_seconds) _ (λ q. stamp t (clear_failures q)) db doc
          refl (λ q. refl) (λ q. refl) (λ q. refl)),
    simp d (moved s t (pos 0) _ (stamp t) db doc refl (λ q. refl) (λ q. refl) (λ q. refl)),
  )
