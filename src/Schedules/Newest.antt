-- ===== src/Schedules/Newest.antt =====
-- The listing of the runs of a schedule.
use marvo.Base.{
  length-take, ℕ, zero, suc, ◌+◌, ◌≡◌, ◌≤◌, refl, sym, ap, subst, ◌∙◌, arith, String, Bool, ◌||◌,
  List, [], ◌∷◌, if◌then◌else◌, if-elim, ltb, keep, take, drop, length, ◌==◌, string_eq, Bool-cases,
  inl, inr,
}
use marvo.Sql.{Result, ok}
use marvo.Sql.Rows.{count_where, All}
use marvo.Schedules.Tables.{Error, ScheduleRun, Db, valid_activity_id}
use marvo.Schedules.Listing.{newer, place, newest_first, list_runs}

-- Every row of the second list is at most as new as the run.
abbrev pub NoNewer : List ScheduleRun → ScheduleRun → Type 0
NoNewer rows r = All (λ q. q.created_at ≤ r.created_at) rows

-- The newest runs come first.
abbrev pub IsSorted : List ScheduleRun → Type 0
IsSorted [] = Unit
IsSorted (r ∷ rows) = NoNewer rows r × IsSorted rows

NoNewer-trans :
    (rows : List ScheduleRun) (q r : ScheduleRun)
    → NoNewer rows q
    → q.created_at ≤ r.created_at
    → NoNewer rows r
NoNewer-trans [] q r h le = tt
NoNewer-trans (x ∷ rows) q r h le = (omega (arith, h.0), NoNewer-trans rows q r h.1 le)

NoNewer-place :
    (x r : ScheduleRun) (rows : List ScheduleRun)
    → x.created_at ≤ r.created_at
    → NoNewer rows r
    → NoNewer (place x rows) r
unfolding place
NoNewer-place x r [] le h = (le, tt)
NoNewer-place x r (q ∷ rows) le h = elim (Bool-cases (newer x q)) [
  | inl e ↦ simp e (le, h)
  | inr e ↦ simp e (h.0, NoNewer-place x r rows le h.1)
]

place-IsSorted :
    (x : ScheduleRun) (rows : List ScheduleRun) → IsSorted rows → IsSorted (place x rows)
unfolding place
place-IsSorted x [] h = (tt, tt)
place-IsSorted x (q ∷ rows) h = elim (Bool-cases (newer x q)) [
  | inl e ↦
      let le : q.created_at ≤ x.created_at = ground (arith, e) in
      simp e ((le, NoNewer-trans rows q x h.0 le), h)
  | inr e ↦
      let le : x.created_at ≤ q.created_at = ground (arith, e) in
      simp e (NoNewer-place x q rows le h.0, place-IsSorted x rows h.1)
]

newest_first-IsSorted : (rows : List ScheduleRun) → IsSorted (newest_first rows)
unfolding newest_first
newest_first-IsSorted [] = tt
newest_first-IsSorted (r ∷ rows) = place-IsSorted r (newest_first rows) (newest_first-IsSorted rows)

count_where-place :
    (p : ScheduleRun → Bool) (x : ScheduleRun) (rows : List ScheduleRun)
    → count_where p (place x rows) ≡ count_where p (x ∷ rows)
unfolding place count_where
count_where-place p x [] = refl
count_where-place p x (q ∷ rows) = ground (arith, count_where-place p x rows)

count_where-newest_first :
    (p : ScheduleRun → Bool) (rows : List ScheduleRun)
    → count_where p (newest_first rows) ≡ count_where p rows
unfolding newest_first count_where
count_where-newest_first p [] = refl
count_where-newest_first p (r ∷ rows) =
    count_where-place p r (newest_first rows) ∙ ground (arith, count_where-newest_first p rows)

count_where-take :
    (p : ScheduleRun → Bool) (n : ℕ) (rows : List ScheduleRun)
    → count_where p (take n rows) + count_where p (drop n rows) ≡ count_where p rows
unfolding count_where
count_where-take p zero rows = omega arith
count_where-take p (suc n) [] = omega arith
count_where-take p (suc n) (r ∷ rows) = ground (arith, count_where-take p n rows)

NoNewer-drop :
    (n : ℕ) (rows : List ScheduleRun) (r : ScheduleRun) → NoNewer rows r → NoNewer (drop n rows) r
NoNewer-drop zero rows r h = h
NoNewer-drop (suc n) [] r h = tt
NoNewer-drop (suc n) (q ∷ rows) r h = NoNewer-drop n rows r h.1

NoNewer-take :
    (n : ℕ) (rows : List ScheduleRun) (r : ScheduleRun) → NoNewer rows r → NoNewer (take n rows) r
NoNewer-take zero rows r h = tt
NoNewer-take (suc n) [] r h = tt
NoNewer-take (suc n) (q ∷ rows) r h = (h.0, NoNewer-take n rows r h.1)

take-IsSorted :
    (n : ℕ) (rows : List ScheduleRun)
    → IsSorted rows
    → IsSorted (take n rows) × All (NoNewer (drop n rows)) (take n rows)
take-IsSorted zero rows h = (tt, tt)
take-IsSorted (suc n) [] h = (tt, tt)
take-IsSorted (suc n) (r ∷ rows) h =
    let (sorted, rest) = take-IsSorted n rows h.1 in
    ((NoNewer-take n rows r h.0, sorted), (NoNewer-drop n rows r h.0, rest))

abbrev page : ℕ → ℕ
page limit = if ltb limit 1 || ltb 100 limit then 30 else limit

-- A listing of the runs of a schedule is a page of at most 100 runs, the newest first; together with the
-- runs that it leaves out, none of which is newer than a run on the page, it has every run of the
-- schedule as often as the table has it, and no other run.
pub list_runs-IsSorted :
    (id : String) (limit : ℕ) (db : Db) (rows : List ScheduleRun)
    → list_runs id limit db ≡ ok rows
    → (rest : List ScheduleRun) × IsSorted rows
      × (length rows ≤ 100)
      × All (NoNewer rest) rows
      × ((p : ScheduleRun → Bool)
          → count_where p rows + count_where p rest
            ≡ count_where p (keep (λ r. r.schedule_id == id) db.runs))
unfolding list_runs
list_runs-IsSorted id limit db rows e =
    let all = newest_first (keep (λ r. r.schedule_id == id) db.runs) in
    let paged : take (page limit) all ≡ rows =
      if-elim
        (λ (out : Result Error (List ScheduleRun)). out ≡ ok rows → take (page limit) all ≡ rows)
        (valid_activity_id id) _ _ (λ e. cc) (λ e. cc) e in
    let (sorted, newer_ones) = take-IsSorted (page limit) all (newest_first-IsSorted _) in
    (
      drop (page limit) all,
      subst IsSorted paged sorted,
      subst (λ xs. length xs ≤ 100) paged (ground (arith, length-take (page limit) all)),
      subst (All (NoNewer (drop (page limit) all))) paged newer_ones,
      λ p.
          ap (λ xs. count_where p xs + count_where p (drop (page limit) all)) (sym paged)
          ∙ count_where-take p (page limit) all
          ∙ count_where-newest_first p _,
    )
