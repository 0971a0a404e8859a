-- ===== src/Schedules/Pruned.antt =====
-- The history of a schedule stays short, and nothing that is still open is lost from it.
use marvo.Base.{
  length-take, ◌+◌, ◌≡◌, ◌≤◌, refl, arith, String, Bool, true, false, not, ◌||◌, List, [], ◌∷◌,
  exists, keep, take, length, ◌==◌, string_eq, text_iff, subst,
}
use marvo.Sql.{ok}
use marvo.Sql.Rows.{count_where, count_where_mono}
use marvo.Schedules.Tables.{ScheduleRun, Db, max_schedule_runs_per_task}
use marvo.Schedules.Listing.{newest_first}
use marvo.Schedules.Finish.{is_closed_of, kept_runs, survives, prune_schedule_runs}
use marvo.Schedules.Invariant.{IsSound}

count-or :
    (p q : ScheduleRun → Bool) (xs : List ScheduleRun)
    → count_where (λ r. p r || q r) xs ≤ count_where p xs + count_where q xs
unfolding count_where
count-or p q [] = omega arith
count-or p q (x ∷ xs) = ground (arith, count-or p q xs)

count_false : (xs : List ScheduleRun) → count_where (λ r. false) xs ≡ 0
unfolding count_where
count_false [] = refl
count_false (x ∷ xs) = count_false xs

-- With unique ids, a list of runs names at most as many rows as it is long.
count_named :
    (named xs : List ScheduleRun)
    → ((id : String) → count_where (λ r. r.id == id) xs ≤ 1)
    → count_where (λ r. exists (λ q. q.id == r.id) named) xs ≤ length named
count_named [] xs unique = omega (arith, count_false xs)
count_named (k ∷ named) xs unique = omega (
  arith,
  count-or (λ r. k.id == r.id) (λ r. exists (λ q. q.id == r.id) named) xs,
  count_where_mono (λ r. k.id == r.id) (λ r. r.id == k.id) xs
      (λ r h. ground (arith, text_iff k.id r.id, text_iff r.id k.id)),
  unique k.id,
  count_named named xs unique,
)

count-keep :
    (p q s : ScheduleRun → Bool) (xs : List ScheduleRun)
    → ((r : ScheduleRun) → s r ≡ true → p r ≡ true → q r ≡ true)
    → count_where p (keep s xs) ≤ count_where q xs
unfolding count_where
count-keep p q s [] h = omega arith
count-keep p q s (x ∷ xs) h = ground (arith, h x, count-keep p q s xs h)

keep-kept :
    (p s : ScheduleRun → Bool) (xs : List ScheduleRun)
    → ((r : ScheduleRun) → p r ≡ true → s r ≡ true)
    → keep p (keep s xs) ≡ keep p xs
keep-kept p s [] h = refl
keep-kept p s (x ∷ xs) h = ground (arith, h x, keep-kept p s xs h)

-- After a pruning a schedule has at most 1000 closed runs; the runs that are open, and those of the
-- other schedules, are all there, in their order, and so are the schedules.
pub prune_bound :
    (id : String) (db db' : Db)
    → IsSound db
    → prune_schedule_runs id db ≡ ok (tt, db')
    → (count_where (is_closed_of id) db'.runs ≤ max_schedule_runs_per_task)
      × (keep (λ r. not (is_closed_of id r)) db'.runs ≡ keep (λ r. not (is_closed_of id r)) db.runs)
      × (db'.schedules ≡ db.schedules)
unfolding prune_schedule_runs kept_runs
prune_bound id db db' sound e =
    let named = take max_schedule_runs_per_task (newest_first (keep (is_closed_of id) db.runs)) in
    let bound =
      count-keep (is_closed_of id) (λ r. exists (λ q. q.id == r.id) named) (survives id db.runs)
        db.runs (λ r h closed. ground arith) in
    let pruned : record db { runs = keep (survives id db.runs) db.runs } ≡ db' = cc in
    (
      subst (λ d. count_where (is_closed_of id) d.runs ≤ max_schedule_runs_per_task) pruned
          (omega (
            arith,
            bound,
            count_named named db.runs sound.one_run,
            length-take max_schedule_runs_per_task (newest_first (keep (is_closed_of id) db.runs)),
          )),
      subst
          (λ d.
            keep (λ r. not (is_closed_of id r)) d.runs
            ≡ keep (λ r. not (is_closed_of id r)) db.runs)
          pruned
          (keep-kept (λ r. not (is_closed_of id r)) (survives id db.runs) db.runs
            (λ r h. ground arith)),
      subst (λ d. d.schedules ≡ db.schedules) pruned refl,
    )
