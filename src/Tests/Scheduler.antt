-- ===== src/Tests/Scheduler.antt =====
-- internal/scheduler at concrete inputs.
use marvo.Base.{
  ◌+◌, ◌≡◌, ◌≤◌, ◌<◌, refl, String, true, not, ◌||◌, none, some, [], ◌∷◌, ◌==◌, string_eq, is_some,
  lookup, insert, erase, length, negsuc, pos,
}
use marvo.Base.Partial.{Ends, Ends-some}
use marvo.Sql.Columns.{reached}
use marvo.Sql.Rows.{count_where, find_where, update_where}
use marvo.Scheduler.WakeQueue.{
  WakeQueue, new_wake_queue, comes_first, load, less, exchange, swap, up_loop, up, down_loop, down,
  fix, append, push, remove_last, pop, pop_next, write_when, hasten, set_earlier_at, set_earlier,
}
use marvo.Scheduler.WakeQueue.Valid.{IsValid, IsHastened, time_of, new_wake_queue-IsValid}
use marvo.Scheduler.WakeQueue.Hasten.{earliest, set_earlier-IsHastened}
use marvo.Scheduler.WakeQueue.Popped.{Popped, pop_next-Popped}
use marvo.Scheduler.Loop.{
  Loop, round, idle, started, next_or_now, claim_result, run_done, reset_timer,
}
use marvo.Scheduler.Loop.Kept.{Valid, steps-Valid}
use marvo.Scheduler.Loop.Limit.{Reach, Unclaimed, begin, woken, head, workers_bound}
use marvo.Scheduler.Loop.Timer.{IsPatient, round-IsPatient}
use marvo.Scheduler.Loop.Woken.{awaited, woken_served, claim_result_waits}
use marvo.Scheduler.Loop.Overrun.{Turns, user, clock, marked, first_turn, overrun}

abbrev ann : String
ann = "a"

abbrev bob : String
bob = "b"

abbrev one : WakeQueue
one = record {
  items = record { user_id = bob; when = 9; index = pos 0 } ∷ [];
  by_user = (bob, true) ∷ [];
}

abbrev two : WakeQueue
two = record {
  items =
      record { user_id = ann; when = 5; index = pos 0 }
      ∷ record { user_id = bob; when = 9; index = pos 1 }
      ∷ [];
  by_user = (bob, true) ∷ (ann, true) ∷ [];
}

bob_waits : set_earlier bob 9 new_wake_queue ≡ some one
unfolding set_earlier set_earlier_at lookup new_wake_queue push up up_loop append insert
bob_waits = refl

ann_waits : set_earlier ann 5 one ≡ some two
unfolding set_earlier set_earlier_at lookup push up up_loop append less load comes_first swap
    exchange insert
ann_waits = refl

two-IsValid : IsValid two
two-IsValid =
    let first =
      Ends-some (set_earlier-IsHastened bob 9 new_wake_queue new_wake_queue-IsValid) bob_waits in
    (Ends-some (set_earlier-IsHastened ann 5 one first.valid) ann_waits).valid

-- Bob's time becomes the earliest, and his item rises.
bob_hurries :
    set_earlier bob 3 two
    ≡ some (record {
      items =
          record { user_id = bob; when = 3; index = pos 0 }
          ∷ record { user_id = ann; when = 5; index = pos 1 }
          ∷ [];
      by_user = (bob, true) ∷ (ann, true) ∷ [];
    })
unfolding set_earlier set_earlier_at lookup find_where hasten fix down down_loop write_when
    update_where up up_loop less load comes_first swap exchange
bob_hurries = refl

ann_first : pop_next two ≡ some (some (record { user_id = ann; when = 5; index = negsuc 0 }), one)
unfolding pop_next pop swap load down down_loop remove_last exchange erase
ann_first = refl

set_earlier-IsHastened_example :
    Ends (IsHastened bob (earliest (time_of bob two) 3) two) (set_earlier bob 3 two)
set_earlier-IsHastened_example = set_earlier-IsHastened bob 3 two two-IsValid

pop_next-Popped_example : Ends (Popped two) (pop_next two)
pop_next-Popped_example = pop_next-Popped two two-IsValid

-- A manager with two users that wait.
abbrev manager : Loop
manager = record (marked 1 (user ∷ [])) { due = two }

steps-Valid_example :
    Ends Valid (round clock 7 manager)
    × Ends Valid (claim_result started user none 7 manager)
    × Ends Valid (run_done user none 7 manager)
steps-Valid_example = steps-Valid manager clock 7 started user none two-IsValid

-- A user is woken, and the loop goes round.
marked-Reach : Reach Unclaimed (marked 0 (user ∷ []))
marked-Reach = head clock 0 _ _ (woken user _ (begin 2)) first_turn

workers_bound_example :
    (0 + length (user ∷ []) ≤ 2)
    × (2 ≤ 2)
    × (2 ≤ 8)
    × ((other : String) → count_where (λ u. u == other) (user ∷ []) ≤ 1)
workers_bound_example = workers_bound (marked 0 (user ∷ [])) marked-Reach

round-IsPatient_example :
    Ends (λ (r : Loop). IsPatient 7 8 r (reset_timer 8 r)) (round clock 7 (marked 0 (user ∷ [])))
round-IsPatient_example = round-IsPatient clock 7 8 (marked 0 (user ∷ [])) marked-Reach

overrun_example : (s : Loop) × Turns s × (s.worker_limit ≡ 2) × (9 < s.running)
overrun_example = overrun 9

abbrev woken_manager : Loop
woken_manager = record manager { pending = (user, true) ∷ [] }

pending_user : is_some (lookup user woken_manager.pending) ≡ true
unfolding lookup
pending_user = refl

woken_served_example :
    Ends
      (λ (r : Loop). (is_some (time_of user r.due) || is_some (lookup user r.claiming)) ≡ true)
      (round clock 7 woken_manager)
    × Ends
        (λ (r : Loop).
          (not (is_some (lookup user woken_manager.claiming)) || is_some (lookup user r.claim_wake))
          ≡ true)
        (round clock 7 woken_manager)
woken_served_example = woken_served user clock 7 woken_manager two-IsValid pending_user

-- A claim without a run came back, and the user was not woken during it.
due_at : awaited idle (is_some (lookup user manager.claim_wake)) (some 9) 7 ≡ some 9
unfolding lookup
due_at = refl

claim_result_waits_example :
    Ends
      (λ (r : Loop). reached (time_of user r.due) 9 ≡ true)
      (claim_result idle user (some 9) 7 manager)
    × Ends
        (λ (r : Loop). reached (time_of user r.due) (next_or_now (some 9) 7) ≡ true)
        (run_done user (some 9) 7 manager)
claim_result_waits_example = claim_result_waits user 9 idle (some 9) 7 manager two-IsValid due_at
