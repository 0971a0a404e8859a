-- ===== src/Scheduler/Loop/Overrun.antt =====
-- internal/scheduler/manager.go: a run that ends while another claim of its user is in flight.
use marvo.Base.{
  ℕ, zero, suc, ◌+◌, ◌≡◌, ◌<◌, refl, ap, arith, String, true, false, Option, none, some, List, [],
  ◌∷◌, ◌++◌, ◌==◌, string_eq, replicate, exists, lookup, insert, erase, ◌-◌, ◌≤◌, pos,
}
use marvo.Scheduling.{Instant}
use marvo.Sql.Rows.{find_where}
use marvo.Deliveries.Loop.{valid_user_id}
use marvo.Schedules.Tables.{all_hex}
use marvo.Scheduler.WakeQueue.{
  WakeItem, WakeQueue, new_wake_queue, peek, pop_next, pop, swap, load, down, down_loop,
  remove_last, exchange, set_earlier, set_earlier_at, push, up, up_loop, append, hasten,
}
use marvo.Flights.{landed}
use marvo.Scheduler.Loop.{
  Loop, new_manager, wake, round, Outcome, started, claim_result, run_done, drain, drain_users,
  drain_user, wait_until, dispatch, dispatch_loop, start_claim, settle,
}

-- The states in which the loop waits for an event, in the order of its own turns: an event and then the head.
pub data Turns : Loop → Type 0 where
  first :
      (processors : ℕ)
      → (user : String) → (clock : String → Instant) → (now : Instant) → (r : Loop)
      → round clock now (wake user (new_manager processors)) ≡ some r
      → Turns r
  back :
      (outcome : Outcome)
      → (user : String) → (next : Option Instant) → (clock : String → Instant) → (now : Instant)
      → (s m r : Loop) → Turns s
      → exists (λ u. u == user) s.claims ≡ true
      → claim_result outcome user next now s ≡ some m
      → round clock now m ≡ some r
      → Turns r
  done :
      (user : String)
      → (next : Option Instant) → (clock : String → Instant) → (now : Instant) → (s m r : Loop)
      → Turns s
      → 0 < s.running
      → run_done user next now s ≡ some m
      → round clock now m ≡ some r
      → Turns r

abbrev pub user : String
user = "0123456789abcdef0123"

abbrev pub clock : String → Instant
clock u = 0

abbrev item : WakeItem
item = record { user_id = user; when = 0; index = pos 0 }

abbrev pub nobody : WakeQueue
nobody = record { items = []; by_user = [] }

abbrev waiting : WakeQueue
waiting = record { items = item ∷ []; by_user = (user, true) ∷ [] }

-- `claims` are in flight, and the user is marked as claiming.
abbrev pub marked : ℕ → List String → Loop
marked running claims = record {
  pending = [];
  due = nobody;
  claiming = (user, true) ∷ [];
  claim_wake = [];
  running = running;
  claims = claims;
  worker_limit = 2;
  closed = false;
}

-- The user waits, though it is marked.
abbrev ended : List String → Loop
ended claims = record (marked 0 claims) { due = waiting }

-- The user waits, and is not marked.
abbrev unmarked : ℕ → List String → Loop
unmarked running claims = record {
  pending = [];
  due = waiting;
  claiming = [];
  claim_wake = [];
  running = running;
  claims = claims;
  worker_limit = 2;
  closed = false;
}

-- The loop marks the user and starts its claim.
pub first_turn : round clock 0 (wake user (new_manager 2)) ≡ some (marked 0 (user ∷ []))
unfolding round wake new_manager valid_user_id all_hex drain_user wait_until set_earlier
    set_earlier_at lookup push up up_loop append new_wake_queue drain drain_users dispatch
    dispatch_loop peek pop_next pop swap load down down_loop remove_last exchange start_claim erase
    insert
first_turn = refl

-- The claim brings a run: the user is marked no more, and waits for its next claim.
started_one :
    (n : ℕ) (claims : List String)
    → claim_result started user none 0 (marked n (user ∷ claims)) ≡ some (unmarked (n + 1) claims)
unfolding claim_result settle wait_until set_earlier set_earlier_at lookup push up up_loop append
    insert erase landed
started_one n claims = refl

head_claims :
    (claims : List String)
    → round clock 0 (unmarked 1 claims) ≡ some (marked 1 (claims ++ user ∷ []))
unfolding round drain drain_users dispatch dispatch_loop peek pop_next pop swap load down down_loop
    remove_last exchange start_claim erase insert
head_claims claims = refl

-- The run ends before the claim comes back, and a second claim of the user is started.
run_ends : (claims : List String) → run_done user none 0 (marked 1 claims) ≡ some (ended claims)
unfolding run_done wait_until set_earlier set_earlier_at lookup push up up_loop append insert
run_ends claims = refl

head_claims_again :
    (claims : List String) → round clock 0 (ended claims) ≡ some (marked 0 (claims ++ user ∷ []))
unfolding round drain drain_users dispatch dispatch_loop peek pop_next pop swap load down down_loop
    remove_last exchange start_claim erase insert
head_claims_again claims = refl

-- Where all workers are busy no claim is started, but those in flight come back with runs.
head_full :
    (n : ℕ) (claims : List String)
    → 2 ≤ n
    → round clock 0 (unmarked n claims) ≡ some (unmarked n claims)
unfolding round drain drain_users dispatch dispatch_loop
head_full n claims h = let full : 2 - n - 0 ≡ 0 = omega arith in rw full refl

started_more :
    (n : ℕ) (claims : List String)
    → claim_result started user none 0 (unmarked n (user ∷ claims)) ≡ some (unmarked (n + 1) claims)
unfolding claim_result hasten find_where settle wait_until set_earlier set_earlier_at lookup push up
    up_loop append insert erase landed
started_more n claims = refl

abbrev copies : ℕ → List String
copies k = replicate k user

one_more : (k : ℕ) → copies k ++ user ∷ [] ≡ user ∷ copies k
unfolding replicate
one_more zero = refl
one_more (suc k) = ap (◌∷◌ user) (one_more k)

busy_turn : (k : ℕ) → Turns (marked 0 (user ∷ copies k)) → Turns (marked 1 (user ∷ copies k))
busy_turn k t = rw (← one_more k) (
    back started user none clock 0 _ _ _ t refl (started_one 0 (copies k)) (head_claims (copies k)))

growing_turn :
    (k : ℕ) → Turns (marked 0 (user ∷ copies k)) → Turns (marked 0 (user ∷ user ∷ copies k))
growing_turn k t = rw (← one_more k) (
    done user none clock 0 _ _ _ (busy_turn k t) (omega arith) (run_ends (user ∷ copies k))
      (head_claims_again (user ∷ copies k)))

-- Any number of claims of one user in flight.
many_claims : (k : ℕ) → Turns (marked 0 (user ∷ copies k))
unfolding replicate
many_claims zero = first 2 user clock 0 _ first_turn
many_claims (suc k) = growing_turn k (many_claims k)

all_return : (k n : ℕ) → 2 ≤ n → Turns (unmarked n (copies k)) → Turns (unmarked (n + k) [])
unfolding replicate
all_return zero n h t = let same : n + 0 ≡ n = omega arith in rw same t
all_return (suc k) n h t =
    let same : n + suc k ≡ n + 1 + k = omega arith in
    rw same (
      all_return k (n + 1) (omega arith) (
        back started user none clock 0 _ _ _ t refl (started_more n (copies k))
          (head_full (n + 1) (copies k) (omega arith))))

-- For every number there is a history of a manager with two workers, one event after the other, in which
-- more runs than that number are active at a time.
pub overrun : (n : ℕ) → (s : Loop) × Turns s × (s.worker_limit ≡ 2) × (n < s.running)
overrun n =
    let t =
      back started user none clock 0 _ _ _ (busy_turn n (many_claims n)) refl
        (started_one 1 (copies n)) (head_full 2 (copies n) (omega arith)) in
    (unmarked (2 + n) [], all_return n 2 (omega arith) t, refl, omega arith)
