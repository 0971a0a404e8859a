-- ===== src/Scheduler/Loop.antt =====
-- internal/scheduler/manager.go: the loop of the manager (`run`) over the users, one event at a time. A Go map
-- is an association list; a drain of `pending` follows the list, and what is proved holds for every list. The
-- claims that run in goroutines are the list `claims`, in the order in which they were started. The channel that
-- only wakes the loop up carries no data. `none` is a panic of the wake queue.
pub mod Kept
pub mod Sound
pub mod Limit
pub mod Served
pub mod Woken
pub mod Timer
pub mod Overrun
use marvo.Base.{
  ℕ, zero, suc, ◌+◌, ◌-◌, String, Bool, true, false, not, ◌&&◌, ◌||◌, Option, none, some, List, [],
  ◌∷◌, ◌++◌, ltb, leb, if◌then◌else◌, ◌==◌, string_eq, nat_eq, is_some, or_else, Map, lookup,
  insert, erase, length,
}
use marvo.Base.Partial.{◌>>=◌}
use marvo.Flights.{landed}
use marvo.Scheduling.{Instant, Duration}
use marvo.Deliveries.Loop.{valid_user_id}
use marvo.Scheduler.WakeQueue.{WakeItem, WakeQueue, new_wake_queue, peek, pop_next, set_earlier}

-- `pending` and `worker_limit` of Manager, whether its context is cancelled (`closed`), and the variables of `run`.
pub record Loop : Type 0 where
  pub pending : Map String Bool
  pub due : WakeQueue
  pub claiming : Map String Bool
  pub claim_wake : Map String Bool
  pub running : ℕ
  pub claims : List String
  pub worker_limit : ℕ
  pub closed : Bool

-- `GOMAXPROCS` at least 2 and at most 8.
unfoldable pub new_manager : ℕ → Loop
new_manager processors = record {
  pending = [];
  due = new_wake_queue;
  claiming = [];
  claim_wake = [];
  running = 0;
  claims = [];
  worker_limit =
      let raised = if ltb processors 2 then 2 else processors in if ltb 8 raised then 8 else raised;
  closed = false;
}

-- stateOpenRetry
abbrev pub state_open_retry : Duration
state_open_retry = 60000000000

-- `Wake`
unfoldable pub wake : String → Loop → Loop
wake user s =
    if valid_user_id user && not s.closed
    then record s { pending = insert user true s.pending }
    else s

-- `Close`
unfoldable pub close : Loop → Loop
close s = record s { closed = true }

-- `due.SetEarlier`
unfoldable pub wait_until : String → Instant → Loop → Option Loop
wait_until user when s = do due ← set_earlier user when s.due; some (record s { due = due })

-- One user of `drainWakeups`, at the time `now`.
unfoldable pub drain_user : String → Instant → Loop → Option Loop
drain_user user now s =
    if is_some (lookup user s.claiming)
    then some (record s { claim_wake = insert user true s.claim_wake })
    else wait_until user now s

-- `clock user` is what the clock shows when it is the user's turn.
unfoldable pub drain_users : Map String Bool → (String → Instant) → Loop → Option Loop
drain_users [] clock s = some s
drain_users ((user, _) ∷ users) clock s = do
  rest ← drain_users users clock s
  drain_user user (clock user) rest

-- `drainWakeups`
unfoldable pub drain : (String → Instant) → Loop → Option Loop
drain clock s = do drained ← drain_users s.pending clock s; some (record drained { pending = [] })

-- A claim for the popped user.
unfoldable pub start_claim : Option WakeItem → WakeQueue → Loop → Loop
start_claim none due s = record s { due = due }
start_claim (some x) due s = record s {
  due = due;
  claiming = insert x.user_id true s.claiming;
  claims = s.claims ++ x.user_id ∷ [];
}

is_due : Option WakeItem → Instant → Bool
is_due none now = false
is_due (some x) now = not (ltb now x.when)

-- The loop of `dispatch`.
unfoldable pub dispatch_loop : ℕ → Instant → Loop → Option Loop
unfolding is_due
dispatch_loop zero now s = some s
dispatch_loop (suc capacity) now s =
    let next = do (x, due) ← pop_next s.due; dispatch_loop capacity now (start_claim x due s)
    in if is_due (peek s.due) now then next else some s

unfoldable pub dispatch : Instant → Loop → Option Loop
dispatch now s = dispatch_loop (s.worker_limit - s.running - length s.claiming) now s

-- The head of the loop.
unfoldable pub round : (String → Instant) → Instant → Loop → Option Loop
round clock now s = do drained ← drain clock s; dispatch now drained

-- `resetTimer`: for how long the timer is set, if it is. Subtraction stops at 0 as the delay does.
timer_to : Option WakeItem → Instant → Option Duration
timer_to none now = none
timer_to (some x) now = some (x.when - now)

unfoldable pub reset_timer : Instant → Loop → Option Duration
unfolding timer_to
reset_timer now s =
    if leb s.worker_limit (s.running + length s.claiming) then none else timer_to (peek s.due) now

-- What a claim came to: an error, nothing to run, or a run; and the next time the user's tables name.
pub data Outcome : Type 0 where
  failed idle started : Outcome

maybe_wait : String → Option Instant → Loop → Option Loop
maybe_wait user none s = some s
maybe_wait user (some when) s = wait_until user when s

-- The user is set to wait for now if it was woken during the claim.
maybe_now : Bool → String → Instant → Loop → Option Loop
maybe_now woken user now s = if woken then wait_until user now s else some s

abbrev pub next_or_now : Option Instant → Instant → Instant
next_or_now none now = now
next_or_now (some next) now = next

unfoldable pub settle : Outcome → String → Bool → Option Instant → Instant → Loop → Option Loop
unfolding maybe_wait maybe_now
settle failed user woken next now s =
    wait_until user (if woken then now else now + state_open_retry) s
settle idle user woken next now s = maybe_wait user next s >>= maybe_now woken user now
settle started user woken next now s =
    wait_until user (next_or_now next now) (record s { running = s.running + 1 })
    >>= maybe_now woken user now

-- `result := <-m.claims`; `now` is the reading of the clock that the branch makes (one, where it makes two).
unfoldable pub claim_result : Outcome → String → Option Instant → Instant → Loop → Option Loop
claim_result outcome user next now s =
    settle outcome user (is_some (lookup user s.claim_wake)) next now (record s {
      claiming = erase user s.claiming;
      claim_wake = erase user s.claim_wake;
      claims = landed user s.claims;
    })

-- `result := <-m.done`
unfoldable pub run_done : String → Option Instant → Instant → Loop → Option Loop
run_done user next now s =
    wait_until user (next_or_now next now) (record s { running = s.running - 1 })
