-- ===== src/Deliveries/Loop.antt =====
-- internal/delivery/dispatcher.go: the loop over the users, one round at a time. A Go map is an association list, and
-- an iteration over it follows the list; what is proved holds for every list. The channel that only wakes the
-- loop up and the timer carry no data.
pub mod Capacity
pub mod Attended
use Prim.Native.String.{len}
use marvo.Base.{
  ℕ, zero, suc, ◌+◌, ◌-◌, String, Bool, true, false, not, ◌&&◌, ◌||◌, Option, none, some, List, [],
  ◌∷◌, ◌++◌, ltb, if◌then◌else◌, ◌==◌, string_eq, nat_eq, is_some, Map, lookup, insert, erase,
  length,
}
use marvo.Flights.{landed}
use marvo.Scheduling.{Instant}
use marvo.Schedules.Tables.{all_hex}

-- `pending` and `worker_limit` of Dispatcher, and the maps `due` and `running` of `run`. The goroutines of
-- `processUser` are the list `workers`, in the order in which they were started.
pub record Loop : Type 0 where
  pub pending : List String
  pub due : Map String Instant
  pub running : Map String Bool
  pub workers : List String
  pub worker_limit : ℕ

-- `GOMAXPROCS` at least 2 and at most 8.
unfoldable pub new_loop : ℕ → Loop
new_loop processors = record {
  pending = [];
  due = [];
  running = [];
  workers = [];
  worker_limit =
      let raised = if ltb processors 2 then 2 else processors in if ltb 8 raised then 8 else raised;
}

-- 20 hexadecimal digits that are their own lower case.
unfoldable pub valid_user_id : String → Bool
valid_user_id id = len id == 20 && all_hex id

unfoldable pub wake : String → Loop → Loop
wake user s = if valid_user_id user then record s { pending = user ∷ s.pending } else s

insert_due : List String → (String → Instant) → Map String Instant → Map String Instant
insert_due [] clock due = due
insert_due (user ∷ users) clock due = insert user (clock user) (insert_due users clock due)

-- `drainWakeups`, where `clock user` is what the clock shows when it is the user's turn.
unfoldable pub drain : (String → Instant) → Loop → Loop
unfolding insert_due
drain clock s = record s { pending = []; due = insert_due s.pending clock s.due }

-- A worker is started for a user.
abbrev pub start : String → Loop → Loop
start user s = record s {
  due = erase user s.due;
  running = insert user true s.running;
  workers = s.workers ++ user ∷ [];
}

-- `dispatch`: over the entries of `due`, with `capacity` workers left.
unfoldable pub dispatch_over : Map String Instant → ℕ → Instant → Loop → Loop
dispatch_over [] capacity now s = s
dispatch_over (entry ∷ rest) zero now s = s
dispatch_over ((user, when) ∷ rest) (suc capacity) now s =
    let skip = is_some (lookup user s.running) || ltb now when in
    dispatch_over rest (if skip then suc capacity else capacity) now
      (if skip then s else start user s)

unfoldable pub dispatch : Instant → Loop → Loop
dispatch now s = dispatch_over s.due (s.worker_limit - length s.running) now s

-- An earlier time replaces a later one.
earlier_due : Option Instant → String → Instant → Map String Instant → Map String Instant
earlier_due none user t due = insert user t due
earlier_due (some existing) user t due = if ltb t existing then insert user t due else due

merge_due : String → Option Instant → Map String Instant → Map String Instant
unfolding earlier_due
merge_due user none due = due
merge_due user (some t) due = earlier_due (lookup user due) user t due

-- A worker is done: `result := <-d.done`.
unfoldable pub finished : String → Option Instant → Loop → Loop
unfolding merge_due
finished user next_due s = record s {
  running = erase user s.running;
  workers = landed user s.workers;
  due = merge_due user next_due s.due;
}

-- The head of the loop.
unfoldable pub round : (String → Instant) → Instant → Loop → Loop
round clock now s = dispatch now (drain clock s)
