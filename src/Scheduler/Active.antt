-- ===== src/Scheduler/Active.antt =====
-- internal/scheduler/manager.go: the runs in progress, and how they are stopped (`Stop`, `StopUser`). A run is an
-- object with an address, `handle`, and `causes` has the cause of each context that was cancelled, by that address.
-- A context keeps the first cause. The cancellation without a cause, when a worker has ended, is left out: its
-- cause is read before.
pub mod Stops
use Prim.Native.String.{◌++◌}
use marvo.Base.{
  ℕ, String, Bool, true, false, not, ◌&&◌, Option, none, some, List, [], ◌∷◌, if◌then◌else◌, ◌==◌,
  string_eq, nat_eq, is_some, Map, lookup, insert, erase,
}
use marvo.Scheduler.Worker.{Cause, run_stopped, user_stopped}

pub record ActiveRun : Type 0 where
  pub handle : ℕ
  pub user_id : String
  pub schedule_id : String
  pub run_id : String

pub record Active : Type 0 where
  pub active : Map String ActiveRun
  pub causes : Map ℕ Cause

abbrev pub active_key : String → String → String
active_key user_id schedule_id = user_id ++ ("\0" ++ schedule_id)

-- run.cancel(cause)
unfoldable pub cancel : Cause → ActiveRun → Map ℕ Cause → Map ℕ Cause
cancel cause run causes =
    if is_some (lookup run.handle causes) then causes else insert run.handle cause causes

-- What `startWorker` does first.
unfoldable pub enter : ActiveRun → Active → Active
enter run m = record m { active = insert (active_key run.user_id run.schedule_id) run m.active }

is_same : ActiveRun → Option ActiveRun → Bool
is_same run none = false
is_same run (some other) = other.handle == run.handle

-- What its goroutine does at the end.
unfoldable pub leave : ActiveRun → Active → Active
unfolding is_same
leave run m =
    let key = active_key run.user_id run.schedule_id in
    if is_same run (lookup key m.active) then record m { active = erase key m.active } else m

unfoldable pub stop_run : String → Option ActiveRun → Active → Bool × Active
stop_run run_id none m = (false, m)
stop_run run_id (some run) m =
    if not (run.run_id == run_id)
    then (false, m)
    else (true, record m { causes = cancel run_stopped run m.causes })

unfoldable pub stop : String → String → String → Active → Bool × Active
stop user_id schedule_id run_id m =
    stop_run run_id (lookup (active_key user_id schedule_id) m.active) m

-- The runs of a user, in the order of the map.
unfoldable pub runs_of : String → Map String ActiveRun → List ActiveRun
runs_of user_id [] = []
runs_of user_id ((_, run) ∷ rest) =
    let more = runs_of user_id rest in if run.user_id == user_id then run ∷ more else more

unfoldable pub cancel_each : Cause → List ActiveRun → Map ℕ Cause → Map ℕ Cause
cancel_each cause [] causes = causes
cancel_each cause (run ∷ rest) causes = cancel_each cause rest (cancel cause run causes)

unfoldable pub stop_user : String → Active → Active
stop_user user_id m = record m {
  causes = cancel_each user_stopped (runs_of user_id m.active) m.causes;
}
