-- ===== src/Scheduler/Active/Stops.antt =====
-- internal/scheduler/manager.go: whom `Stop` and `StopUser` reach.
use marvo.Base.{
  ℕ, ◌≡◌, refl, arith, String, Bool, false, ◌&&◌, Option, none, some, List, [], ◌∷◌, if◌then◌else◌,
  ◌==◌, string_eq, nat_eq, or_else, exists, Map, lookup, lookup-insert, Bool-cases, inl, inr,
}
use marvo.Scheduler.Worker.{Cause, run_stopped, user_stopped}
use marvo.Scheduler.Active.{
  ActiveRun, Active, active_key, cancel, stop_run, stop, runs_of, cancel_each, stop_user,
}

lookup-cancel :
    (cause : Cause) (run : ActiveRun) (h : ℕ) (causes : Map ℕ Cause)
    → lookup h (cancel cause run causes)
      ≡ or_else (lookup h causes) (if run.handle == h then some cause else none)
unfolding cancel
lookup-cancel cause run h causes = ground (arith, lookup-insert run.handle h cause causes)

lookup-cancel_each :
    (cause : Cause) (runs : List ActiveRun) (h : ℕ) (causes : Map ℕ Cause)
    → lookup h (cancel_each cause runs causes)
      ≡ or_else
          (lookup h causes)
          (if exists (λ run. run.handle == h) runs then some cause else none)
unfolding cancel_each
lookup-cancel_each cause [] h causes = ground arith
lookup-cancel_each cause (run ∷ rest) h causes = ground (
  arith,
  lookup-cancel_each cause rest h (cancel cause run causes),
  lookup-cancel cause run h causes,
)

exists-runs_of :
    (user_id : String) (h : ℕ) (active : Map String ActiveRun)
    → exists (λ run. run.handle == h) (runs_of user_id active)
      ≡ exists (λ (_, run). run.user_id == user_id && run.handle == h) active
unfolding runs_of
exists-runs_of user_id h [] = refl
exists-runs_of user_id h ((_, run) ∷ rest) = ground (arith, exists-runs_of user_id h rest)

-- The run that `Stop` aims at.
abbrev pub is_aim : String → ℕ → Option ActiveRun → Bool
is_aim run_id h none = false
is_aim run_id h (some run) = run.run_id == run_id && run.handle == h

stop_run-causes :
    (run_id : String) (h : ℕ) (o : Option ActiveRun) (m : Active)
    → lookup h (stop_run run_id o m).1.causes
      ≡ or_else (lookup h m.causes) (if is_aim run_id h o then some run_stopped else none)
unfolding stop_run
stop_run-causes run_id h none m = ground arith
stop_run-causes run_id h (some run) m = elim (Bool-cases (run.run_id == run_id)) [
  | inl e ↦ rw e (lookup-cancel run_stopped run h m.causes)
  | inr e ↦ rw e (ground arith)
]

stop_run-active :
    (run_id : String) (o : Option ActiveRun) (m : Active)
    → (stop_run run_id o m).1.active ≡ m.active
unfolding stop_run
stop_run-active run_id none m = refl
stop_run-active run_id (some run) m = elim (Bool-cases (run.run_id == run_id)) [
  | inl e ↦ rw e refl
  | inr e ↦ rw e refl
]

-- StopUser cancels the runs of the user that are in progress, and nothing else, and Stop the run of the schedule if it
-- has the given ID, and nothing else. A run that was cancelled before keeps its cause, and the runs stay in progress
-- until they end.
pub stops_causes :
    (user_id schedule_id run_id : String) (h : ℕ) (m : Active)
    → (lookup h (stop_user user_id m).causes
        ≡ or_else (lookup h m.causes) (
            if exists (λ (_, run). run.user_id == user_id && run.handle == h) m.active
            then some user_stopped
            else none))
      × (lookup h (stop user_id schedule_id run_id m).1.causes
          ≡ or_else (lookup h m.causes) (
              if is_aim run_id h (lookup (active_key user_id schedule_id) m.active)
              then some run_stopped
              else none))
      × ((stop_user user_id m).active ≡ m.active)
      × ((stop user_id schedule_id run_id m).1.active ≡ m.active)
unfolding stop_user stop
stops_causes user_id schedule_id run_id h m =
    let aim = lookup (active_key user_id schedule_id) m.active in
    (
      rw
          (
            lookup-cancel_each user_stopped (runs_of user_id m.active) h m.causes,
            exists-runs_of user_id h m.active,
          )
          refl,
      stop_run-causes run_id h aim m,
      refl,
      stop_run-active run_id aim m,
    )
