-- ===== src/Scheduler/Loop/Timer.antt =====
-- The timer of the loop.
use marvo.Base.{
  ℕ, zero, suc, ◌+◌, ◌≡◌, ◌≤◌, refl, arith, true, false, Option, none, some, leb, string_eq, ◌<◌,
  ◌-◌, String, lookup, length, Bool-cases, inl, inr, ◌⊎◌, false≢true,
}
use marvo.Base.Partial.{Ends, ends, Ends-bind, Ends-if, Ends-map}
use marvo.Scheduling.{Instant, Duration}
use marvo.Scheduler.WakeQueue.{WakeItem, WakeQueue, peek}
use marvo.Scheduler.WakeQueue.Popped.{Popped, pop_next-Popped}
use marvo.Scheduler.Loop.{
  Loop, start_claim, is_due, dispatch_loop, dispatch, round, timer_to, reset_timer,
}
use marvo.Flights.{length-insert}
use marvo.Scheduler.Loop.Limit.{Reach, Unclaimed, Reach-IsSound}
use marvo.Scheduler.Loop.Sound.{IsSound, start_claim-IsSound, drain-IsSound}

-- Every worker is taken, or nothing is due.
IsSettled : Instant → Loop → Type 0
IsSettled now r =
    (r.worker_limit ≤ r.running + length r.claiming) ⊎ (is_due (peek r.due) now ≡ false)

-- A claim takes one place of the room that is left.
start_claim-room_taken :
    (capacity : ℕ) (now : Instant) (x : Option WakeItem) (d : WakeQueue) (s : Loop)
    → IsSound s
    → Popped s.due (x, d)
    → is_due (peek s.due) now ≡ true
    → s.running + length s.claiming + suc capacity ≡ s.worker_limit
    → (start_claim x d s).running + length (start_claim x d s).claiming + capacity
      ≡ (start_claim x d s).worker_limit
unfolding start_claim is_due
start_claim-room_taken capacity now none d s p h due room = absurd (false≢true (rw h.1 at due))
start_claim-room_taken capacity now (some x) d s p h due room =
    let free : lookup x.user_id s.claiming ≡ none = ground (arith, p.apart x.user_id, h.0.there) in
    omega (arith, length-insert x.user_id s.claiming free)

dispatch_loop-IsSettled :
    (capacity : ℕ) (now : Instant) (s : Loop)
    → IsSound s
    → s.running + length s.claiming + capacity ≡ s.worker_limit
    → Ends (IsSettled now) (dispatch_loop capacity now s)
unfolding dispatch_loop IsSettled
dispatch_loop-IsSettled zero now s p room = ends (inl (omega arith))
dispatch_loop-IsSettled (suc capacity) now s p room =
    Ends-if (is_due (peek s.due) now)
      (λ due. Ends-bind (pop_next-Popped s.due p.valid) λ (x, d) h.
        dispatch_loop-IsSettled capacity now (start_claim x d s)
          (start_claim-IsSound x d s p h (omega arith))
          (start_claim-room_taken capacity now x d s p h due room))
      (λ early. ends (inr early))

-- The timer of a loop, set at `later`: not set where every worker is taken or no user waits, or else set to the
-- first time of the queue, which is after `now`.
abbrev pub IsPatient : Instant → Instant → Loop → Option Duration → Type 0
IsPatient now later r none = (r.worker_limit ≤ r.running + length r.claiming) ⊎ (peek r.due ≡ none)
IsPatient now later r (some delay) =
    (x : WakeItem) × (peek r.due ≡ some x) × (now < x.when) × (delay ≡ x.when - later)

timer_to-IsPatient :
    (x : Option WakeItem) (now later : Instant) (r : Loop)
    → peek r.due ≡ x
    → is_due x now ≡ false
    → IsPatient now later r (timer_to x later)
unfolding is_due timer_to
timer_to-IsPatient none now later r e h = inr e
timer_to-IsPatient (some x) now later r e h = (x, e, ground arith, refl)

IsSettled-IsPatient :
    (now later : Instant) (r : Loop) → IsSettled now r → IsPatient now later r (reset_timer later r)
unfolding IsSettled reset_timer
IsSettled-IsPatient now later r h =
    elim (Bool-cases (leb r.worker_limit (r.running + length r.claiming))) [
      | inl full ↦ rw full (inl (ground arith))
      | inr room ↦ rw room (
          timer_to-IsPatient (peek r.due) now later r refl
            (elim h [ inl full ↦ absurd (ground arith) | inr early ↦ early ]))
    ]

-- As long as no run ends while a claim of the same user is in flight, the loop neither spins nor oversleeps: after a
-- drain and a dispatch that reads the clock at `now`, the timer, for which the clock is read again, is not set, and
-- then every worker is taken or no user waits, or it is set to the first time of the queue, which was not yet due
-- at `now`.
pub round-IsPatient :
    (clock : String → Instant) (now later : Instant) (s : Loop)
    → Reach Unclaimed s
    → Ends (λ (r : Loop). IsPatient now later r (reset_timer later r)) (round clock now s)
unfolding round dispatch
round-IsPatient clock now later s reach =
    Ends-bind (drain-IsSound clock s (Reach-IsSound s reach)) λ r p.
      Ends-map (dispatch_loop-IsSettled _ now r p (omega (arith, p.bound)))
        (IsSettled-IsPatient now later)
