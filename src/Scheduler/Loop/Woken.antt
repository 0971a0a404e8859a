-- ===== src/Scheduler/Loop/Woken.antt =====
-- What becomes of a user that is woken, and of one whose claim comes back.
use marvo.Base.{
  ◌+◌, ◌≡◌, ◌≤◌, arith, String, Bool, true, false, not, ◌||◌, Option, none, some, leb,
  if◌then◌else◌, string_eq, text_iff, ==-refl, is_some, lookup, Bool-cases, inl, inr,
}
use marvo.Base.Partial.{◌>>=◌, Ends, ends, Ends-bind, Ends-map}
use marvo.Scheduling.{Instant}
use marvo.Sql.Columns.{reached, earlier}
use marvo.Scheduler.WakeQueue.Valid.{time_of}
use marvo.Scheduler.WakeQueue.Hasten.{set_earlier-IsHastened}
use marvo.Scheduler.Loop.{
  Loop, wait_until, round, Outcome, failed, idle, started, maybe_wait, maybe_now, next_or_now,
  settle, claim_result, run_done, state_open_retry,
}
use marvo.Scheduler.Loop.Kept.{Valid, Keeps, Any, wait_until-Ends, Valid-Keeps}
use marvo.Scheduler.Loop.Served.{IsServed, round-serves, round-remembers}

-- A user that was woken waits after a round of the loop, or a claim is made for it; and if its claim was in
-- flight before the round, the loop remembers that the user was woken during the claim.
pub woken_served :
    (user : String) (clock : String → Instant) (now : Instant) (s : Loop)
    → Valid s
    → is_some (lookup user s.pending) ≡ true
    → Ends
        (λ (r : Loop). (is_some (time_of user r.due) || is_some (lookup user r.claiming)) ≡ true)
        (round clock now s)
      × Ends
          (λ (r : Loop).
            (not (is_some (lookup user s.claiming)) || is_some (lookup user r.claim_wake)) ≡ true)
          (round clock now s)
woken_served user clock now s v h = (
  Ends-map served (λ r p. p.served),
  elim (Bool-cases (is_some (lookup user s.claiming))) [
    | inl e ↦
        Ends-map (round-remembers user clock now s (v, e) h) (λ r p. ground (arith, p.remembered))
    | inr e ↦ Ends-map served (λ r p. ground arith)
  ],
)
  where
    served : Ends (IsServed user) (round clock now s)
    served = round-serves user clock now s v (ground arith)

-- What the loop sets the user to wait for.
abbrev pub awaited : Outcome → Bool → Option Instant → Instant → Option Instant
awaited failed woken next now = some (if woken then now else now + state_open_retry)
awaited idle woken next now = earlier next (if woken then some now else none)
awaited started woken next now =
    earlier (some (next_or_now next now)) (if woken then some now else none)

module _ (u : String) (t : Instant) where
  -- The user waits until `t` at the latest.
  abbrev IsBy : Loop → Type 0
  IsBy s = Valid s × (reached (time_of u s.due) t ≡ true)

  IsBy-Keeps : Keeps Any IsBy
  IsBy-Keeps = record {
    valid = λ s p. p.0;
    waits = λ v x s d a p h. (h.valid, ground (arith, p.1, h.times u, text_iff v u));
    woken = λ v s p. p;
    free = λ v claiming e. tt;
  }

  -- A wait until then, or until an earlier time.
  wait_until-IsBy : (x : Instant) (s : Loop) → Valid s → x ≤ t → Ends IsBy (wait_until u x s)
  unfolding wait_until
  wait_until-IsBy x s v h =
      Ends-bind (set_earlier-IsHastened u x s.due v)
        λ d k. ends (k.valid, ground (arith, k.times u, ==-refl u))

  two_waits :
      (x y : Instant) (s : Loop)
      → Valid s
      → earlier (some x) (some y) ≡ some t
      → Ends IsBy (wait_until u x s >>= wait_until u y)
  two_waits x y s v e = elim (Bool-cases (leb x t)) [
    | inl first ↦
        Ends-bind (wait_until-IsBy x s v (ground arith))
          λ r p. wait_until-Ends Any IsBy IsBy-Keeps u y r tt p
    | inr later ↦
        Ends-bind (wait_until-Ends Any Valid Valid-Keeps u x s tt v)
          λ r q. wait_until-IsBy y r q (ground arith)
  ]

  settle-IsBy :
      (outcome : Outcome) (woken : Bool) (next : Option Instant) (now : Instant) (s : Loop)
      → Valid s
      → awaited outcome woken next now ≡ some t
      → Ends IsBy (settle outcome u woken next now s)
  unfolding settle maybe_wait maybe_now
  settle-IsBy failed woken next now s v e = wait_until-IsBy _ s v (ground arith)
  settle-IsBy idle false none now s v e = cc
  settle-IsBy idle false (some n) now s v e =
      Ends-bind (wait_until-IsBy n s v (ground arith)) λ r p. ends p
  settle-IsBy idle true none now s v e = wait_until-IsBy now s v (ground arith)
  settle-IsBy idle true (some n) now s v e = two_waits n now s v e
  settle-IsBy started false next now s v e =
      Ends-bind (wait_until-IsBy _ (record s { running = s.running + 1 }) v (ground arith))
        λ r p. ends p
  settle-IsBy started true next now s v e =
      two_waits (next_or_now next now) now (record s { running = s.running + 1 }) v e

-- When a claim comes back, its user waits afterwards, and no longer than to the time that is due to it: after an
-- error for a minute, after a claim without a run until the next time of its tables (if there is one), after
-- a run until that or else until now, and if the user was woken during the claim at most until now. When a run
-- ends, its user waits at most until the next time, or until now if there is none.
pub claim_result_waits :
    (user : String) (t : Instant) (outcome : Outcome) (next : Option Instant) (now : Instant)
    (s : Loop)
    → Valid s
    → awaited outcome (is_some (lookup user s.claim_wake)) next now ≡ some t
    → Ends
        (λ (r : Loop). reached (time_of user r.due) t ≡ true)
        (claim_result outcome user next now s)
      × Ends
          (λ (r : Loop). reached (time_of user r.due) (next_or_now next now) ≡ true)
          (run_done user next now s)
unfolding claim_result run_done
claim_result_waits user t outcome next now s v e = (
  Ends-map (settle-IsBy user t outcome _ next now _ v e) (λ r p. p.1),
  Ends-map (wait_until-IsBy user (next_or_now next now) (next_or_now next now) _ v (omega arith))
      (λ r p. p.1),
)
