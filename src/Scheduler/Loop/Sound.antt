-- ===== src/Scheduler/Loop/Sound.antt =====
-- internal/scheduler/manager.go: the books of the manager, which are the marks, the claims in flight, the runs and the
-- limit of workers.
use marvo.Base.{
  ℕ, zero, suc, ◌+◌, ◌≡◌, ◌≤◌, ◌<◌, refl, arith, String, Bool, true, not, ◌&&◌, Option, none, some,
  [], ◌∷◌, if◌then◌else◌, string_eq, text_iff, is_some, Map, lookup, IsUnique, lookup-insert,
  insert-IsUnique, length, length-append, if-elim,
}
use marvo.Base.Partial.{Ends, ends, Ends-bind, Ends-if}
use marvo.Scheduling.{Instant}
use marvo.Sql.Rows.{count_where}
use marvo.Deliveries.Loop.{valid_user_id}
use marvo.Scheduler.WakeQueue.{WakeItem, WakeQueue, peek}
use marvo.Scheduler.WakeQueue.Valid.{IsValid, time_of, IsHastened, new_wake_queue-IsValid}
use marvo.Scheduler.WakeQueue.Popped.{Popped, pop_next-Popped}
use marvo.Scheduler.Loop.{
  Loop, new_manager, wake, start_claim, is_due, dispatch_loop, dispatch, drain, round,
}
use marvo.Flights.{flights-append, length-insert_le, flights, length-insert}
use marvo.Scheduler.Loop.Kept.{Keeps, drain-Ends}

pub record IsSound (s : Loop) : Type 0 where
  pub valid : IsValid s.due
  pub unique : IsUnique s.claiming
  pub apart : (u : String) → is_some (lookup u s.claiming) ≡ true → time_of u s.due ≡ none
  pub same : length s.claims ≡ length s.claiming
  pub once : (u : String) → flights u s.claims ≡ (if is_some (lookup u s.claiming) then 1 else 0)
  pub bound : s.running + length s.claiming ≤ s.worker_limit
  pub limits : (2 ≤ s.worker_limit) × (s.worker_limit ≤ 8)

abbrev pub Free : String → Map String Bool → Type 0
Free u claiming = lookup u claiming ≡ none

waits-apart :
    (u : String) (t : Instant) (s : Loop) (d : WakeQueue)
    → Free u s.claiming
    → IsSound s
    → IsHastened u t s.due d
    → (v : String) → is_some (lookup v s.claiming) ≡ true
    → time_of v d ≡ none
waits-apart u t s d a p h v c = ground (arith, h.times v, p.apart v, text_iff u v)

pub IsSound-Keeps : Keeps Free IsSound
IsSound-Keeps = record {
  valid = λ s p. p.valid;
  waits = λ u t s d a p h. record {
    valid = h.valid;
    unique = p.unique;
    apart = waits-apart u _ s d a p h;
    same = p.same;
    once = p.once;
    bound = p.bound;
    limits = p.limits;
  };
  woken = λ u s p. record {
    valid = p.valid;
    unique = p.unique;
    apart = p.apart;
    same = p.same;
    once = p.once;
    bound = p.bound;
    limits = p.limits;
  };
  free = λ u claiming e. e;
}

pub new_manager-IsSound : (processors : ℕ) → IsSound (new_manager processors)
unfolding new_manager lookup count_where
new_manager-IsSound processors = record {
  valid = new_wake_queue-IsValid;
  unique = tt;
  apart = λ u e. cc;
  same = refl;
  once = λ u. refl;
  bound = omega arith;
  limits = (ground arith, ground arith);
}

pub wake-IsSound : (u : String) (s : Loop) → IsSound s → IsSound (wake u s)
unfolding wake
wake-IsSound u s p =
    if-elim IsSound (valid_user_id u && not s.closed) _ s
      (record {
        valid = p.valid;
        unique = p.unique;
        apart = p.apart;
        same = p.same;
        once = p.once;
        bound = p.bound;
        limits = p.limits;
      })
      p

-- A claim that begins for a user that waited.
pub start_claim-IsSound :
    (x : Option WakeItem) (d : WakeQueue) (s : Loop)
    → IsSound s
    → Popped s.due (x, d)
    → s.running + length s.claiming < s.worker_limit
    → IsSound (start_claim x d s)
unfolding start_claim
start_claim-IsSound none d s p h room = record {
  valid = rw h.2 p.valid;
  unique = p.unique;
  apart = rw h.2 p.apart;
  same = p.same;
  once = p.once;
  bound = p.bound;
  limits = p.limits;
}
start_claim-IsSound (some x) d s p h room =
    let there = h.0.there in
    let free : lookup x.user_id s.claiming ≡ none = ground (arith, p.apart x.user_id) in
    let more = length-insert x.user_id s.claiming free in
    record {
      valid = h.1.valid;
      unique = insert-IsUnique x.user_id true s.claiming p.unique;
      apart = λ u e. ground (
        arith,
        h.1.times u,
        p.apart u,
        lookup-insert x.user_id u true s.claiming,
        text_iff x.user_id u,
      );
      same = omega (arith, length-append s.claims (x.user_id ∷ []), p.same, more);
      once = λ u. ground (
        arith,
        p.once u,
        p.once x.user_id,
        flights-append u x.user_id s.claims,
        lookup-insert x.user_id u true s.claiming,
        text_iff x.user_id u,
        free,
      );
      bound = omega (arith, more);
      limits = p.limits;
    }

start_claim-room :
    (capacity : ℕ) (x : Option WakeItem) (d : WakeQueue) (s : Loop)
    → s.running + length s.claiming + suc capacity ≤ s.worker_limit
    → (start_claim x d s).running + length (start_claim x d s).claiming + capacity
      ≤ (start_claim x d s).worker_limit
unfolding start_claim
start_claim-room capacity none d s room = omega arith
start_claim-room capacity (some x) d s room = omega (arith, length-insert_le x.user_id s.claiming)

dispatch_loop-IsSound :
    (capacity : ℕ) (now : Instant) (s : Loop)
    → IsSound s
    → s.running + length s.claiming + capacity ≤ s.worker_limit
    → Ends IsSound (dispatch_loop capacity now s)
unfolding dispatch_loop
dispatch_loop-IsSound zero now s p room = ends p
dispatch_loop-IsSound (suc capacity) now s p room =
    Ends-if (is_due (peek s.due) now)
      (λ due. Ends-bind (pop_next-Popped s.due p.valid) λ (x, d) h.
        dispatch_loop-IsSound capacity now (start_claim x d s)
          (start_claim-IsSound x d s p h (omega arith)) (start_claim-room capacity x d s room))
      (λ early. ends p)

pub drain-IsSound : (clock : String → Instant) (s : Loop) → IsSound s → Ends IsSound (drain clock s)
drain-IsSound clock s p =
    drain-Ends Free IsSound IsSound-Keeps
      (λ r q. record {
        valid = q.valid;
        unique = q.unique;
        apart = q.apart;
        same = q.same;
        once = q.once;
        bound = q.bound;
        limits = q.limits;
      })
      clock s p

pub round-IsSound :
    (clock : String → Instant) (now : Instant) (s : Loop)
    → IsSound s
    → Ends IsSound (round clock now s)
unfolding round dispatch
round-IsSound clock now s p =
    Ends-bind (drain-IsSound clock s p)
      λ r q. dispatch_loop-IsSound _ now r q (omega (arith, q.bound))
