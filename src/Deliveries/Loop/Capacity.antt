-- ===== src/Deliveries/Loop/Capacity.antt =====
-- internal/delivery/dispatcher.go: how many workers run at a time.
use marvo.Base.{
  ℕ, zero, suc, ◌+◌, ◌≡◌, ◌≤◌, ◌<◌, refl, arith, String, true, ◌||◌, Option, none, List, [], ◌∷◌,
  ltb, if-elim, if◌then◌else◌, ◌==◌, string_eq, is_some, Map, lookup, IsUnique, insert-IsUnique,
  erase-IsUnique, length, length-append, lookup-insert, lookup-erase, text_iff, Bool-cases, inl,
  inr, exists,
}
use marvo.Flights.{
  flights, length-insert, length-erase, length-landed, flights-landed, flights_of_exists,
  flights-append,
}
use marvo.Sql.Rows.{count_where}
use marvo.Scheduling.{Instant}
use marvo.Deliveries.Loop.{
  Loop, new_loop, valid_user_id, wake, drain, start, dispatch_over, dispatch, finished, round,
}

-- The marks agree with the goroutines, of which no user has two.
record IsSound (s : Loop) : Type 0 where
  unique : IsUnique s.running
  same : length s.workers ≡ length s.running
  once : (u : String) → flights u s.workers ≡ (if is_some (lookup u s.running) then 1 else 0)
  bound : length s.running ≤ s.worker_limit
  limits : (2 ≤ s.worker_limit) × (s.worker_limit ≤ 8)

new_loop-IsSound : (processors : ℕ) → IsSound (new_loop processors)
unfolding new_loop lookup count_where
new_loop-IsSound processors = record {
  unique = tt;
  same = refl;
  once = λ u. refl;
  bound = omega arith;
  limits = (ground arith, ground arith);
}

-- What the loop does to `pending` and `due` alone.
relisted-IsSound :
    (pending : List String) (due : Map String Instant) (s : Loop)
    → IsSound s
    → IsSound (record s { pending = pending; due = due })
relisted-IsSound pending due s p = record {
  unique = p.unique;
  same = p.same;
  once = p.once;
  bound = p.bound;
  limits = p.limits;
}

start-IsSound :
    (user : String) (s : Loop)
    → IsSound s
    → lookup user s.running ≡ none
    → length s.running < s.worker_limit
    → IsSound (start user s)
start-IsSound user s p free room =
    let more = length-insert user s.running free in
    record {
      unique = insert-IsUnique user true s.running p.unique;
      same = omega (arith, length-append s.workers (user ∷ []), p.same, more);
      once = λ u. ground (
        arith,
        p.once u,
        p.once user,
        flights-append u user s.workers,
        lookup-insert user u true s.running,
        text_iff user u,
        free,
      );
      bound = omega (arith, more);
      limits = p.limits;
    }

dispatch_over-IsSound :
    (entries : Map String Instant) (capacity : ℕ) (now : Instant) (s : Loop)
    → IsSound s
    → length s.running + capacity ≤ s.worker_limit
    → IsSound (dispatch_over entries capacity now s)
unfolding dispatch_over
dispatch_over-IsSound [] capacity now s p room = p
dispatch_over-IsSound (entry ∷ rest) zero now s p room = p
dispatch_over-IsSound ((user, when) ∷ rest) (suc capacity) now s p room =
    elim (Bool-cases (is_some (lookup user s.running) || ltb now when)) [
      | inl skip ↦ simp skip (dispatch_over-IsSound rest (suc capacity) now s p room)
      | inr go ↦
          let free : lookup user s.running ≡ none = ground arith in
          simp go (
            dispatch_over-IsSound rest capacity now (start user s)
              (start-IsSound user s p free (omega arith))
              (omega (arith, length-insert user s.running free)))
    ]

round-IsSound :
    (clock : String → Instant) (now : Instant) (s : Loop) → IsSound s → IsSound (round clock now s)
unfolding round dispatch drain
round-IsSound clock now s p =
    dispatch_over-IsSound _ _ now (drain clock s) (relisted-IsSound _ _ s p)
      (omega (arith, p.bound))

finished-IsSound :
    (user : String) (next_due : Option Instant) (s : Loop)
    → IsSound s
    → 0 < flights user s.workers
    → IsSound (finished user next_due s)
unfolding finished
finished-IsSound user next_due s p flying =
    let marked : is_some (lookup user s.running) ≡ true = ground (arith, p.once user) in
    let fewer = length-erase user s.running p.unique marked in
    record {
      unique = erase-IsUnique user s.running p.unique;
      same = omega (arith, fewer, length-landed user s.workers flying, p.same);
      once = λ u. ground (
        arith,
        p.once u,
        p.once user,
        flights-landed user u s.workers,
        lookup-erase user u s.running,
        text_iff user u,
      );
      bound = omega (arith, fewer, p.bound);
      limits = p.limits;
    }

-- The histories of the loop: users are woken and workers are done at any time, and the loop goes round.
pub data Reach : Loop → Type 0 where
  begin : (processors : ℕ) → Reach (new_loop processors)
  woken : (user : String) → (s : Loop) → Reach s → Reach (wake user s)
  done :
      (user : String)
      → (next_due : Option Instant) → (s : Loop) → Reach s
      → exists (λ v. v == user) s.workers ≡ true
      → Reach (finished user next_due s)
  again :
      (clock : String → Instant)
      → (now : Instant) → (s : Loop) → Reach s
      → Reach (round clock now s)

Reach-IsSound : (s : Loop) → Reach s → IsSound s
unfolding wake
Reach-IsSound _ (begin processors) = new_loop-IsSound processors
Reach-IsSound _ (woken user s reach) =
    if-elim IsSound (valid_user_id user) _ s (relisted-IsSound _ _ s (Reach-IsSound s reach))
      (Reach-IsSound s reach)
Reach-IsSound _ (done user next_due s reach there) =
    finished-IsSound user next_due s (Reach-IsSound s reach)
      (flights_of_exists user s.workers there)
Reach-IsSound _ (again clock now s reach) = round-IsSound clock now s (Reach-IsSound s reach)

-- However users are woken and workers end, there are never more goroutines of workers than the limit, which is
-- between 2 and 8, and never two for one user.
pub running_bound :
    (s : Loop)
    → Reach s
    → (length s.workers ≤ s.worker_limit)
      × (2 ≤ s.worker_limit)
      × (s.worker_limit ≤ 8)
      × ((user : String) → count_where (λ u. u == user) s.workers ≤ 1)
running_bound s reach =
    let p = Reach-IsSound s reach in
    (omega (arith, p.bound, p.same), p.limits.0, p.limits.1, λ user. ground (arith, p.once user))
