-- ===== src/Scheduler/Loop/Limit.antt =====
-- How many runs and claims the manager has at a time.
use marvo.Base.{
  ℕ, ◌+◌, ◌≡◌, ◌≤◌, ◌<◌, arith, String, true, Option, none, some, ◌==◌, string_eq, text_iff,
  ==-refl, is_some, lookup, erase, lookup-erase, erase-IsUnique, length, exists,
}
use marvo.Base.Partial.{Ends, Ends-some}
use marvo.Scheduling.{Instant}
use marvo.Sql.Rows.{count_where}
use marvo.Scheduler.Loop.{
  Loop, new_manager, wake, close, round, Outcome, failed, idle, started, claim_result, run_done,
}
use marvo.Flights.{landed, flights, length-erase, length-landed, flights-landed, flights_of_exists}
use marvo.Scheduler.Loop.Kept.{counted, wait_until-Ends, settle-Ends}
use marvo.Scheduler.Loop.Sound.{
  IsSound, Free, IsSound-Keeps, new_manager-IsSound, wake-IsSound, round-IsSound,
}

-- The histories of the loop, where `May user s` is asked of a user whose run ends at `s`.
pub data Reach (May : String → Loop → Type 0) : Loop → Type 0 where
  begin : (processors : ℕ) → Reach May (new_manager processors)
  woken : (user : String) → (s : Loop) → Reach May s → Reach May (wake user s)
  closing : (s : Loop) → Reach May s → Reach May (close s)
  head :
      (clock : String → Instant)
      → (now : Instant) → (s r : Loop) → Reach May s
      → round clock now s ≡ some r
      → Reach May r
  back :
      (outcome : Outcome)
      → (user : String) → (next : Option Instant) → (now : Instant) → (s r : Loop) → Reach May s
      → exists (λ u. u == user) s.claims ≡ true
      → claim_result outcome user next now s ≡ some r
      → Reach May r
  done :
      (user : String)
      → (next : Option Instant) → (now : Instant) → (s r : Loop) → Reach May s
      → 0 < s.running
      → May user s
      → run_done user next now s ≡ some r
      → Reach May r

-- No claim for the user is in flight.
abbrev pub Unclaimed : String → Loop → Type 0
Unclaimed user s = lookup user s.claiming ≡ none

-- A claim of the user comes back, and perhaps a run takes its place.
module _ (u : String) (s : Loop) (p : IsSound s) (flying : 0 < flights u s.claims) where
  claimed : is_some (lookup u s.claiming) ≡ true
  claimed = ground (arith, p.once u)

  landed_state : ℕ → Loop
  landed_state running = record s {
    claiming = erase u s.claiming;
    claim_wake = erase u s.claim_wake;
    claims = landed u s.claims;
    running = running;
  }

  landed-IsSound : (running : ℕ) → running ≤ s.running + 1 → IsSound (landed_state running)
  unfolding landed_state
  landed-IsSound running few =
      let fewer = length-erase u s.claiming p.unique claimed in
      record {
        valid = p.valid;
        unique = erase-IsUnique u s.claiming p.unique;
        apart = λ v e. ground (arith, p.apart v, lookup-erase u v s.claiming, text_iff u v);
        same = omega (arith, fewer, length-landed u s.claims flying, p.same);
        once = λ v. ground (
          arith,
          p.once v,
          p.once u,
          claimed,
          flights-landed u v s.claims,
          lookup-erase u v s.claiming,
          text_iff u v,
        );
        bound = omega (arith, fewer, p.bound, few);
        limits = p.limits;
      }

  claim_result-IsSound :
      (outcome : Outcome) (next : Option Instant) (now : Instant)
      → Ends IsSound (claim_result outcome u next now s)
  unfolding claim_result landed_state
  claim_result-IsSound outcome next now =
      settle-Ends Free IsSound IsSound-Keeps outcome u _ next now _ gone (counted-IsSound outcome)
    where
      gone : lookup u (erase u s.claiming) ≡ none
      gone = ground (arith, lookup-erase u u s.claiming, ==-refl u)

      counted-IsSound : (o : Outcome) → IsSound (counted o (landed_state s.running))
      counted-IsSound started = landed-IsSound (s.running + 1) (omega arith)
      counted-IsSound idle = landed-IsSound s.running (omega arith)
      counted-IsSound failed = landed-IsSound s.running (omega arith)

run_done-IsSound :
    (u : String) (next : Option Instant) (now : Instant) (s : Loop)
    → IsSound s
    → Unclaimed u s
    → Ends IsSound (run_done u next now s)
unfolding run_done
run_done-IsSound u next now s p free =
    wait_until-Ends Free IsSound IsSound-Keeps u _ _ free (record {
      valid = p.valid;
      unique = p.unique;
      apart = p.apart;
      same = p.same;
      once = p.once;
      bound = omega (arith, p.bound);
      limits = p.limits;
    })

pub Reach-IsSound : (s : Loop) → Reach Unclaimed s → IsSound s
unfolding close
Reach-IsSound _ (begin processors) = new_manager-IsSound processors
Reach-IsSound _ (woken user s reach) = wake-IsSound user s (Reach-IsSound s reach)
Reach-IsSound _ (closing s reach) =
    let p = Reach-IsSound s reach in
    record {
      valid = p.valid;
      unique = p.unique;
      apart = p.apart;
      same = p.same;
      once = p.once;
      bound = p.bound;
      limits = p.limits;
    }
Reach-IsSound _ (head clock now s r reach e) =
    Ends-some (round-IsSound clock now s (Reach-IsSound s reach)) e
Reach-IsSound _ (back outcome user next now s r reach there e) =
    Ends-some
      (claim_result-IsSound user s (Reach-IsSound s reach) (flights_of_exists user s.claims there)
        outcome next now)
      e
Reach-IsSound _ (done user next now s r reach busy free e) =
    Ends-some (run_done-IsSound user next now s (Reach-IsSound s reach) free) e

-- As long as no run ends while a claim of the same user is in flight, the runs and the claims in flight are
-- together no more than the limit of workers, which lies between 2 and 8, and no user has two claims in flight.
pub workers_bound :
    (s : Loop)
    → Reach Unclaimed s
    → (s.running + length s.claims ≤ s.worker_limit)
      × (2 ≤ s.worker_limit)
      × (s.worker_limit ≤ 8)
      × ((user : String) → count_where (λ u. u == user) s.claims ≤ 1)
workers_bound s reach =
    let p = Reach-IsSound s reach in
    (omega (arith, p.bound, p.same), p.limits.0, p.limits.1, λ user. ground (arith, p.once user))
