-- ===== src/Scheduler/Loop/Kept.antt =====
-- internal/scheduler/manager.go: the wake queue under the steps of the loop.
use marvo.Base.{
  ℕ, zero, suc, ◌+◌, ◌≡◌, String, Bool, true, false, Option, none, some, [], ◌∷◌, string_eq, Map,
  lookup, insert, inl, inr, Option-cases,
}
use marvo.Base.Partial.{Ends, ends, Ends-bind, Ends-if}
use marvo.Scheduling.{Instant}
use marvo.Scheduler.WakeQueue.{WakeItem, WakeQueue, peek}
use marvo.Scheduler.WakeQueue.Valid.{IsValid, time_of, IsHastened}
use marvo.Scheduler.WakeQueue.Hasten.{earliest, set_earlier-IsHastened}
use marvo.Scheduler.WakeQueue.Popped.{Popped, pop_next-Popped}
use marvo.Scheduler.Loop.{
  Loop, wait_until, drain_user, drain_users, drain, start_claim, is_due, dispatch_loop, dispatch,
  round, Outcome, failed, idle, started, maybe_wait, maybe_now, settle, claim_result, run_done,
}

abbrev pub Valid : Loop → Type 0
Valid s = IsValid s.due

-- What holds of the loop and lasts while the users that `Allowed` names begin to wait.
pub record Keeps {ℓ} (Allowed : String → Map String Bool → Type 0) (P : Loop → Type ℓ)
    : Type ℓ where
  pub valid : (s : Loop) → P s → Valid s
  pub waits :
      (u : String) (t : Instant) (s : Loop) (d : WakeQueue)
      → Allowed u s.claiming
      → P s
      → IsHastened u (earliest (time_of u s.due) t) s.due d
      → P (record s { due = d })
  pub woken :
      (u : String) (s : Loop) → P s → P (record s { claim_wake = insert u true s.claim_wake })
  pub free :
      (u : String) (claiming : Map String Bool) → lookup u claiming ≡ none → Allowed u claiming

-- The user's claim is counted as a run if it has started one.
abbrev pub counted : Outcome → Loop → Loop
counted started s = record s { running = s.running + 1 }
counted idle s = s
counted failed s = s

module _ {ℓ} (Allowed : String → Map String Bool → Type 0) (P : Loop → Type ℓ)
    (k : Keeps Allowed P) where
  pub wait_until-Ends :
      (u : String) (t : Instant) (s : Loop) → Allowed u s.claiming → P s → Ends P (wait_until u t s)
  unfolding wait_until
  wait_until-Ends u t s a p =
      Ends-bind (set_earlier-IsHastened u t s.due (k.valid s p)) λ d h. ends (k.waits u t s d a p h)

  pub drain_user-Ends : (u : String) (now : Instant) (s : Loop) → P s → Ends P (drain_user u now s)
  unfolding drain_user
  drain_user-Ends u now s p = elim (Option-cases (lookup u s.claiming)) [
    | inl e ↦ rw e (wait_until-Ends u now s (k.free u s.claiming e) p)
    | inr (b, e) ↦ rw e (ends (k.woken u s p))
  ]

  pub drain_users-Ends :
      (users : Map String Bool) (clock : String → Instant) (s : Loop)
      → P s
      → Ends P (drain_users users clock s)
  unfolding drain_users
  drain_users-Ends [] clock s p = ends p
  drain_users-Ends ((u, b) ∷ users) clock s p =
      Ends-bind (drain_users-Ends users clock s p) λ r q. drain_user-Ends u (clock u) r q

  -- The claiming of the loop stays as it is while a user begins to wait.
  wait_until-Allowed :
      (u v : String) (t : Instant) (s : Loop)
      → Allowed u s.claiming
      → Allowed v s.claiming
      → P s
      → Ends (λ (r : Loop). P r × Allowed v r.claiming) (wait_until u t s)
  unfolding wait_until
  wait_until-Allowed u v t s a b p =
      Ends-bind (set_earlier-IsHastened u t s.due (k.valid s p))
        λ d h. ends (k.waits u t s d a p h, b)

  maybe_now-Ends :
      (woken : Bool) (u : String) (now : Instant) (s : Loop)
      → Allowed u s.claiming
      → P s
      → Ends P (maybe_now woken u now s)
  unfolding maybe_now
  maybe_now-Ends true u now s a p = wait_until-Ends u now s a p
  maybe_now-Ends false u now s a p = ends p

  pub settle-Ends :
      (outcome : Outcome) (u : String) (woken : Bool) (next : Option Instant) (now : Instant)
      (s : Loop)
      → Allowed u s.claiming
      → P (counted outcome s)
      → Ends P (settle outcome u woken next now s)
  unfolding settle maybe_wait
  settle-Ends failed u woken next now s a p = wait_until-Ends u _ s a p
  settle-Ends idle u woken none now s a p = maybe_now-Ends woken u now s a p
  settle-Ends idle u woken (some t) now s a p =
      Ends-bind (wait_until-Allowed u u t s a a p) λ r q. maybe_now-Ends woken u now r q.1 q.0
  settle-Ends started u woken next now s a p =
      Ends-bind (wait_until-Allowed u u _ (counted started s) a a p)
        λ r q. maybe_now-Ends woken u now r q.1 q.0

abbrev pub Any : String → Map String Bool → Type 0
Any u claiming = Unit {0}

pub Valid-Keeps : Keeps Any Valid
Valid-Keeps = record {
  valid = λ s v. v;
  waits = λ u t s d a v h. h.valid;
  woken = λ u s v. v;
  free = λ u claiming e. tt;
}

-- A claim begins only with what PopNext returns.
start_claim-Valid :
    (x : Option WakeItem) (d : WakeQueue) (s : Loop)
    → Valid s
    → Popped s.due (x, d)
    → Valid (start_claim x d s)
unfolding start_claim
start_claim-Valid none d s v p = rw p.2 v
start_claim-Valid (some x) d s v p = p.1.valid

-- What lasts while claims begin.
pub dispatch_loop-Ends {ℓ} :
    (P : Loop → Type ℓ)
    → ((s : Loop) → P s → Valid s)
    → ((x : Option WakeItem) (d : WakeQueue) (s : Loop)
        → P s
        → Popped s.due (x, d)
        → P (start_claim x d s))
    → (capacity : ℕ) (now : Instant) (s : Loop) → P s
    → Ends P (dispatch_loop capacity now s)
unfolding dispatch_loop
dispatch_loop-Ends P valid start zero now s p = ends p
dispatch_loop-Ends P valid start (suc capacity) now s p =
    Ends-if (is_due (peek s.due) now)
      (λ due. Ends-bind (pop_next-Popped s.due (valid s p)) λ (x, d) h.
        dispatch_loop-Ends P valid start capacity now (start_claim x d s) (start x d s p h))
      (λ early. ends p)

pub drain-Ends {ℓ} :
    (Allowed : String → Map String Bool → Type 0) (P : Loop → Type ℓ)
    → Keeps Allowed P
    → ((s : Loop) → P s → P (record s { pending = [] }))
    → (clock : String → Instant) (s : Loop) → P s
    → Ends P (drain clock s)
unfolding drain
drain-Ends Allowed P k clear clock s p =
    Ends-bind (drain_users-Ends Allowed P k s.pending clock s p) λ r q. ends (clear r q)

-- From a loop with a valid wake queue a round of the loop, a claim that comes back and a run that ends are
-- handled without a panic, and the wake queue stays valid, whatever the claim came to, whichever users are
-- woken and whatever the clock shows.
pub steps-Valid :
    (s : Loop) (clock : String → Instant) (now : Instant) (outcome : Outcome) (user : String)
    (next : Option Instant)
    → Valid s
    → Ends Valid (round clock now s)
      × Ends Valid (claim_result outcome user next now s)
      × Ends Valid (run_done user next now s)
unfolding round dispatch claim_result run_done
steps-Valid s clock now outcome user next v = (
  Ends-bind (drain-Ends Any Valid Valid-Keeps (λ r q. q) clock s v)
      λ r q. dispatch_loop-Ends Valid (λ x v. v) start_claim-Valid _ now r q,
  settle-Ends Any Valid Valid-Keeps outcome user _ next now _ tt (counted-Valid outcome _ v),
  wait_until-Ends Any Valid Valid-Keeps user _ _ tt v,
)
  where
    counted-Valid : (o : Outcome) (r : Loop) → Valid r → Valid (counted o r)
    counted-Valid failed r h = h
    counted-Valid idle r h = h
    counted-Valid started r h = h
