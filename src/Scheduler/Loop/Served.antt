-- ===== src/Scheduler/Loop/Served.antt =====
-- internal/scheduler/manager.go: what a round of the loop does for a user that was woken.
use marvo.Base.{
  ◌≡◌, arith, String, Bool, true, ◌||◌, Option, none, some, [], ◌∷◌, ◌==◌, string_eq, text_iff,
  ==-refl, is_some, Map, lookup, lookup-insert, Bool-cases, inl, inr, Option-cases,
}
use marvo.Base.Partial.{Ends, ends, Ends-bind}
use marvo.Scheduling.{Instant}
use marvo.Scheduler.WakeQueue.{WakeItem, WakeQueue}
use marvo.Scheduler.WakeQueue.Valid.{time_of, IsHastened}
use marvo.Scheduler.WakeQueue.Hasten.{earliest, set_earlier-IsHastened}
use marvo.Scheduler.WakeQueue.Popped.{Popped}
use marvo.Scheduler.Loop.{
  Loop, wait_until, drain_user, drain_users, drain, start_claim, dispatch, round,
}
use marvo.Scheduler.Loop.Kept.{
  Valid, Keeps, Any, Valid-Keeps, drain_user-Ends, drain_users-Ends, dispatch_loop-Ends,
}

module _ (u : String) where
  -- The user waits, or a claim is made for it.
  pub record IsServed (s : Loop) : Type 0 where
    pub valid : Valid s
    pub served : (is_some (time_of u s.due) || is_some (lookup u s.claiming)) ≡ true

  IsServed-hastened :
      (v : String) (t : Instant) (s : Loop) (d : WakeQueue)
      → IsServed s
      → IsHastened v (earliest (time_of v s.due) t) s.due d
      → IsServed (record s { due = d })
  IsServed-hastened v t s d p h = record {
    valid = h.valid;
    served = ground (arith, p.served, h.times u, text_iff v u);
  }

  IsServed-Keeps : Keeps Any IsServed
  IsServed-Keeps = record {
    valid = λ s p. p.valid;
    waits = λ v t s d a p h. IsServed-hastened v t s d p h;
    woken = λ v s p. record { valid = p.valid; served = p.served };
    free = λ v claiming e. tt;
  }

  start_claim-IsServed :
      (x : Option WakeItem) (d : WakeQueue) (s : Loop)
      → IsServed s
      → Popped s.due (x, d)
      → IsServed (start_claim x d s)
  unfolding start_claim
  start_claim-IsServed none d s p h = record { valid = rw h.2 p.valid; served = rw h.2 p.served }
  start_claim-IsServed (some x) d s p h = record {
    valid = h.1.valid;
    served = ground (
      arith,
      p.served,
      h.1.times u,
      lookup-insert x.user_id u true s.claiming,
      text_iff x.user_id u,
    );
  }

  -- The turn of the user itself.
  drain_user-serves : (now : Instant) (s : Loop) → Valid s → Ends IsServed (drain_user u now s)
  unfolding drain_user wait_until
  drain_user-serves now s v = elim (Option-cases (lookup u s.claiming)) [
    | inl e ↦ rw e (
        Ends-bind (set_earlier-IsHastened u now s.due v)
          λ d h. ends (record { valid = h.valid; served = ground (arith, h.times u, ==-refl u) }))
    | inr (b, e) ↦ rw e (ends (record { valid = v; served = ground (arith, e) }))
  ]

  drain_users-serves :
      (users : Map String Bool) (clock : String → Instant) (s : Loop)
      → Valid s
      → is_some (lookup u users) ≡ true
      → Ends IsServed (drain_users users clock s)
  unfolding drain_users lookup
  drain_users-serves [] clock s v h = cc
  drain_users-serves ((w, b) ∷ users) clock s v h = elim (Bool-cases (w == u)) [
    | inl e ↦
        let same : w ≡ u = (text_iff w u).0 e in
        Ends-bind (drain_users-Ends Any Valid Valid-Keeps users clock s v)
          λ r q. rw same (drain_user-serves (clock u) r q)
    | inr e ↦
        Ends-bind (drain_users-serves users clock s v (rw e at h))
          λ r q. drain_user-Ends Any IsServed IsServed-Keeps w (clock w) r q
  ]

  -- A user that was woken or waits is served by a round of the loop.
  pub round-serves :
      (clock : String → Instant) (now : Instant) (s : Loop)
      → Valid s
      → (is_some (lookup u s.pending) || is_some (time_of u s.due) || is_some (lookup u s.claiming))
        ≡ true
      → Ends IsServed (round clock now s)
  unfolding round drain dispatch
  round-serves clock now s v h =
      Ends-bind (Ends-bind drained λ r q. ends (record { valid = q.valid; served = q.served }))
        λ r q. dispatch_loop-Ends IsServed (λ x p. p.valid) start_claim-IsServed _ now r q
    where
      drained : Ends IsServed (drain_users s.pending clock s)
      drained = elim (Bool-cases (is_some (lookup u s.pending))) [
        | inl e ↦ drain_users-serves s.pending clock s v e
        | inr e ↦
            drain_users-Ends Any IsServed IsServed-Keeps s.pending clock s
              (record { valid = v; served = ground arith })
      ]

  -- The user was woken during its claim, and the loop remembers it.
  pub record IsRemembered (s : Loop) : Type 0 where
    pub valid : Valid s
    pub claimed : is_some (lookup u s.claiming) ≡ true
    pub remembered : is_some (lookup u s.claim_wake) ≡ true

  IsRemembered-Keeps : Keeps Any IsRemembered
  IsRemembered-Keeps = record {
    valid = λ s p. p.valid;
    waits =
        λ v t s d a p h. record { valid = h.valid; claimed = p.claimed; remembered = p.remembered };
    woken = λ v s p. record {
      valid = p.valid;
      claimed = p.claimed;
      remembered = ground (arith, p.remembered, lookup-insert v u true s.claim_wake);
    };
    free = λ v claiming e. tt;
  }

  abbrev pub IsClaimed : Loop → Type 0
  IsClaimed s = Valid s × (is_some (lookup u s.claiming) ≡ true)

  IsClaimed-Keeps : Keeps Any IsClaimed
  IsClaimed-Keeps = record {
    valid = λ s p. p.0;
    waits = λ v t s d a p h. (h.valid, p.1);
    woken = λ v s p. p;
    free = λ v claiming e. tt;
  }

  drain_user-remembers :
      (now : Instant) (s : Loop) → IsClaimed s → Ends IsRemembered (drain_user u now s)
  unfolding drain_user
  drain_user-remembers now s (v, claimed) = rw claimed (
      ends (record {
        valid = v;
        claimed = claimed;
        remembered = ground (arith, lookup-insert u u true s.claim_wake, ==-refl u);
      }))

  drain_users-remembers :
      (users : Map String Bool) (clock : String → Instant) (s : Loop)
      → IsClaimed s
      → is_some (lookup u users) ≡ true
      → Ends IsRemembered (drain_users users clock s)
  unfolding drain_users lookup
  drain_users-remembers [] clock s v h = cc
  drain_users-remembers ((w, b) ∷ users) clock s v h = elim (Bool-cases (w == u)) [
    | inl e ↦
        let same : w ≡ u = (text_iff w u).0 e in
        Ends-bind (drain_users-Ends Any IsClaimed IsClaimed-Keeps users clock s v)
          λ r q. rw same (drain_user-remembers (clock u) r q)
    | inr e ↦
        Ends-bind (drain_users-remembers users clock s v (rw e at h))
          λ r q. drain_user-Ends Any IsRemembered IsRemembered-Keeps w (clock w) r q
  ]

  start_claim-IsRemembered :
      (x : Option WakeItem) (d : WakeQueue) (s : Loop)
      → IsRemembered s
      → Popped s.due (x, d)
      → IsRemembered (start_claim x d s)
  unfolding start_claim
  start_claim-IsRemembered none d s p h = record {
    valid = rw h.2 p.valid;
    claimed = p.claimed;
    remembered = p.remembered;
  }
  start_claim-IsRemembered (some x) d s p h = record {
    valid = h.1.valid;
    claimed = ground (arith, p.claimed, lookup-insert x.user_id u true s.claiming);
    remembered = p.remembered;
  }

  pub round-remembers :
      (clock : String → Instant) (now : Instant) (s : Loop)
      → IsClaimed s
      → is_some (lookup u s.pending) ≡ true
      → Ends IsRemembered (round clock now s)
  unfolding round drain dispatch
  round-remembers clock now s v h =
      Ends-bind
        (Ends-bind (drain_users-remembers s.pending clock s v h)
          λ r q. ends (record { valid = q.valid; claimed = q.claimed; remembered = q.remembered }))
        λ r q. dispatch_loop-Ends IsRemembered (λ x p. p.valid) start_claim-IsRemembered _ now r q
