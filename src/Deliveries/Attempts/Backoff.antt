-- ===== src/Deliveries/Attempts/Backoff.antt =====
-- The waiting time before the next attempt.
use marvo.Base.{
  ℕ, zero, suc, ◌≡◌, ◌≤◌, refl, arith, String, Bool, true, false, Option, none, some, ltb,
  if◌then◌else◌, is_some, Bool-cases, inl, inr,
}
use marvo.Scheduling.{Instant, Duration}
use marvo.Deliveries.{Delivery, Db}
use marvo.Deliveries.Attempts.{
  Outcome, accepted, rejected, is_final, backoff, delay_of, at_least, settle, fail_after,
}

-- A waiting time within the bounds.
abbrev Waiting : Option Duration → Duration → Type 0
Waiting o retry_after =
    (delay : Duration) × (o ≡ some delay) × (30000000000 ≤ delay) × (retry_after ≤ delay)

longer :
    (base retry_after : Duration)
    → 30000000000 ≤ base
    → Waiting (at_least retry_after (some base)) retry_after
longer base retry_after h =
    (if ltb base retry_after then retry_after else base, refl, ground arith, ground arith)

delay_of-Waiting :
    (attempt : ℕ) (retry_after : Duration)
    → 1 ≤ attempt
    → attempt ≤ 4
    → Waiting (delay_of attempt retry_after) retry_after
delay_of-Waiting zero retry_after low high = absurd (omega arith)
delay_of-Waiting (suc zero) retry_after low high = longer 30000000000 retry_after (omega arith)
delay_of-Waiting (suc (suc zero)) retry_after low high =
    longer 120000000000 retry_after (omega arith)
delay_of-Waiting (suc (suc (suc zero))) retry_after low high =
    longer 600000000000 retry_after (omega arith)
delay_of-Waiting (suc (suc (suc (suc zero)))) retry_after low high =
    longer 3600000000000 retry_after (omega arith)
delay_of-Waiting (suc (suc (suc (suc (suc n))))) retry_after low high = absurd (omega arith)

-- The waiting time after a failed attempt that is not the last one exists, is at least half a minute, and is
-- at least what the provider asks for.
pub backoff_bounds :
    (permanent : Bool) (attempt : ℕ) (retry_after : Duration)
    → 1 ≤ attempt
    → is_final permanent attempt ≡ false
    → (delay : Duration) × (backoff (is_final permanent attempt) attempt retry_after ≡ some delay)
      × (30000000000 ≤ delay)
      × (retry_after ≤ delay)
backoff_bounds permanent attempt retry_after low again =
    let (delay, e, long, asked) = delay_of-Waiting attempt retry_after low (ground arith) in
    (delay, ground (arith, e, again), long, asked)

fail_after-total :
    (d : Delivery) (final : Bool) (message : String) (t : Instant) (o : Option Duration)
    (delay : Duration) (db : Db)
    → o ≡ some delay
    → is_some (fail_after d final message t o db) ≡ true
unfolding fail_after
fail_after-total d final message t none delay db e = cc
fail_after-total d final message t (some x) delay db e = refl

-- The index into the table of delays is in range whenever a claimed delivery fails: the dispatcher does
-- not panic, whatever the provider answers.
pub settle_total :
    (d : Delivery) (o : Outcome) (t : Instant) (db : Db)
    → 1 ≤ d.attempt_count
    → is_some (settle d o t db) ≡ true
unfolding settle
settle_total d accepted t db low = refl
settle_total d (rejected permanent retry_after message) t db low =
    elim (Bool-cases (is_final permanent d.attempt_count)) [
      | inl e ↦ fail_after-total d _ message t _ 0 db (ground (arith, e))
      | inr e ↦
          let waiting = backoff_bounds permanent d.attempt_count retry_after low e in
          fail_after-total d _ message t _ waiting.0 db waiting.1
    ]
