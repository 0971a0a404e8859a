-- ===== src/Deliveries/Attempts.antt =====
-- internal/delivery/dispatcher.go: what becomes of one attempt, and when it is made again.
pub mod Backoff
use marvo.Base.{
  ℕ, zero, suc, ◌+◌, String, Bool, true, false, ◌||◌, Option, none, some, List, [], ◌∷◌, ltb,
  if◌then◌else◌, length, max,
}
use marvo.Scheduling.{Instant, Duration, second}
use marvo.Sql.{Result}
use marvo.Deliveries.{Error, Delivery, Db, mark_sent, mark_failed}

-- `retryDelays`
abbrev pub retry_delays : List Duration
retry_delays = 30000000000 ∷ 120000000000 ∷ 600000000000 ∷ 3600000000000 ∷ []

-- What a provider answers: internal/connectors says of an error whether it is permanent and how long to
-- wait. The text is the error with its secrets taken out.
pub data Outcome : Type 0 where
  accepted : Outcome
  rejected : Bool → Duration → String → Outcome

abbrev pub is_final : Bool → ℕ → Bool
is_final permanent attempt = permanent || ltb (length retry_delays) attempt

-- An index out of range is a panic, which is `none`.
abbrev pub get_elem? : List Duration → ℕ → Option Duration
get_elem? [] i = none
get_elem? (x ∷ xs) zero = some x
get_elem? (x ∷ xs) (suc i) = get_elem? xs i

abbrev at_least : Duration → Option Duration → Option Duration
at_least retry_after none = none
at_least retry_after (some delay) = some (if ltb delay retry_after then retry_after else delay)

-- `retryDelays[attempt-1]`, or what the provider asks for if that is longer.
abbrev pub delay_of : ℕ → Duration → Option Duration
delay_of zero retry_after = none
delay_of (suc n) retry_after = at_least retry_after (get_elem? retry_delays n)

abbrev pub backoff : Bool → ℕ → Duration → Option Duration
backoff final attempt retry_after = if final then some 0 else delay_of attempt retry_after

fail_after :
    Delivery
    → Bool
    → String
    → Instant
    → Option Duration
    → Db
    → Option (Result Error (Unit {0}) × Db)
fail_after d final message t none db = none
fail_after d final message t (some delay) db =
    some (mark_failed d.id t (t + delay) final message db)

-- One turn of the loop of `processUser` behind the claim; `t` is the time when the provider has answered.
unfoldable pub settle : Delivery → Outcome → Instant → Db → Option (Result Error (Unit {0}) × Db)
unfolding fail_after
settle d accepted t db = some (mark_sent d.id t db)
settle d (rejected permanent retry_after message) t db =
    let final = is_final permanent d.attempt_count in
    fail_after d final message t (backoff final d.attempt_count retry_after) db
