-- ===== src/Scheduling/Calendar.antt =====
-- internal/scheduling/schedule.go: the first run, the next run, and the delay that an agent proposes.
use mathlib.Core.Option
use marvo.Base.{
  ◌+◌, ◌-◌, Bool, true, false, ◌&&◌, Option, none, some, if◌then◌else◌, ◌==◌, string_eq, nat_eq, ℤ,
  pos, is_zero,
}
use marvo.Scheduling.{
  Instant, Duration, millisecond, zero_time, truncate, Kind, at, every, cron, adaptive, other,
  Definition, CronLibrary, seconds_duration, next_interval, clamp, normalize,
}

-- `now` of `normalizeExisting`: a point before the stored time of a one-shot.
unfoldable pub before_stored : Kind → Option Instant → Instant → Instant
before_stored at (some t) clock = t - millisecond
before_stored _ _ clock = clock

unfoldable pub normalize_existing : CronLibrary → Definition → Instant → Option Definition
unfolding before_stored
normalize_existing lib d clock = normalize lib d (before_stored d.kind d.spec.at_time clock)

unfoldable pub next_cron : CronLibrary → Definition → Instant → Option Instant
next_cron lib d after =
    if lib.load_location d.timezone && lib.parse d.spec.expression
    then (let next = truncate (lib.next d.spec.expression d.timezone after) in
        if next == zero_time then none else some next)
    else none

-- A nil pointer is not dereferenced: `Normalize` has set the time and the anchor.
abbrev pub or_zero : Option Instant → Instant
or_zero none = zero_time
or_zero (some t) = t

unfoldable pub first_kind : CronLibrary → Kind → Definition → Instant → Option Instant
first_kind lib at d now = some (or_zero d.spec.at_time)
first_kind lib every d now =
    some (next_interval (or_zero d.spec.anchor) (seconds_duration d.spec.every_seconds) now)
first_kind lib cron d now = next_cron lib d now
first_kind lib adaptive d now = some (truncate (now + seconds_duration d.spec.default_seconds))
first_kind lib (other k) d now = none

unfoldable pub first_normal : CronLibrary → Option Definition → Instant → Option Instant
first_normal lib none now = none
first_normal lib (some d) now = first_kind lib d.kind d now

unfoldable pub first : CronLibrary → Definition → Instant → Option Instant
unfolding first_normal first_kind
first lib d now = first_normal lib (normalize lib d now) now

-- The delay of an adaptive schedule before it is clamped.
abbrev pub delay_or_default : Definition → ℤ → ℤ
delay_or_default d proposal =
    if is_zero proposal then pos (seconds_duration d.spec.default_seconds) else proposal

unfoldable pub adaptive_delay : Definition → ℤ → Duration
adaptive_delay d proposal =
    clamp (seconds_duration d.spec.minimum_seconds) (seconds_duration d.spec.maximum_seconds)
      (delay_or_default d proposal)

-- The outer option is the error, the inner one the pointer that is nil for a schedule that is over.
unfoldable pub next_kind : CronLibrary → Kind → Definition → Instant → ℤ → Option (Option Instant)
next_kind lib at d completed proposal = some none
next_kind lib every d completed proposal =
    some (
      some
        (next_interval (or_zero d.spec.anchor) (seconds_duration d.spec.every_seconds) completed))
next_kind lib cron d completed proposal = Option.map some (next_cron lib d completed)
next_kind lib adaptive d completed proposal =
    some (some (truncate (completed + adaptive_delay d proposal)))
next_kind lib (other k) d completed proposal = none

unfoldable pub next_normal : CronLibrary → Option Definition → Instant → ℤ → Option (Option Instant)
next_normal lib none completed proposal = none
next_normal lib (some d) completed proposal = next_kind lib d.kind d completed proposal

-- `clock` is the value of `time.Now()` inside `normalizeExisting`.
unfoldable pub next : CronLibrary → Definition → Instant → Instant → ℤ → Option (Option Instant)
unfolding next_normal next_kind adaptive_delay
next lib d clock completed proposal =
    next_normal lib (normalize_existing lib d clock) completed proposal

abbrev pub is_adaptive : Kind → Bool
is_adaptive adaptive = true
is_adaptive _ = false

unfoldable pub clamp_normal : Option Definition → ℤ → Option Duration
clamp_normal none delay = none
clamp_normal (some d) delay =
    if is_adaptive d.kind
    then some (
        clamp (seconds_duration d.spec.minimum_seconds) (seconds_duration d.spec.maximum_seconds)
          delay)
    else none

unfoldable pub clamp_adaptive : CronLibrary → Definition → Instant → ℤ → Option Duration
unfolding clamp_normal
clamp_adaptive lib d clock delay = clamp_normal (normalize_existing lib d clock) delay
