-- ===== src/Scheduling/Occurrence.antt =====
-- When a schedule runs: the first time, and after a run.
use marvo.Base.{
  subst, ◌≡◌, ◌≤◌, ◌<◌, ◌+◌, ◌↔◌, refl, sym, arith, if◌then◌else◌, ℤ, pos, Option, none, some,
  Option-cases, inl, inr, nat_eq,
}
use marvo.Scheduling.{
  Instant, Duration, truncate, Kind, at, every, cron, adaptive, other, Definition, CronLibrary,
  IsDocumented, seconds_duration, normalize, clamp,
}
use marvo.Scheduling.Calendar.{
  normalize_existing, before_stored, next_cron, or_zero, first, first_kind, next, next_kind,
  adaptive_delay, clamp_adaptive, is_adaptive, delay_or_default,
}
use marvo.Scheduling.Interval.{next_interval-after, clamp_bounds}
use marvo.Scheduling.Normal.{IsNormal, IsNormalKind, IsAhead, normalize-IsAhead, normalize-IsNormal}
use marvo.Scheduling.Stored.{normalize_of_normal}

-- A cron activation is later than the time that it is asked for.
next_cron-after :
    (lib : CronLibrary) (d : Definition) (after t : Instant)
    → IsDocumented lib
    → next_cron lib d after ≡ some t
    → after < t
unfolding next_cron
next_cron-after lib d after t doc h = ground (arith, doc.later d.spec.expression d.timezone after)

next_kind-after :
    (lib : CronLibrary) (k : Kind) (d : Definition) (completed t : Instant) (proposal : ℤ)
    → IsDocumented lib
    → IsNormalKind lib k d
    → next_kind lib k d completed proposal ≡ some (some t)
    → completed < t
unfolding next_kind adaptive_delay
next_kind-after lib at d completed t proposal doc n h = cc
next_kind-after lib every d completed t proposal doc n h = ground (
  arith,
  next_interval-after (or_zero d.spec.anchor) completed (seconds_duration d.spec.every_seconds),
)
next_kind-after lib cron d completed t proposal doc n h =
    ground (arith, next_cron-after lib d completed t doc)
next_kind-after lib adaptive d completed t proposal doc n h = ground (
  arith,
  clamp_bounds (seconds_duration d.spec.minimum_seconds) (seconds_duration d.spec.maximum_seconds)
      (delay_or_default d proposal),
)
next_kind-after lib (other k) d completed t proposal doc n h = cc

IsAhead-lt : (o : Option Instant) (now t : Instant) → o ≡ some t → IsAhead at o now → now < t
IsAhead-lt none now t e a = cc
IsAhead-lt (some x) now t e a = ground arith

first_kind-after :
    (lib : CronLibrary) (k : Kind) (d : Definition) (now t : Instant)
    → IsDocumented lib
    → IsNormalKind lib k d
    → IsAhead k d.spec.at_time now
    → first_kind lib k d now ≡ some t
    → now < t
unfolding first_kind
first_kind-after lib at d now t doc n a h = IsAhead-lt d.spec.at_time now t (ground arith) a
first_kind-after lib every d now t doc n a h =
    ground (
      arith,
      next_interval-after (or_zero d.spec.anchor) now (seconds_duration d.spec.every_seconds),
    )
first_kind-after lib cron d now t doc n a h = next_cron-after lib d now t doc h
first_kind-after lib adaptive d now t doc n a h = ground arith
first_kind-after lib (other k) d now t doc n a h = cc

-- The first run of a schedule lies strictly in the future, for each kind of schedule.
pub first-after-now :
    (lib : CronLibrary) (d : Definition) (now t : Instant)
    → IsDocumented lib
    → first lib d now ≡ some t
    → now < t
unfolding first
first-after-now lib d now t doc h = elim (Option-cases (normalize lib d now)) [
  | inl e ↦ cc (rw e at h)
  | inr (d', e) ↦
      first_kind-after lib d'.kind d' now t doc (normalize-IsNormal lib d d' now e).0
        (normalize-IsAhead lib d d' now e) (rw e at h)
]

-- After a run that ended at `completed`, the next one, if there is one, lies strictly later: a
-- recurring schedule cannot fire twice for one instant, whatever was missed before.
pub next-after-completed :
    (lib : CronLibrary) (d : Definition) (clock completed t : Instant) (proposal : ℤ)
    → IsDocumented lib
    → next lib d clock completed proposal ≡ some (some t)
    → completed < t
unfolding next
next-after-completed lib d clock completed t proposal doc h =
    elim (Option-cases (normalize_existing lib d clock)) [
      | inl e ↦ cc (rw e at h)
      | inr (d', e) ↦
          next_kind-after lib d'.kind d' completed t proposal doc
            (normalize-IsNormal lib d d' (before_stored d.kind d.spec.at_time clock)
              (unfold normalize_existing in e)).0
            (rw e at h)
    ]

before_stored-IsAhead :
    (k : Kind) (o : Option Instant) (clock : Instant)
    → IsAhead k o 0
    → IsAhead k o (before_stored k o clock)
unfolding before_stored
before_stored-IsAhead at none clock a = tt
before_stored-IsAhead at (some t) clock a = omega arith
before_stored-IsAhead every o clock a = tt
before_stored-IsAhead cron o clock a = tt
before_stored-IsAhead adaptive o clock a = tt
before_stored-IsAhead (other k) o clock a = tt

-- A stored definition is read as it is, whatever the clock says.
pub normalize_existing_of_normal :
    (lib : CronLibrary) (d : Definition) (clock : Instant)
    → IsNormal lib d
    → IsAhead d.kind d.spec.at_time 0
    → normalize_existing lib d clock ≡ some d
unfolding normalize_existing
normalize_existing_of_normal lib d clock n a =
    normalize_of_normal lib d (before_stored d.kind d.spec.at_time clock) n
      (before_stored-IsAhead d.kind d.spec.at_time clock a)

next_kind_over :
    (lib : CronLibrary) (k : Kind) (d : Definition) (completed : Instant) (proposal : ℤ)
    → (next_kind lib k d completed proposal ≡ some none) ↔ (k ≡ at)
unfolding next_kind next_cron
next_kind_over lib at d completed proposal = ((λ h. refl), λ h. refl)
next_kind_over lib every d completed proposal = ((λ h. cc), λ h. cc)
next_kind_over lib cron d completed proposal = ((λ h. ground arith), λ h. cc)
next_kind_over lib adaptive d completed proposal = ((λ h. cc), λ h. cc)
next_kind_over lib (other k) d completed proposal = ((λ h. cc), λ h. cc)

-- A stored schedule is over after a run exactly if it is a one-shot.
pub next_over_iff :
    (lib : CronLibrary) (d : Definition) (clock completed : Instant) (proposal : ℤ)
    → IsNormal lib d
    → IsAhead d.kind d.spec.at_time 0
    → (next lib d clock completed proposal ≡ some none) ↔ (d.kind ≡ at)
unfolding next
next_over_iff lib d clock completed proposal n a =
    rw (normalize_existing_of_normal lib d clock n a)
      (next_kind_over lib d.kind d completed proposal)

-- The next run of a stored adaptive schedule is a delay after the last one, cut to the millisecond,
-- and the delay lies within the bounds of the schedule, whatever was proposed.
pub next_adaptive :
    (lib : CronLibrary) (d : Definition) (clock completed : Instant) (proposal : ℤ)
    → IsNormal lib d
    → d.kind ≡ adaptive
    → (delay : Duration) × (next lib d clock completed proposal
        ≡ some (some (truncate (completed + delay))))
      × (seconds_duration d.spec.minimum_seconds ≤ delay)
      × (delay ≤ seconds_duration d.spec.maximum_seconds)
unfolding next clamp
next_adaptive lib d clock completed proposal n e =
    let m = subst (λ k. IsNormalKind lib k d) e n.0 in
    let a = subst (λ k. IsAhead k d.spec.at_time 0) (sym e) tt in
    let stored = normalize_existing_of_normal lib d clock n a in
    (adaptive_delay d proposal, ground (arith, stored, e), ground (arith, m), ground (arith, m))

-- A proposed delay within the bounds of a stored adaptive schedule is what it waits; without a
-- proposal it waits its default.
pub next_adaptive_kept :
    (lib : CronLibrary) (d : Definition) (clock completed : Instant) (p : Duration)
    → IsNormal lib d
    → d.kind ≡ adaptive
    → 0 < p
    → seconds_duration d.spec.minimum_seconds ≤ p
    → p ≤ seconds_duration d.spec.maximum_seconds
    → (next lib d clock completed (pos p) ≡ some (some (truncate (completed + p))))
      × (next lib d clock completed (pos 0)
          ≡ some (some (truncate (completed + seconds_duration d.spec.default_seconds))))
unfolding next clamp
next_adaptive_kept lib d clock completed p n e some_p low high =
    let m = subst (λ k. IsNormalKind lib k d) e n.0 in
    let a = subst (λ k. IsAhead k d.spec.at_time 0) (sym e) tt in
    let stored = normalize_existing_of_normal lib d clock n a in
    let proposed : adaptive_delay d (pos p) ≡ p = ground (arith, m) in
    let default : adaptive_delay d (pos 0) ≡ seconds_duration d.spec.default_seconds =
      ground (arith, m) in
    (ground (arith, stored, e, proposed), ground (arith, stored, e, default))

-- A delay that an agent proposes is clamped to the bounds of a stored adaptive schedule; for a
-- schedule of another kind it is refused.
pub clamp_adaptive_lem :
    (lib : CronLibrary) (d : Definition) (clock : Instant) (delay : ℤ)
    → IsNormal lib d
    → IsAhead d.kind d.spec.at_time 0
    → clamp_adaptive lib d clock delay ≡ (
        if is_adaptive d.kind
        then some (
            clamp
              (seconds_duration d.spec.minimum_seconds)
              (seconds_duration d.spec.maximum_seconds)
              delay)
        else none)
unfolding clamp_adaptive
clamp_adaptive_lem lib d clock delay n a = rw (normalize_existing_of_normal lib d clock n a)
