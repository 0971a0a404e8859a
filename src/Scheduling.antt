-- ===== src/Scheduling.antt =====
-- internal/scheduling/schedule.go: when a schedule runs next.
-- An instant (time.Time, in UTC) is a number of nanoseconds since an origin that lies a whole number of
-- seconds before the zero Time, 400 years earlier; so every instant that the program reads is a natural number. A duration is a
-- number of nanoseconds. The sums stay far below 2 ^ 63 milliseconds, since a stored interval is at
-- most ten years.
pub mod Calendar
pub mod Interval
pub mod Normal
pub mod Stored
pub mod Occurrence
use Prim.Native.String.{len}
use mathlib.Core.Option
use marvo.Base.{
  ◌≡◌, ◌⊎◌, ◌<◌, ℕ, ◌+◌, ◌-◌, ◌*◌, ◌/◌, ◌%◌, String, Bool, true, false, not, ◌&&◌, ◌||◌, Option,
  none, some, ltb, leb, if◌then◌else◌, ◌==◌, string_eq, nat_eq, ℤ, pos, negsuc, pos_part, is_zero,
  is_some, trim_space,
}

abbrev pub Instant : Type 0
Instant = ℕ

abbrev pub Duration : Type 0
Duration = ℕ

abbrev pub millisecond : Duration
millisecond = 1000000

abbrev pub second : Duration
second = 1000000000

-- `MinimumInterval`, one minute
abbrev pub minimum_interval : Duration
minimum_interval = 60000000000

-- `MaximumInterval`, 3650 days
abbrev pub maximum_interval : Duration
maximum_interval = 315360000000000000

-- `int64(MaximumInterval/time.Second)`
abbrev pub maximum_seconds : ℕ
maximum_seconds = 315360000

-- The zero Time: 146097 days after the origin.
abbrev pub zero_time : Instant
zero_time = 12622780800000000000

-- The first of January 1970: 719162 days after the zero Time.
abbrev pub unix_epoch : Instant
unix_epoch = 74758377600000000000

-- t.Truncate(time.Millisecond)
abbrev pub truncate : Instant → Instant
truncate t = t / millisecond * millisecond

pub data Kind : Type 0 where
  at : Kind
  every : Kind
  cron : Kind
  adaptive : Kind
  other : String → Kind

pub record Spec : Type 0 where
  pub at_time : Option Instant
  pub every_seconds : ℤ
  pub anchor : Option Instant
  pub expression : String
  pub minimum_seconds : ℤ
  pub maximum_seconds : ℤ
  pub default_seconds : ℤ

pub record Definition : Type 0 where
  pub kind : Kind
  pub spec : Spec
  pub timezone : String

-- What the code calls in the Go time zone database and in github.com/robfig/cron/v3: whether a zone
-- is known, whether an expression is accepted, and the next activation of an expression in a zone,
-- the zero Time if there is none.
pub record CronLibrary : Type 0 where
  pub load_location : String → Bool
  pub parse : String → Bool
  pub next : String → String → Instant → Instant

-- What the cron library documents of `Next`: a later instant, on a whole second, or the zero Time.
pub record IsDocumented (lib : CronLibrary) : Type 0 where
  pub later :
      (expression zone : String) (t : Instant)
      → lib.parse expression ≡ true
      → (lib.next expression zone t ≡ zero_time)
        ⊎ ((t < lib.next expression zone t) × (lib.next expression zone t % second ≡ 0))

unfoldable pub seconds_duration : ℤ → Duration
seconds_duration seconds =
    if pos_part seconds == 0 || ltb maximum_seconds (pos_part seconds)
    then 0
    else pos_part seconds * second

unfoldable pub has_every_fields : Spec → Bool
has_every_fields spec = not (is_zero spec.every_seconds) || is_some spec.anchor

unfoldable pub has_adaptive_fields : Spec → Bool
has_adaptive_fields spec =
    not (is_zero spec.minimum_seconds)
    || not (is_zero spec.maximum_seconds)
    || not (is_zero spec.default_seconds)

unfoldable pub next_interval : Instant → Duration → Instant → Instant
next_interval anchor interval after =
    let anchor_millis = anchor / millisecond in
    let after_millis = after / millisecond in
    let interval_millis = interval / millisecond in
    if ltb after_millis anchor_millis
    then anchor_millis * millisecond
    else (anchor_millis + ((after_millis - anchor_millis) / interval_millis + 1) * interval_millis)
      * millisecond

-- The first `if` of `ClampAdaptive` and of the adaptive case of `Next`, and the second.
unfoldable pub clamp : Duration → Duration → ℤ → Duration
clamp minimum maximum delay =
    let raised = if ltb (pos_part delay) minimum then minimum else pos_part delay in
    if ltb maximum raised then maximum else raised

-- `none` is an error that wraps `ErrInvalidSchedule`.
normalize_at : Definition → Instant → Option Instant → Option Definition
normalize_at d now none = none
normalize_at d now (some t) =
    if has_every_fields d.spec
      || not (d.spec.expression == "")
      || has_adaptive_fields d.spec
      || not (d.timezone == "")
    then none
    else if ltb now (truncate t)
    then some (record d { spec = record d.spec { at_time = some (truncate t) } })
    else none

-- The anchor of an interval, `now` if none is given.
abbrev anchor_or_now : Option Instant → Instant → Instant
anchor_or_now none now = truncate now
anchor_or_now (some t) now = truncate t

normalize_every : Definition → Instant → Option Definition
normalize_every d now =
    if is_some d.spec.at_time
      || not (d.spec.expression == "")
      || has_adaptive_fields d.spec
      || not (d.timezone == "")
    then none
    else if ltb (seconds_duration d.spec.every_seconds) minimum_interval
        || ltb maximum_interval (seconds_duration d.spec.every_seconds)
    then none
    else some
        (record d { spec = record d.spec { anchor = some (anchor_or_now d.spec.anchor now) } })

normalize_cron : CronLibrary → Definition → Option Definition
normalize_cron lib d =
    if is_some d.spec.at_time
      || has_every_fields d.spec
      || has_adaptive_fields d.spec
      || d.spec.expression == ""
      || d.timezone == ""
    then none
    else if lib.load_location d.timezone && lib.parse d.spec.expression
    then some d
    else none

normalize_adaptive : Definition → Option Definition
normalize_adaptive d =
    let minimum = seconds_duration d.spec.minimum_seconds in
    let maximum = seconds_duration d.spec.maximum_seconds in
    let fallback = seconds_duration d.spec.default_seconds in
    if is_some d.spec.at_time
      || has_every_fields d.spec
      || not (d.spec.expression == "")
      || not (d.timezone == "")
    then none
    else if ltb minimum minimum_interval
        || ltb maximum minimum
        || ltb maximum_interval maximum
        || ltb fallback minimum
        || ltb maximum fallback
    then none
    else some d

-- The two texts trimmed.
unfoldable pub trimmed : Definition → Definition
trimmed d = record d {
  spec = record d.spec { expression = trim_space d.spec.expression };
  timezone = trim_space d.timezone;
}

normalize_kind : CronLibrary → Kind → Definition → Instant → Option Definition
normalize_kind lib at d now = normalize_at d now d.spec.at_time
normalize_kind lib every d now = normalize_every d now
normalize_kind lib cron d now = normalize_cron lib d
normalize_kind lib adaptive d now = normalize_adaptive d
normalize_kind lib (other k) d now = none

-- The part of `Normalize` behind the trimming.
normalize_trimmed : CronLibrary → Definition → Instant → Option Definition
unfolding normalize_kind normalize_at normalize_every normalize_cron normalize_adaptive
normalize_trimmed lib d now =
    if ltb 256 (len d.timezone) || ltb 256 (len d.spec.expression)
    then none
    else normalize_kind lib d.kind d now

unfoldable pub normalize : CronLibrary → Definition → Instant → Option Definition
unfolding normalize_trimmed trimmed
normalize lib d now = normalize_trimmed lib (trimmed d) now
