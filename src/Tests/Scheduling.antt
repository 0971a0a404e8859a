-- ===== src/Tests/Scheduling.antt =====
-- internal/scheduling/schedule.go at concrete inputs.
use marvo.Base.{
  ℕ, ◌+◌, ◌*◌, ◌/◌, ◌≡◌, ◌≤◌, ◌<◌, ◌⊎◌, inr, refl, arith, String, true, none, some, pos, trim_space,
}
use marvo.Scheduling.{
  Instant, second, truncate, every, adaptive, Definition, CronLibrary, IsDocumented,
  seconds_duration, next_interval, normalize, has_every_fields, has_adaptive_fields,
}
use marvo.Scheduling.Calendar.{normalize_existing, first, next}
use marvo.Scheduling.Interval.{next_interval_first}
use marvo.Scheduling.Normal.{IsNormal, normalize-IsNormal}
use marvo.Scheduling.Stored.{normalize_of_normal}
use marvo.Scheduling.Occurrence.{next-after-completed}

-- A cron library that knows every zone and expression, and activates on every second.
abbrev pub every_second : CronLibrary
every_second = record {
  load_location = λ zone. true;
  parse = λ expression. true;
  next = λ expression zone t. (t / second + 1) * second;
}

pub every_second-IsDocumented : IsDocumented every_second
every_second-IsDocumented = record { later = λ expression zone t h. inr (omega arith, omega arith) }

abbrev pub unset : String
unset = ""

-- Every hour, from the second second on.
abbrev pub hourly : Definition
hourly = record {
  kind = every;
  spec = record {
    at_time = none;
    every_seconds = pos 3600;
    anchor = some 2000000000;
    expression = unset;
    minimum_seconds = pos 0;
    maximum_seconds = pos 0;
    default_seconds = pos 0;
  };
  timezone = unset;
}

-- Between one minute and one hour, ten minutes unless proposed otherwise.
abbrev flexible : Definition
flexible = record {
  kind = adaptive;
  spec = record {
    at_time = none;
    every_seconds = pos 0;
    anchor = none;
    expression = unset;
    minimum_seconds = pos 60;
    maximum_seconds = pos 3600;
    default_seconds = pos 600;
  };
  timezone = unset;
}

abbrev now : Instant
now = 5000000000

normalize-hourly : normalize every_second hourly now ≡ some hourly
unfolding normalize trim_space has_adaptive_fields seconds_duration
normalize-hourly = refl

normalize-flexible : normalize every_second flexible now ≡ some flexible
unfolding normalize trim_space has_every_fields seconds_duration
normalize-flexible = refl

first-hourly : first every_second hourly now ≡ some 3602000000000
unfolding first normalize trim_space has_adaptive_fields seconds_duration next_interval
first-hourly = refl

next_hourly : next every_second hourly now 3602000000000 (pos 0) ≡ some (some 7202000000000)
unfolding next normalize_existing normalize trim_space has_adaptive_fields seconds_duration
    next_interval
next_hourly = refl

next_interval_first_example :
    ((k : ℕ) × (next_interval 2000000000 3600000000000 5000000000
        ≡ truncate 2000000000 + k * 3600000000000))
    × (5000000000 < next_interval 2000000000 3600000000000 5000000000)
    × ((j : ℕ)
        → (truncate 2000000000 + j * 3600000000000 ≤ 5000000000)
          ⊎ (next_interval 2000000000 3600000000000 5000000000
              ≤ truncate 2000000000 + j * 3600000000000))
next_interval_first_example =
    next_interval_first 2000000000 5000000000 3600000000000 (omega arith) (omega arith)

hourly-IsNormal : IsNormal every_second hourly
hourly-IsNormal = normalize-IsNormal every_second hourly hourly now normalize-hourly

flexible-IsNormal : IsNormal every_second flexible
flexible-IsNormal = normalize-IsNormal every_second flexible flexible now normalize-flexible

normalize_of_normal_example : normalize every_second hourly now ≡ some hourly
normalize_of_normal_example = normalize_of_normal every_second hourly now hourly-IsNormal tt

next-after-completed_example : 3602000000000 < 7202000000000
next-after-completed_example =
    next-after-completed every_second hourly now 3602000000000 7202000000000 (pos 0)
      every_second-IsDocumented next_hourly
