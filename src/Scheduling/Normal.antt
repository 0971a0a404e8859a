-- ===== src/Scheduling/Normal.antt =====
-- What `Normalize` accepts, and that its result is a normal form.
use Prim.Native.String.{len}
use marvo.Base.{
  ◌≡◌, ◌≢◌, ◌≤◌, ◌<◌, sym, subst, arith, ltb, Bool-cases, inl, inr, true, false, ◌||◌, Option, none,
  some, string_eq, nat_eq, text_iff, trim_space, trim_space_idem,
}
use marvo.Scheduling.{
  Instant, truncate, Kind, at, every, cron, adaptive, other, Definition, CronLibrary,
  seconds_duration, has_every_fields, has_adaptive_fields, normalize, normalize_trimmed,
  normalize_kind, normalize_at, normalize_every, normalize_cron, normalize_adaptive, trimmed,
  minimum_interval, maximum_interval, anchor_or_now,
}

-- The fields that belong to none but the given kind are unset.
abbrev NoTime : Definition → Type 0
NoTime d = d.spec.at_time ≡ none

abbrev NoInterval : Definition → Type 0
NoInterval d = has_every_fields d.spec ≡ false

abbrev NoBounds : Definition → Type 0
NoBounds d = has_adaptive_fields d.spec ≡ false

abbrev NoCron : Definition → Type 0
NoCron d = (d.spec.expression ≡ "") × (d.timezone ≡ "")

-- A definition that can be stored: each kind has its own fields, in range and in normal form, and
-- no others.
abbrev pub IsNormalKind : CronLibrary → Kind → Definition → Type 0
IsNormalKind lib at d =
    ((t : Instant) × (d.spec.at_time ≡ some t) × (truncate t ≡ t))
    × NoInterval d
    × NoBounds d
    × NoCron d
IsNormalKind lib every d =
    ((t : Instant) × (d.spec.anchor ≡ some t) × (truncate t ≡ t))
    × (minimum_interval ≤ seconds_duration d.spec.every_seconds)
    × (seconds_duration d.spec.every_seconds ≤ maximum_interval)
    × NoTime d
    × NoBounds d
    × NoCron d
IsNormalKind lib cron d =
    (lib.load_location d.timezone ≡ true)
    × (lib.parse d.spec.expression ≡ true)
    × (d.timezone ≢ "")
    × (d.spec.expression ≢ "")
    × NoTime d
    × NoInterval d
    × NoBounds d
IsNormalKind lib adaptive d =
    (minimum_interval ≤ seconds_duration d.spec.minimum_seconds)
    × (seconds_duration d.spec.minimum_seconds ≤ seconds_duration d.spec.default_seconds)
    × (seconds_duration d.spec.default_seconds ≤ seconds_duration d.spec.maximum_seconds)
    × (seconds_duration d.spec.maximum_seconds ≤ maximum_interval)
    × NoTime d
    × NoInterval d
    × NoCron d
IsNormalKind lib (other k) d = ⊥

abbrev pub IsNormal : CronLibrary → Definition → Type 0
IsNormal lib d =
    IsNormalKind lib d.kind d
    × (len d.timezone ≤ 256)
    × (len d.spec.expression ≤ 256)
    × (trim_space d.timezone ≡ d.timezone)
    × (trim_space d.spec.expression ≡ d.spec.expression)

truncate_idem : (t : Instant) → truncate (truncate t) ≡ truncate t
truncate_idem t = omega arith

anchor_or_now-truncated :
    (o : Option Instant) (now : Instant) → truncate (anchor_or_now o now) ≡ anchor_or_now o now
anchor_or_now-truncated none now = truncate_idem now
anchor_or_now-truncated (some t) now = truncate_idem t

module _ (lib : CronLibrary) (d d' : Definition) (now : Instant) where
  at-IsNormal : (o : Option Instant) → normalize_at d now o ≡ some d' → IsNormalKind lib at d'
  unfolding normalize_at has_every_fields has_adaptive_fields
  at-IsNormal none h = cc
  at-IsNormal (some t) h = (
    (truncate t, ground arith, truncate_idem t),
    ground arith,
    ground arith,
    ground (arith, text_iff d.spec.expression "", text_iff d.timezone ""),
  )

  every-IsNormal : normalize_every d now ≡ some d' → IsNormalKind lib every d'
  unfolding normalize_every has_adaptive_fields
  every-IsNormal h = (
    (anchor_or_now d.spec.anchor now, ground arith, anchor_or_now-truncated d.spec.anchor now),
    ground arith,
    ground arith,
    ground arith,
    ground arith,
    ground (arith, text_iff d.spec.expression "", text_iff d.timezone ""),
  )

  cron-IsNormal : normalize_cron lib d ≡ some d' → IsNormalKind lib cron d'
  unfolding normalize_cron
  cron-IsNormal h = (
    ground arith,
    ground arith,
    ground (arith, text_iff d.timezone ""),
    ground (arith, text_iff d.spec.expression ""),
    ground arith,
    ground arith,
    ground arith,
  )

  adaptive-IsNormal : normalize_adaptive d ≡ some d' → IsNormalKind lib adaptive d'
  unfolding normalize_adaptive
  adaptive-IsNormal h = (
    ground arith,
    ground arith,
    ground arith,
    ground arith,
    ground arith,
    ground arith,
    ground (arith, text_iff d.spec.expression "", text_iff d.timezone ""),
  )

  normalize_kind-IsNormal :
      (k : Kind) → normalize_kind lib k d now ≡ some d' → IsNormalKind lib k d'
  unfolding normalize_kind
  normalize_kind-IsNormal at h = at-IsNormal d.spec.at_time h
  normalize_kind-IsNormal every h = every-IsNormal h
  normalize_kind-IsNormal cron h = cron-IsNormal h
  normalize_kind-IsNormal adaptive h = adaptive-IsNormal h
  normalize_kind-IsNormal (other k) h = cc

  normalize_at_keeps :
      (o : Option Instant)
      → normalize_at d now o ≡ some d'
      → (d'.kind ≡ d.kind) × (d'.timezone ≡ d.timezone) × (d'.spec.expression ≡ d.spec.expression)
  unfolding normalize_at
  normalize_at_keeps none h = cc
  normalize_at_keeps (some t) h = ground arith

  -- Behind the trimming neither the kind nor the texts change.
  normalize_kind_keeps :
      (k : Kind)
      → normalize_kind lib k d now ≡ some d'
      → (d'.kind ≡ d.kind) × (d'.timezone ≡ d.timezone) × (d'.spec.expression ≡ d.spec.expression)
  unfolding normalize_kind normalize_every normalize_cron normalize_adaptive
  normalize_kind_keeps at h = normalize_at_keeps d.spec.at_time h
  normalize_kind_keeps every h = ground arith
  normalize_kind_keeps cron h = ground arith
  normalize_kind_keeps adaptive h = ground arith
  normalize_kind_keeps (other k) h = cc

-- A one-shot lies ahead of `now`.
abbrev pub IsAhead : Kind → Option Instant → Instant → Type 0
IsAhead at (some t) now = now < t
IsAhead _ _ now = Unit

normalize_at-IsAhead :
    (d d' : Definition) (now : Instant) (o : Option Instant)
    → normalize_at d now o ≡ some d'
    → IsAhead at d'.spec.at_time now
unfolding normalize_at
normalize_at-IsAhead d d' now none h = cc
normalize_at-IsAhead d d' now (some t) h =
    let e : d'.spec.at_time ≡ some (truncate t) = ground arith in rw e (ground arith)

normalize_kind-IsAhead :
    (lib : CronLibrary) (d d' : Definition) (now : Instant) (k : Kind)
    → normalize_kind lib k d now ≡ some d'
    → IsAhead k d'.spec.at_time now
unfolding normalize_kind
normalize_kind-IsAhead lib d d' now at h = normalize_at-IsAhead d d' now d.spec.at_time h
normalize_kind-IsAhead lib d d' now every h = tt
normalize_kind-IsAhead lib d d' now cron h = tt
normalize_kind-IsAhead lib d d' now adaptive h = tt
normalize_kind-IsAhead lib d d' now (other k) h = tt

-- The one-shot that `Normalize` lets through lies ahead of `now`.
pub normalize-IsAhead :
    (lib : CronLibrary) (d d' : Definition) (now : Instant)
    → normalize lib d now ≡ some d'
    → IsAhead d'.kind d'.spec.at_time now
unfolding normalize normalize_trimmed trimmed
normalize-IsAhead lib d d' now h =
    let dd = trimmed d in
    let k : normalize_kind lib dd.kind dd now ≡ some d' = ground arith in
    subst (λ kind. IsAhead kind d'.spec.at_time now)
      (sym (normalize_kind_keeps lib dd d' now dd.kind k).0)
      (normalize_kind-IsAhead lib dd d' now dd.kind k)

normalize_trimmed-IsNormal :
    (lib : CronLibrary) (d d' : Definition) (now : Instant)
    → normalize_trimmed lib d now ≡ some d'
    → trim_space d.timezone ≡ d.timezone
    → trim_space d.spec.expression ≡ d.spec.expression
    → IsNormal lib d'
unfolding normalize_trimmed
normalize_trimmed-IsNormal lib d d' now h tz te =
    elim (Bool-cases (ltb 256 (len d.timezone) || ltb 256 (len d.spec.expression))) [
      | inl long ↦ cc (rw long at h)
      | inr short ↦
          let k : normalize_kind lib d.kind d now ≡ some d' = rw short at h in
          let (ek, ez, ee) = normalize_kind_keeps lib d d' now d.kind k in
          (
            subst (λ kind. IsNormalKind lib kind d') (sym ek)
                (normalize_kind-IsNormal lib d d' now d.kind k),
            rw ez (ground arith),
            rw ee (ground arith),
            rw ez tz,
            rw ee te,
          )
    ]

pub normalize-IsNormal :
    (lib : CronLibrary) (d d' : Definition) (now : Instant)
    → normalize lib d now ≡ some d'
    → IsNormal lib d'
unfolding normalize trimmed
normalize-IsNormal lib d d' now h =
    normalize_trimmed-IsNormal lib (trimmed d) d' now h (trim_space_idem d.timezone)
      (trim_space_idem d.spec.expression)
