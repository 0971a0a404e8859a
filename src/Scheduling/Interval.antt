-- ===== src/Scheduling/Interval.antt =====
-- The arithmetic of intervals: `nextInterval`, and the clamping of adaptive delays.
use marvo.Base.{
  ap, ℕ, ◌+◌, ◌-◌, ◌*◌, ◌/◌, ◌%◌, ◌≡◌, ◌≤◌, ◌<◌, arith, if◌then◌else◌, ltb, ℤ, Bool-cases, inl, inr,
  ◌⊎◌,
}
use native.Mathlib.Nat.{div-add-mod, mod-lt, mul-le-mul_right, div-lt_iff_lt-mul}
use native.Mathlib.Decide.{dec_lt}
use marvo.Scheduling.{Instant, Duration, millisecond, truncate, next_interval, clamp}

-- Counted in milliseconds: the first point of the grid `anchor + k * interval` behind `after`.
grid_next : ℕ → ℕ → ℕ → ℕ
grid_next anchor interval after = anchor + ((after - anchor) / interval + 1) * interval

grid_next_lem :
    (anchor interval after : ℕ)
    → 0 < interval
    → anchor ≤ after
    → grid_next anchor interval after + (after - anchor) % interval ≡ after + interval
unfolding grid_next
grid_next_lem anchor interval after h k = grind (arith, div-add-mod (after - anchor) interval)

grid_next-after :
    (anchor interval after : ℕ)
    → 0 < interval
    → anchor ≤ after
    → after < grid_next anchor interval after
grid_next-after anchor interval after h k =
    omega (arith, grid_next_lem anchor interval after h k, mod-lt (after - anchor) h)

grid_next-le :
    (anchor interval after j : ℕ)
    → 0 < interval
    → anchor ≤ after
    → after < anchor + j * interval
    → grid_next anchor interval after ≤ anchor + j * interval
unfolding grid_next
grid_next-le anchor interval after j h k l =
    let below : (after - anchor) / interval < j = (div-lt_iff_lt-mul h).1 (omega arith) in
    omega (arith, mul-le-mul_right interval below)

next_interval-grid :
    (anchor after : Instant) (interval : Duration)
    → anchor / millisecond ≤ after / millisecond
    → next_interval anchor interval after
      ≡ grid_next (anchor / millisecond) (interval / millisecond) (after / millisecond)
        * millisecond
unfolding next_interval grid_next
next_interval-grid anchor after interval k = ground arith

next_interval-ahead :
    (anchor after : Instant) (interval : Duration)
    → after / millisecond < anchor / millisecond
    → next_interval anchor interval after ≡ truncate anchor
unfolding next_interval
next_interval-ahead anchor after interval k = ground arith

-- The next run is strictly later than `after`, whatever the anchor.
pub next_interval-after :
    (anchor after : Instant) (interval : Duration)
    → millisecond ≤ interval
    → after < next_interval anchor interval after
next_interval-after anchor after interval h =
    elim (dec_lt (after / millisecond) (anchor / millisecond)) [
      | yes ahead ↦ rw (next_interval-ahead anchor after interval ahead) (omega arith)
      | no behind ↦
          let g =
            grid_next-after (anchor / millisecond) (interval / millisecond) (after / millisecond)
              (omega arith) (omega arith) in
          rw (next_interval-grid anchor after interval (omega arith)) (omega (arith, g))
    ]

-- No point of the grid lies between `after` and the next run.
next_interval-le :
    (anchor after : Instant) (interval : Duration) (j : ℕ)
    → millisecond ≤ interval
    → interval % millisecond ≡ 0
    → after < truncate anchor + j * interval
    → next_interval anchor interval after ≤ truncate anchor + j * interval
next_interval-le anchor after interval j h w l =
    elim (dec_lt (after / millisecond) (anchor / millisecond)) [
      | yes ahead ↦ rw (next_interval-ahead anchor after interval ahead) (omega arith)
      | no behind ↦
          let whole : interval ≡ interval / millisecond * millisecond = omega arith in
          let scaled = ap (λ (t : ℕ). j * t) whole in
          let g =
            grid_next-le (anchor / millisecond) (interval / millisecond) (after / millisecond) j
              (omega arith) (omega arith) (omega (arith, scaled)) in
          rw (next_interval-grid anchor after interval (omega arith)) (omega (arith, g, scaled))
    ]

-- How many intervals lie between the anchor and the next run.
steps : ℕ → ℕ → ℕ → ℕ
steps anchor interval after = if ltb after anchor then 0 else (after - anchor) / interval + 1

next_interval-on_grid :
    (anchor after : Instant) (interval : Duration)
    → interval % millisecond ≡ 0
    → next_interval anchor interval after
      ≡ truncate anchor
        + steps (anchor / millisecond) (interval / millisecond) (after / millisecond) * interval
unfolding steps next_interval
next_interval-on_grid anchor after interval w =
    elim (Bool-cases (ltb (after / millisecond) (anchor / millisecond))) [
      | inl ahead ↦ rw ahead (omega arith)
      | inr behind ↦ rw behind (
          omega (
            arith,
            ap
                (λ (t : ℕ).
                  ((after / millisecond - anchor / millisecond) / (interval / millisecond) + 1) * t)
                (let whole : interval ≡ interval / millisecond * millisecond = omega arith in
                  whole),
          ))
    ]

-- For an interval of whole milliseconds, at least one, the next run after `after` is the first
-- instant of the grid `anchor, anchor + interval, anchor + 2 * interval, ...` later than `after`:
-- it lies on the grid, it is later, and no point of the grid that is later comes before it. So runs
-- that were missed are collapsed into one.
pub next_interval_first :
    (anchor after : Instant) (interval : Duration)
    → millisecond ≤ interval
    → interval % millisecond ≡ 0
    → ((k : ℕ) × (next_interval anchor interval after ≡ truncate anchor + k * interval))
      × (after < next_interval anchor interval after)
      × ((j : ℕ)
          → (truncate anchor + j * interval ≤ after)
            ⊎ (next_interval anchor interval after ≤ truncate anchor + j * interval))
next_interval_first anchor after interval h w = (
  (_, next_interval-on_grid anchor after interval w),
  next_interval-after anchor after interval h,
  λ j. elim (Bool-cases (ltb after (truncate anchor + j * interval))) [
    | inl later ↦ inr (next_interval-le anchor after interval j h w (ground arith))
    | inr passed ↦ inl (ground arith)
  ],
)

-- A clamped delay lies between the bounds.
pub clamp_bounds :
    (minimum maximum : Duration) (delay : ℤ)
    → minimum ≤ maximum
    → (minimum ≤ clamp minimum maximum delay) × (clamp minimum maximum delay ≤ maximum)
unfolding clamp
clamp_bounds minimum maximum delay h = ground arith
