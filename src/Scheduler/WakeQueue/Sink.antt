-- ===== src/Scheduler/WakeQueue/Sink.antt =====
-- internal/scheduler/wake_queue.go: `down` of container/heap on the first `n` items.
use marvo.Base.{
  some, Bool-cases, ltb→lt, ℕ, zero, suc, ◌+◌, ◌-◌, ◌*◌, ◌≡◌, ◌≢◌, ◌≤◌, ◌<◌, refl, ◌∙◌, arith, true,
  false, List, ltb, not, length, ◌⊎◌, inl, inr,
}
use marvo.Base.Partial.{Ends, ends, Ends-bind, Ends-if, Ends-map, Ends-inv}
use marvo.Scheduler.WakeQueue.{WakeItem, at, exchange, parent, first_child, down_loop, down}
use marvo.Scheduler.WakeQueue.Order.{
  below, below_asym, below_trans, IsHeap, IsPlaced, length-exchange, less_lem, swap_lem,
  below-exchange, exchange-IsPlaced, at-exchange_ne,
}
use marvo.Scheduler.WakeQueue.Sift.{Rearranged, Rearranged-refl, Rearranged-exchange, IsBridged}

-- Only the edges below `i` may be out of order.
pub record CanSink (n : ℕ) (a : List WakeItem) (i : ℕ) : Type 0 where
  pub within : n ≤ length a
  pub edges : (c : ℕ) → 0 < c → c < n → parent c ≢ i → below a c (parent c) ≡ false
  pub bridged : IsBridged n a i
  pub placed : IsPlaced a

-- `m` is the child of `i` that comes first.
record IsFirstChild (n : ℕ) (a : List WakeItem) (i m : ℕ) : Type 0 where
  inside : m < n
  child : (m ≡ 2 * i + 1) ⊎ (m ≡ 2 * i + 2)
  first : (c : ℕ) → 0 < c → c < n → parent c ≡ i → below a c m ≡ false

below_self : (a : List WakeItem) (i : ℕ) → below a i i ≡ false
below_self a i = ground (arith, below_asym a i i)

first_child-IsFirstChild :
    (n : ℕ) (a : List WakeItem) (i : ℕ)
    → n ≤ length a
    → 2 * i + 1 < n
    → Ends (IsFirstChild n a i) (first_child n a i)
unfolding first_child
first_child-IsFirstChild n a i w h =
    let left = 2 * i + 1 in
    let right = 2 * i + 1 + 1 in
    Ends-if (ltb right n)
      (λ two. rw (less_lem a right left (ground arith) (omega arith)) (
        ends (record {
          inside = ground arith;
          child = ground arith;
          first = λ c p q t.
              ground (arith, below_self a left, below_self a right, below_asym a right left);
        })))
      (λ alone. ends (record {
        inside = h;
        child = inl refl;
        first = λ c p q t. ground (arith, below_self a left);
      }))

module _ (n : ℕ) (a : List WakeItem) (i m : ℕ) (v : CanSink n a i) (s : IsFirstChild n a i m)
    (out : below a m i ≡ true) where
  sink-edge : (c : ℕ) → 0 < c → c < n → parent c ≢ m → below (exchange a i m) c (parent c) ≡ false
  sink-edge c p q t =
      rw
        (below-exchange a i m (omega (arith, v.within, s.inside, s.child))
          (omega (arith, v.within, s.inside)) c (parent c))
        (ground (arith, v.edges c, v.bridged m, below_asym a m i, s.first c, s.child))

  sink-bridge : IsBridged n (exchange a i m) m
  sink-bridge c p q t z =
      rw
        (below-exchange a i m (omega (arith, v.within, s.inside, s.child))
          (omega (arith, v.within, s.inside)) c (parent m))
        (ground (arith, v.edges c, s.child))

  sink : CanSink n (exchange a i m) m
  sink = record {
    within = omega (arith, length-exchange a i m, v.within);
    edges = sink-edge;
    bridged = sink-bridge;
    placed =
        exchange-IsPlaced a i m (omega (arith, v.within, s.inside, s.child))
          (omega (arith, v.within, s.inside)) v.placed;
  }

-- The first `n` items are a heap, and the others are where they were.
pub record Sunk (n : ℕ) (a b : List WakeItem) : Type 0 where
  pub heap : IsHeap n b
  pub rearranged : Rearranged a b
  pub kept : (c : ℕ) → n ≤ c → at b c ≡ at a c

down_loop_restores :
    (fuel n : ℕ) (a : List WakeItem) (i : ℕ)
    → n - i < fuel
    → CanSink n a i
    → Ends (λ (out : List WakeItem × ℕ). Sunk n a out.0) (down_loop fuel n a i)
unfolding down_loop
down_loop_restores zero n a i f v = absurd (omega arith)
down_loop_restores (suc fuel) n a i f v =
    Ends-if (ltb (2 * i + 1) n)
      (λ deeper. Ends-bind (first_child-IsFirstChild n a i v.within (ground arith)) λ m s.
        let hm : m < length a = omega (arith, v.within, s.inside) in
        let hi : i < length a = omega (arith, s.child) in
        rw (less_lem a m i hm hi, swap_lem a i m hi hm)
          (Ends-if (not (below a m i))
            (λ settled. ends (record {
              heap = λ c p q. ground (arith, v.edges c, s.first c, below_trans a i m c);
              rearranged = Rearranged-refl a v.placed;
              kept = λ c p. refl;
            }))
            (λ out.
              Ends-map
                (down_loop_restores fuel n (exchange a i m) m (omega (arith, s.child, s.inside))
                  (sink n a i m v s (ground arith)))
                (λ b r. record {
                  heap = r.heap;
                  rearranged = Rearranged-exchange a i m b.0 hi hm r.rearranged;
                  kept = λ c p.
                      r.kept c p
                      ∙ at-exchange_ne a i m hi hm c (omega (arith, s.child, s.inside))
                          (omega (arith, s.inside));
                }))))
      (λ leaf. ends (record {
        heap = λ c p q. ground (arith, v.edges c);
        rearranged = Rearranged-refl a v.placed;
        kept = λ c p. refl;
      }))

pub down_restores :
    (n : ℕ) (a : List WakeItem) (i : ℕ)
    → CanSink n a i
    → Ends (λ (out : List WakeItem × ℕ). Sunk n a out.0) (down n a i)
unfolding down
down_restores n a i v = down_loop_restores (n + 1) n a i (omega arith) v

down_loop_settled :
    (fuel n : ℕ) (a : List WakeItem) (i : ℕ)
    → n ≤ length a
    → ((c : ℕ) → 0 < c → c < n → parent c ≡ i → below a c i ≡ false)
    → down_loop (suc fuel) n a i ≡ some (a, i)
unfolding down_loop
down_loop_settled fuel n a i w h = elim (Bool-cases (ltb (2 * i + 1) n)) [
  | inl deeper ↦
      let (m, found, s) = Ends-inv (first_child-IsFirstChild n a i w (ltb→lt _ _ deeper)) in
      let hm : m < length a = omega (arith, w, s.inside) in
      let hi : i < length a = omega (arith, hm, s.child) in
      rw
        (
          deeper,
          found,
          less_lem a m i hm hi,
          h m (omega (arith, s.child)) s.inside (omega (arith, s.child)),
        )
        refl
  | inr leaf ↦ rw leaf refl
]

-- Where no child comes before its parent, nothing moves.
pub down_settled :
    (n : ℕ) (a : List WakeItem) (i : ℕ)
    → n ≤ length a
    → ((c : ℕ) → 0 < c → c < n → parent c ≡ i → below a c i ≡ false)
    → down n a i ≡ some (a, i)
unfolding down
down_settled n a i w h = let e : n + 1 ≡ suc n = omega arith in rw e (down_loop_settled n n a i w h)
