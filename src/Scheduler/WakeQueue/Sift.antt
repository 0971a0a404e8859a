-- ===== src/Scheduler/WakeQueue/Sift.antt =====
-- internal/scheduler/wake_queue.go: the loops of container/heap.
use marvo.Base.{
  ℕ, zero, suc, ◌+◌, ◌≡◌, ◌≢◌, ◌<◌, refl, ◌∙◌, arith, true, false, List, nat_eq, ◌==◌, not, length,
}
use marvo.Base.Partial.{Ends, ends, Ends-if, Ends-map}
use marvo.Scheduler.WakeQueue.{WakeItem, exchange, parent, up_loop, up}
use marvo.Scheduler.WakeQueue.Order.{
  below, below_asym, below_trans, IsHeap, IsPlaced, length-exchange, less_lem, swap_lem,
  below-exchange, exchange-IsPlaced,
}
use marvo.Scheduler.WakeQueue.Content.{HasSame, exchange-HasSame}

-- `b` has the items of `a`, each where it says it is.
pub record Rearranged (a b : List WakeItem) : Type 0 where
  pub size : length b ≡ length a
  pub placed : IsPlaced b
  pub same : HasSame a b

pub Rearranged-refl : (a : List WakeItem) → IsPlaced a → Rearranged a a
Rearranged-refl a h = record { size = refl; placed = h; same = λ p. refl }

pub Rearranged-exchange :
    (a : List WakeItem) (i j : ℕ) (b : List WakeItem)
    → i < length a
    → j < length a
    → Rearranged (exchange a i j) b
    → Rearranged a b
Rearranged-exchange a i j b hi hj r = record {
  size = r.size ∙ length-exchange a i j;
  placed = r.placed;
  same = λ p. r.same p ∙ exchange-HasSame a i j hi hj p;
}

abbrev pub Sifted : ℕ → List WakeItem → List WakeItem → Type 0
Sifted n a b = IsHeap n b × Rearranged a b

-- The edges past `i`, from its parent to its children, are in order.
abbrev pub IsBridged : ℕ → List WakeItem → ℕ → Type 0
IsBridged n a i = (c : ℕ) → 0 < c → c < n → parent c ≡ i → 0 < i → below a c (parent i) ≡ false

-- Only the edge above `j` may be out of order.
pub record CanRise (a : List WakeItem) (j : ℕ) : Type 0 where
  pub inside : j < length a
  pub edges : (c : ℕ) → 0 < c → c < length a → c ≢ j → below a c (parent c) ≡ false
  pub bridged : IsBridged (length a) a j
  pub placed : IsPlaced a

module _ (a : List WakeItem) (j : ℕ) (v : CanRise a j) (out : below a j (parent j) ≡ true)
    (away : 0 < j) where
  above : parent j < length a
  above = omega (arith, v.inside)

  rise-edge :
      (c : ℕ)
      → 0 < c
      → c < length a
      → c ≢ parent j
      → below (exchange a (parent j) j) c (parent c) ≡ false
  rise-edge c p q t = rw (below-exchange a (parent j) j above v.inside c (parent c)) (
      ground
        (arith, v.edges c, v.bridged c, below_asym a j (parent j), below_trans a j (parent j) c))

  rise-bridge : IsBridged (length a) (exchange a (parent j) j) (parent j)
  rise-bridge c p q t pos_parent =
      rw (below-exchange a (parent j) j above v.inside c (parent (parent j))) (
        ground (
          arith,
          v.edges c,
          v.edges (parent j),
          v.bridged c,
          below_asym a j (parent j),
          below_trans a (parent (parent j)) (parent j) c,
        ))

  rise : CanRise (exchange a (parent j) j) (parent j)
  rise = record {
    inside = omega (arith, length-exchange a (parent j) j, above);
    edges = λ c p q t. rise-edge c p (omega (arith, length-exchange a (parent j) j)) t;
    bridged = λ c p q t z. rise-bridge c p (omega (arith, length-exchange a (parent j) j)) t z;
    placed = exchange-IsPlaced a (parent j) j above v.inside v.placed;
  }

up_loop_restores :
    (fuel : ℕ) (a : List WakeItem) (j : ℕ)
    → j < fuel
    → CanRise a j
    → Ends (Sifted (length a) a) (up_loop fuel a j)
unfolding up_loop
up_loop_restores zero a j f v = absurd (omega arith)
up_loop_restores (suc fuel) a j f v =
    let above : parent j < length a = omega (arith, v.inside) in
    rw (less_lem a j (parent j) v.inside above, swap_lem a (parent j) j above v.inside)
      (Ends-if (parent j == j)
        (λ root. ends (λ c p q. v.edges c p q (ground arith), Rearranged-refl a v.placed))
        (λ away.
          Ends-if (not (below a j (parent j)))
            (λ settled. ends (λ c p q. ground (arith, v.edges c p q), Rearranged-refl a v.placed))
            (λ out.
              Ends-map
                (up_loop_restores fuel (exchange a (parent j) j) (parent j) (ground arith)
                  (rise a j v (ground arith) (ground arith)))
                (λ b s. (
                  λ c p q. s.0 c p (omega (arith, length-exchange a (parent j) j)),
                  Rearranged-exchange a (parent j) j b above v.inside s.1,
                )))))

pub up_restores : (a : List WakeItem) (j : ℕ) → CanRise a j → Ends (Sifted (length a) a) (up a j)
unfolding up
up_restores a j v = up_loop_restores (j + 1) a j (omega arith) v
