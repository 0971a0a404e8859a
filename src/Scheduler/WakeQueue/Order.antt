-- ===== src/Scheduler/WakeQueue/Order.antt =====
-- The heap order of the wake queue, and what an exchange of two items does to it.
use marvo.Base.{
  ℕ, zero, suc, ◌≡◌, ◌≢◌, ◌<◌, arith, String, Bool, true, false, List, if◌then◌else◌, ◌==◌,
  string_eq, nat_eq, pos, text_lt_asym, text_lt_trans, length, set, length-set, get_or-set_self,
  get_or-set_ne, Bool-cases, inl, inr, lt→ltb, some,
}
use marvo.Scheduling.{Instant}
use marvo.Scheduler.WakeQueue.{
  WakeItem, nil_item, at, load, comes_first, before, less, exchange, swap, parent,
}

comes_first_asym :
    (u : String) (s : Instant) (v : String) (t : Instant)
    → comes_first u s v t ≡ true
    → comes_first v t u s ≡ false
unfolding comes_first
comes_first_asym u s v t h = ground (arith, text_lt_asym u v)

comes_first_trans :
    (u : String) (r : Instant) (v : String) (s : Instant) (w : String) (t : Instant)
    → comes_first v s u r ≡ false
    → comes_first w t v s ≡ false
    → comes_first w t u r ≡ false
unfolding comes_first
comes_first_trans u r v s w t p q = ground (arith, text_lt_trans u v w)

-- The item at `i` comes before that at `j`.
unfoldable pub below : List WakeItem → ℕ → ℕ → Bool
below a i j = before (at a i) (at a j)

pub below_asym : (a : List WakeItem) (i j : ℕ) → below a i j ≡ true → below a j i ≡ false
unfolding below
below_asym a i j h = comes_first_asym _ _ _ _ h

pub below_trans :
    (a : List WakeItem) (i j k : ℕ)
    → below a j i ≡ false
    → below a k j ≡ false
    → below a k i ≡ false
unfolding below
below_trans a i j k p q = comes_first_trans _ _ (at a j).user_id (at a j).when _ _ p q

-- Every item but the first comes no earlier than its parent, among the first `n`.
abbrev pub IsHeap : ℕ → List WakeItem → Type 0
IsHeap n a = (c : ℕ) → 0 < c → c < n → below a c (parent c) ≡ false

-- Every item knows where it is.
abbrev pub IsPlaced : List WakeItem → Type 0
IsPlaced a = (i : ℕ) → i < length a → (at a i).index ≡ pos i

root_first_below :
    (k n : ℕ) (a : List WakeItem) (i : ℕ) → IsHeap n a → i < k → i < n → below a i 0 ≡ false
root_first_below zero n a i h f p = absurd (omega arith)
root_first_below (suc k) n a zero h f p = elim (Bool-cases (below a 0 0)) [
  | inl e ↦ cc (below_asym a 0 0 e)
  | inr e ↦ e
]
root_first_below (suc k) n a (suc i) h f p =
    below_trans a 0 (parent (suc i)) (suc i)
      (root_first_below k n a (parent (suc i)) h (omega arith) (omega arith))
      (h (suc i) (omega arith) p)

-- No item of a heap comes before its first.
pub root_first : (n : ℕ) (a : List WakeItem) (i : ℕ) → IsHeap n a → i < n → below a i 0 ≡ false
root_first n a i h p = root_first_below (suc i) n a i h (omega arith) p

module _ (a : List WakeItem) (i j : ℕ) where
  pub length-exchange : length (exchange a i j) ≡ length a
  unfolding exchange
  length-exchange = rw (length-set (set a i _) j _) (length-set a i _)

  module _ (hi : i < length a) (hj : j < length a) where
    pub less_lem : less a i j ≡ some (below a i j)
    unfolding less load below
    less_lem = rw (lt→ltb i (length a) hi, lt→ltb j (length a) hj)

    pub swap_lem : swap a i j ≡ some (exchange a i j)
    unfolding swap load
    swap_lem = rw (lt→ltb i (length a) hi, lt→ltb j (length a) hj)

    at-exchange :
        (c : ℕ)
        → at (exchange a i j) c ≡ (
            if j == c
            then record (at a i) { index = pos j }
            else if i == c
            then record (at a j) { index = pos i }
            else at a c)
    unfolding exchange
    at-exchange c = ground (
      arith,
      get_or-set_self (set a i (record (at a j) { index = pos i })) j
          (record (at a i) { index = pos j }) nil_item,
      length-set a i (record (at a j) { index = pos i }),
      get_or-set_ne (set a i (record (at a j) { index = pos i })) j c
          (record (at a i) { index = pos j }) nil_item,
      get_or-set_self a i (record (at a j) { index = pos i }) nil_item,
      get_or-set_ne a i c (record (at a j) { index = pos i }) nil_item,
    )

    pub at-exchange_ne : (c : ℕ) → i ≢ c → j ≢ c → at (exchange a i j) c ≡ at a c
    at-exchange_ne c p q = ground (arith, at-exchange c)

    pub at-exchange_last : at (exchange a i j) j ≡ record (at a i) { index = pos j }
    at-exchange_last = ground (arith, at-exchange j)

    -- Where the item that is at `c` after the exchange comes from.
    abbrev pub source : ℕ → ℕ
    source c = if j == c then i else if i == c then j else c

    pub below-exchange : (c d : ℕ) → below (exchange a i j) c d ≡ below a (source c) (source d)
    unfolding below
    below-exchange c d = ground (arith, at-exchange c, at-exchange d)

    pub exchange-IsPlaced : IsPlaced a → IsPlaced (exchange a i j)
    exchange-IsPlaced h c p = ground (arith, at-exchange c, h c, length-exchange)
