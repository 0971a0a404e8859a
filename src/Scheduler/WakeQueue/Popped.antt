-- ===== src/Scheduler/WakeQueue/Popped.antt =====
-- `PopNext`: the item that comes first is taken out.
use marvo.Base.{
  ℕ, suc, ◌+◌, ◌-◌, ◌≡◌, ◌<◌, refl, ◌∙◌, arith, String, Bool, true, false, Option, none, some, List,
  [], ◌∷◌, if◌then◌else◌, ◌==◌, string_eq, nat_eq, text_iff, ==-refl, pos, negsuc, length, inl, inr,
  Bool-cases, lt→ltb, take, erase, lookup-erase,
}
use marvo.Base.Partial.{Ends, ends, Ends-bind}
use marvo.Scheduling.{Instant}
use marvo.Sql.Rows.{count_where}
use marvo.Scheduler.WakeQueue.{
  WakeItem, WakeQueue, at, parent, load, comes_first, exchange, remove_last, pop, peek, pop_next,
}
use marvo.Scheduler.WakeQueue.Order.{
  below, IsHeap, IsPlaced, length-exchange, swap_lem, at-exchange_last, below-exchange,
  exchange-IsPlaced, root_first,
}
use marvo.Scheduler.WakeQueue.Content.{
  exchange-HasSame, tally, of_user, of_both, one, time_in-none_iff, time_in-tally, time_in_of_tally,
  time_in-cong, tally-at, tally-take, at-take, length-take_full,
}
use marvo.Scheduler.WakeQueue.Sink.{CanSink, Sunk, down_restores}
use marvo.Scheduler.WakeQueue.Valid.{IsValid, time_of}

-- `x` has a time of the queue that comes no later than any other.
pub record IsFirst (q : WakeQueue) (x : WakeItem) : Type 0 where
  pub there : time_of x.user_id q ≡ some x.when
  pub first :
      (u : String) (t : Instant) → time_of u q ≡ some t → comes_first u t x.user_id x.when ≡ false

-- `r` is `q` without the user of `x`.
pub record IsWithout (x : WakeItem) (q r : WakeQueue) : Type 0 where
  pub valid : IsValid r
  pub times : (u : String) → time_of u r ≡ (if x.user_id == u then none else time_of u q)

tally_place :
    (p : String → Instant → Bool) (a : List WakeItem)
    → 0 < tally p a
    → (i : ℕ) × (i < length a) × (p (at a i).user_id (at a i).when ≡ true)
unfolding count_where
tally_place p [] h = absurd (omega arith)
tally_place p (x ∷ a) h = elim (Bool-cases (p x.user_id x.when)) [
  | inl e ↦ (0, omega arith, e)
  | inr e ↦
      let (i, inside, fits) = tally_place p a (rw e at h) in (suc i, omega (arith, inside), fits)
]

root-IsFirst :
    (q : WakeQueue)
    → IsValid q
    → 0 < length q.items
    → IsFirst q (record (at q.items 0) { index = negsuc 0 })
unfolding below
root-IsFirst q v h = record {
  there = time_in_of_tally _ _ q.items (v.unique _) (
      tally-at (of_both (at q.items 0).user_id (at q.items 0).when) q.items 0 h
        (ground (arith, ==-refl (at q.items 0).user_id)));
  first = λ u t e.
      let (i, inside, fits) = tally_place (of_both u t) q.items (time_in-tally u t q.items e) in
      ground (
        arith,
        fits,
        root_first (length q.items) q.items i v.heap inside,
        text_iff (at q.items i).user_id u,
      );
}

root-CanSink :
    (n : ℕ) (a : List WakeItem)
    → length a ≡ suc n
    → IsHeap (length a) a
    → IsPlaced a
    → CanSink n (exchange a 0 n) 0
root-CanSink n a size heap placed = record {
  within = omega (arith, length-exchange a 0 n, size);
  edges = λ c p b t.
      rw (below-exchange a 0 n (omega (arith, size)) (omega (arith, size)) c (parent c))
        (ground (arith, heap c, size));
  bridged = λ c p b t z. absurd (omega arith);
  placed = exchange-IsPlaced a 0 n (omega (arith, size)) (omega (arith, size)) placed;
}

-- The last of the items is left out.
module _ (n : ℕ) (q : WakeQueue) (b : List WakeItem) (v : IsValid q) (size : length q.items ≡ suc n)
    (s : Sunk n (exchange q.items 0 n) b) where
  length_b : length b ≡ suc n
  length_b = s.rearranged.size ∙ length-exchange q.items 0 n ∙ size

  counted : (p : String → Instant → Bool) → tally p b ≡ tally p q.items
  counted p =
      s.rearranged.same p
      ∙ exchange-HasSame q.items 0 n (omega (arith, size)) (omega (arith, size)) p

  last : at b n ≡ record (at q.items 0) { index = pos n }
  last =
      s.kept n (omega arith)
      ∙ at-exchange_last q.items 0 n (omega (arith, size)) (omega (arith, size))

  rest :
      (p : String → Instant → Bool)
      → tally p (take n b) + one (p (at q.items 0).user_id (at q.items 0).when) ≡ tally p q.items
  rest p = rw last at (tally-take p n b length_b) ∙ counted p

  remaining : WakeQueue
  remaining = record { items = take n b; by_user = erase (at q.items 0).user_id q.by_user }

  size_left : length (take n b) ≡ n
  size_left = length-take_full n b (omega (arith, length_b))

  remaining-IsValid : IsValid remaining
  unfolding remaining below
  remaining-IsValid = record {
    heap = λ c p m.
        rw
          (
            at-take n b c (omega (arith, size_left)),
            at-take n b (parent c) (omega (arith, size_left)),
          )
          (s.heap c p (omega (arith, size_left)));
    placed = λ c m.
        rw (at-take n b c (omega (arith, size_left)))
          (s.rearranged.placed c (omega (arith, size_left, length_b)));
    unique = λ u. omega (arith, rest (of_user u), v.unique u);
    known = λ u. ground (
      arith,
      lookup-erase (at q.items 0).user_id u q.by_user,
      rest (of_user u),
      v.unique u,
      v.known u,
      text_iff (at q.items 0).user_id u,
    );
  }

  remaining-times :
      (u : String)
      → time_of u remaining ≡ (if (at q.items 0).user_id == u then none else time_of u q)
  unfolding remaining
  remaining-times u = elim (Bool-cases ((at q.items 0).user_id == u)) [
    | inl e ↦
        rw e ((time_in-none_iff u (take n b)).1 (ground (arith, rest (of_user u), v.unique u)))
    | inr e ↦ rw e (
        time_in-cong u q.items (take n b) (ground (arith, rest (of_user u)))
          (λ t. ground (arith, rest (of_both u t))) (v.unique u))
  ]

  remove_last_lem :
      remove_last (record q { items = b })
      ≡ some (record (at q.items 0) { index = negsuc 0 }, remaining)
  unfolding remove_last load remaining
  remove_last_lem =
      let end : length b - 1 ≡ n = omega (arith, length_b) in
      rw (end, lt→ltb n (length b) (omega (arith, length_b)), last) refl

-- What `PopNext` returns: with no item no user has a time and `Peek` shows none, and an item is one that comes first and that
-- `Peek` shows.
abbrev pub Popped : WakeQueue → Option WakeItem × WakeQueue → Type 0
Popped q (none, r) = ((u : String) → time_of u q ≡ none) × (peek q ≡ none) × (r ≡ q)
Popped q (some x, r) = IsFirst q x × IsWithout x q r × (peek q ≡ some (record x { index = pos 0 }))

pop-Popped :
    (q : WakeQueue)
    → IsValid q
    → 0 < length q.items
    → Ends (λ (out : WakeItem × WakeQueue). Popped q (some out.0, out.1)) (pop q)
unfolding pop peek
pop-Popped q v h =
    let n = length q.items - 1 in
    let size : length q.items ≡ suc n = omega arith in
    let can = root-CanSink n q.items size v.heap v.placed in
    rw (swap_lem q.items 0 n h (omega arith)) (
      Ends-bind (down_restores n (exchange q.items 0 n) 0 can) λ (b, _) s.
        rw (remove_last_lem n q b v size s) (
          ends (
            root-IsFirst q v h,
            record {
              valid = remaining-IsValid n q b v size s;
              times = remaining-times n q b v size s;
            },
            rw (← v.placed 0 h) (ground arith),
          )))

empty_times : (q : WakeQueue) → length q.items ≡ 0 → (u : String) → time_of u q ≡ none
unfolding count_where
empty_times q h u = (time_in-none_iff u q.items).1 (tally_empty q.items h)
  where
    tally_empty : (a : List WakeItem) → length a ≡ 0 → tally (of_user u) a ≡ 0
    tally_empty [] e = refl
    tally_empty (x ∷ a) e = absurd (omega arith)

-- From a valid queue PopNext ends without a panic. It returns nil exactly where no user has a time, as Peek does, and
-- the queue stays. Otherwise it returns the user and the time that come first (by the time, and then by the
-- user's ID), the item that Peek shows, and leaves a valid queue in which that user has no time and all others
-- keep theirs.
pub pop_next-Popped : (q : WakeQueue) → IsValid q → Ends (Popped q) (pop_next q)
unfolding pop_next peek
pop_next-Popped q v = elim (Bool-cases (length q.items == 0)) [
  | inl e ↦ rw e (ends (empty_times q (ground arith), rw e refl, refl))
  | inr e ↦ rw e (Ends-bind (pop-Popped q v (ground arith)) λ (x, r) p. ends p)
]
