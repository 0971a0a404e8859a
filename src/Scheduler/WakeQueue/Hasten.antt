-- ===== src/Scheduler/WakeQueue/Hasten.antt =====
-- internal/scheduler/wake_queue.go: what `SetEarlier` does to the times of the users.
use marvo.Base.{
  ℕ, zero, suc, ◌≡◌, ◌≢◌, ◌<◌, refl, ◌∙◌, ap, arith, String, Bool, true, false, Option, none, some,
  List, [], ◌∷◌, ltb, if◌then◌else◌, ◌==◌, string_eq, nat_eq, text_iff, pos, length, is_some,
  lookup, inl, inr, Bool-cases, Option-cases, ltb→lt, ◌||◌,
}
use marvo.Base.Partial.{◌>>=◌, Ends, ends, Ends-bind}
use marvo.Scheduling.{Instant}
use marvo.Sql.Rows.{find_where, find_where-fits, update_where, count_where}
use marvo.Scheduler.WakeQueue.{
  WakeItem, WakeQueue, at, parent, comes_first, fix, write_when, hasten, set_earlier_at,
  set_earlier,
}
use marvo.Scheduler.WakeQueue.Order.{below, below_trans}
use marvo.Scheduler.WakeQueue.Content.{
  tally, of_user, of_both, time_in_found, time_in_missing, time_in-none_iff, tally-at, tally_one,
}
use marvo.Scheduler.WakeQueue.Sift.{CanRise, Sifted, up_restores}
use marvo.Scheduler.WakeQueue.Sink.{down_settled}
use marvo.Scheduler.WakeQueue.Valid.{
  IsValid, time_of, IsHastened, Counts, IsHastened-counted, Counts-sifted, push-IsHastened,
}

find_where_place :
    (p : WakeItem → Bool) (a : List WakeItem) (x : WakeItem)
    → find_where p a ≡ some x
    → (i : ℕ) × (i < length a) × (at a i ≡ x)
unfolding find_where
find_where_place p [] x h = cc
find_where_place p (y ∷ a) x h = elim (Bool-cases (p y)) [
  | inl e ↦ (0, omega arith, cc (rw e at h))
  | inr e ↦
      let (i, inside, same) = find_where_place p a x (rw e at h) in
      (suc i, omega (arith, inside), same)
]

module _ (u : String) (t : Instant) where
  length-write_when : (a : List WakeItem) → length (write_when u t a) ≡ length a
  unfolding write_when update_where
  length-write_when [] = refl
  length-write_when (x ∷ a) = ap suc (length-write_when a)

  at-write_when :
      (a : List WakeItem) (c : ℕ)
      → c < length a
      → at (write_when u t a) c
        ≡ (if (at a c).user_id == u then record (at a c) { when = t } else at a c)
  unfolding write_when update_where
  at-write_when [] c h = absurd (omega arith)
  at-write_when (x ∷ a) zero h = refl
  at-write_when (x ∷ a) (suc c) h = at-write_when a c (omega arith)

  tally-write_when :
      (w : String) (a : List WakeItem) → tally (of_user w) (write_when u t a) ≡ tally (of_user w) a
  unfolding write_when update_where count_where
  tally-write_when w [] = refl
  tally-write_when w (x ∷ a) = ground (arith, tally-write_when w a)

  tally-write_when_other :
      (w : String) (s : Instant) (a : List WakeItem)
      → (u == w) ≡ false
      → tally (of_both w s) (write_when u t a) ≡ tally (of_both w s) a
  unfolding write_when update_where count_where
  tally-write_when_other w s [] e = refl
  tally-write_when_other w s (x ∷ a) e = ground (
    arith,
    tally-write_when_other w s a,
    text_iff x.user_id u,
    text_iff x.user_id w,
    text_iff u w,
  )

comes_first_hasten :
    (v : String) (s : Instant) (u : String) (old t : Instant)
    → comes_first v s u old ≡ false
    → t < old
    → comes_first v s u t ≡ false
unfolding comes_first
comes_first_hasten v s u old t h e = ground arith

-- The item of `u` is at `i`, and gets the earlier time `t`.
module _ (q : WakeQueue) (v : IsValid q) (u : String) (t : Instant) (i : ℕ)
    (inside : i < length q.items) (own : ((at q.items i).user_id == u) ≡ true)
    (sooner : t < (at q.items i).when) where
  a : List WakeItem
  a = write_when u t q.items

  other : (c : ℕ) → c < length q.items → c ≢ i → at a c ≡ at q.items c
  unfolding a
  other c h ne =
      ground (
        arith,
        at-write_when u t q.items c,
        tally_one (of_user u) q.items c i (v.unique u) h inside,
      )

  own_item : at a i ≡ record (at q.items i) { when = t }
  unfolding a
  own_item = ground (arith, at-write_when u t q.items i inside)

  size : length a ≡ length q.items
  unfolding a
  size = length-write_when u t q.items

  below_other :
      (c d : ℕ)
      → c < length q.items
      → d < length q.items
      → c ≢ i
      → d ≢ i
      → below a c d ≡ below q.items c d
  unfolding below
  below_other c d hc hd nc nd = rw (other c hc nc, other d hd nd)

  below_own : (c : ℕ) → c < length q.items → c ≢ i → below q.items c i ≡ false → below a c i ≡ false
  unfolding below
  below_own c hc nc h =
      rw (other c hc nc, own_item) (comes_first_hasten _ _ _ (at q.items i).when t h sooner)

  hastened-CanRise : CanRise a i
  hastened-CanRise = record {
    inside = omega (arith, inside, size);
    edges = λ c p b t. elim (Bool-cases (parent c == i)) [
      | inl e ↦
          let under : parent c ≡ i = ground arith in
          rw under
            (below_own c (omega (arith, size)) t (rw under at (v.heap c p (omega (arith, size)))))
      | inr e ↦
          below_other c (parent c) (omega (arith, size)) (omega (arith, size)) t (ground arith)
          ∙ v.heap c p (omega (arith, size))
    ];
    bridged = λ c p b t z.
        below_other c (parent i) (omega (arith, size)) (omega (arith, inside)) (omega arith)
          (omega arith)
        ∙ below_trans q.items (parent i) i c (v.heap i z inside)
            (rw t at (v.heap c p (omega (arith, size))));
    placed = λ c b. ground (arith, size, v.placed c, other c, own_item, v.placed i);
  }

  hastened-Counts : Counts u t q.items a
  unfolding a
  hastened-Counts =
      let found : 0 < tally (of_user u) q.items = tally-at (of_user u) q.items i inside own in
      record {
        own = omega (arith, found, v.unique u, tally-write_when u t u q.items);
        own_both =
            tally-at (of_both u t) a i (omega (arith, size, inside))
              (rw own_item (ground (arith, own)));
        others = λ w e. tally-write_when u t w q.items;
        others_both = λ w s e. tally-write_when_other u t w s q.items e;
      }

  fix-hastened : Ends (Sifted (length a) a) (fix a i)
  unfolding fix
  fix-hastened =
      let still = down_settled (length a) a i (omega arith) (λ c p b t.
        below_own c (omega (arith, size)) (omega arith)
          (rw t at (v.heap c p (omega (arith, size))))) in
      rw still (ground (arith, up_restores a i hastened-CanRise))

  hasten-IsHastened :
      Ends (IsHastened u t q) (fix a i >>= λ items. some (record q { items = items }))
  hasten-IsHastened = Ends-bind fix-hastened λ b s. ends (
      IsHastened-counted u t q (record q { items = b }) v (rw (← s.1.size) at s.0) s.1.placed
        (Counts-sifted u t q.items a b hastened-Counts s.1.same) (λ w. known_before w))
    where
      known_before :
          (w : String) → is_some (lookup w q.by_user) ≡ (u == w || is_some (lookup w q.by_user))
      known_before w =
          ground (arith, v.known w, tally-at (of_user u) q.items i inside own, text_iff u w)

abbrev pub earliest : Option Instant → Instant → Instant
earliest none t = t
earliest (some s) t = if ltb t s then t else s

-- A time that is no earlier than the user's own changes nothing.
kept-IsHastened :
    (u : String) (s : Instant) (q : WakeQueue)
    → IsValid q
    → time_of u q ≡ some s
    → IsHastened u s q q
kept-IsHastened u s q v h = record {
  valid = v;
  times = λ w. elim (Bool-cases (u == w)) [
    | inl e ↦ let same : u ≡ w = (text_iff u w).0 e in rw e (rw (← same) h)
    | inr e ↦ rw e refl
  ];
}

hasten_any-IsHastened :
    (u : String) (t : Instant) (x : WakeItem) (q : WakeQueue)
    → IsValid q
    → find_where (λ y. y.user_id == u) q.items ≡ some x
    → Ends (IsHastened u (earliest (some x.when) t) q) (hasten u t x q)
unfolding hasten write_when a
hasten_any-IsHastened u t x q v found = elim (Bool-cases (ltb t x.when)) [
  | inl e ↦
      let (i, inside, here) = find_where_place (λ y. y.user_id == u) q.items x found in
      let own : ((at q.items i).user_id == u) ≡ true =
        rw here (find_where-fits _ q.items x found) in
      let sooner : t < (at q.items i).when = rw here (ltb→lt _ _ e) in
      let where_ : x.index ≡ pos i = rw here at (v.placed i inside) in
      rw (e, where_) (hasten-IsHastened q v u t i inside own sooner)
  | inr e ↦ rw e (ends (kept-IsHastened u x.when q v (time_in_found u q.items x found)))
]

set_earlier_at-IsHastened :
    (known : Bool) (u : String) (t : Instant) (q : WakeQueue)
    → IsValid q
    → is_some (lookup u q.by_user) ≡ known
    → Ends (IsHastened u (earliest (time_of u q) t) q) (set_earlier_at known u t q)
unfolding set_earlier_at
set_earlier_at-IsHastened false u t q v known =
    let absent : time_of u q ≡ none = (time_in-none_iff u q.items).1 (ground (arith, v.known u)) in
    rw absent (push-IsHastened (record { user_id = u; when = t; index = pos 0 }) q v absent)
set_earlier_at-IsHastened true u t q v known =
    elim (Option-cases (find_where (λ y. y.user_id == u) q.items)) [
      | inl e ↦
          absurd (
            ground (arith, v.known u, (time_in-none_iff u q.items).0 (time_in_missing u q.items e)))
      | inr (x, e) ↦ rw (time_in_found u q.items x e, e) (hasten_any-IsHastened u t x q v e)
    ]

-- From a valid queue SetEarlier ends without a panic and with a valid queue, in which the user has the
-- earlier of the old and the new time (the new one if there was none), and all others keep theirs.
pub set_earlier-IsHastened :
    (u : String) (t : Instant) (q : WakeQueue)
    → IsValid q
    → Ends (IsHastened u (earliest (time_of u q) t) q) (set_earlier u t q)
unfolding set_earlier
set_earlier-IsHastened u t q v =
    set_earlier_at-IsHastened (is_some (lookup u q.by_user)) u t q v refl
