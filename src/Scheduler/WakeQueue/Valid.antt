-- ===== src/Scheduler/WakeQueue/Valid.antt =====
-- The wake queue as a map from users to times: what a call of
-- `Push` makes of it.
use marvo.Base.{
  ◌+◌, ◌-◌, ◌≡◌, ◌≤◌, ◌<◌, refl, ◌∙◌, arith, String, Bool, true, false, Option, none, some, List,
  [], ◌∷◌, ltb, if◌then◌else◌, ◌==◌, string_eq, nat_eq, text_iff, ==-refl, pos, length,
  length-append, get_or-append_left, get_or-append_length, is_some, lookup, lookup-insert,
  lookup-nil, ◌||◌, inl, inr, Bool-cases,
}
use marvo.Base.Partial.{Ends, ends, Ends-bind}
use marvo.Scheduling.{Instant}
use marvo.Sql.Rows.{count_where}
use marvo.Scheduler.WakeQueue.{WakeItem, WakeQueue, nil_item, parent, new_wake_queue, append, push}
use marvo.Scheduler.WakeQueue.Order.{below, IsHeap, IsPlaced}
use marvo.Scheduler.WakeQueue.Content.{
  tally, of_user, of_both, time_in, time_in-none_iff, time_in_of_tally, time_in-cong, HasSame,
  tally-append,
}
use marvo.Scheduler.WakeQueue.Sift.{CanRise, up_restores}

-- The items form a heap and know their places, no user has two, and `byUser` knows the users that have one.
pub record IsValid (q : WakeQueue) : Type 0 where
  pub heap : IsHeap (length q.items) q.items
  pub placed : IsPlaced q.items
  pub unique : (u : String) → tally (of_user u) q.items ≤ 1
  pub known : (u : String) → is_some (lookup u q.by_user) ≡ ltb 0 (tally (of_user u) q.items)

-- The wake time of a user.
abbrev pub time_of : String → WakeQueue → Option Instant
time_of u q = time_in u q.items

pub new_wake_queue-IsValid : IsValid new_wake_queue
unfolding new_wake_queue count_where
new_wake_queue-IsValid = record {
  heap = λ c p q. absurd (omega arith);
  placed = λ c p. absurd (omega arith);
  unique = λ u. omega arith;
  known = λ u. rw lookup-nil refl;
}

append-CanRise :
    (x : WakeItem) (q : WakeQueue) → IsValid q → CanRise (append x q).items (length q.items)
unfolding append below
append-CanRise x q v =
    let y = record x { index = pos (length q.items) } in
    let size = length-append q.items (y ∷ []) in
    record {
      inside = omega (arith, size);
      edges = λ c p b t. ground (
        arith,
        size,
        v.heap c,
        get_or-append_left q.items (y ∷ []) c nil_item,
        get_or-append_left q.items (y ∷ []) (parent c) nil_item,
      );
      bridged = λ c p b t z. absurd (omega (arith, size));
      placed = λ i b. ground (
        arith,
        size,
        v.placed i,
        get_or-append_left q.items (y ∷ []) i nil_item,
        get_or-append_length q.items y i nil_item,
      );
    }

length-appended : (x : WakeItem) (q : WakeQueue) → length (append x q).items ≡ length q.items + 1
unfolding append
length-appended x q =
    omega (arith, length-append q.items (record x { index = pos (length q.items) } ∷ []))

known-appended :
    (x : WakeItem) (q : WakeQueue) (w : String)
    → is_some (lookup w (append x q).by_user) ≡ (x.user_id == w || is_some (lookup w q.by_user))
unfolding append
known-appended x q w = ground (arith, lookup-insert x.user_id w true q.by_user)

-- The queue `r` is `q` with the time `t` for the user `u`.
pub record IsHastened (u : String) (t : Instant) (q r : WakeQueue) : Type 0 where
  pub valid : IsValid r
  pub times : (w : String) → time_of w r ≡ (if u == w then some t else time_of w q)

-- The same, by counting: only the count of the user `u` may change.
pub record Counts (u : String) (t : Instant) (a b : List WakeItem) : Type 0 where
  pub own : tally (of_user u) b ≡ 1
  pub own_both : 0 < tally (of_both u t) b
  pub others : (w : String) → (u == w) ≡ false → tally (of_user w) b ≡ tally (of_user w) a
  pub others_both :
      (w : String) (s : Instant) → (u == w) ≡ false → tally (of_both w s) b ≡ tally (of_both w s) a

pub IsHastened-counted :
    (u : String) (t : Instant) (q r : WakeQueue)
    → IsValid q
    → IsHeap (length r.items) r.items
    → IsPlaced r.items
    → Counts u t q.items r.items
    → ((w : String) → is_some (lookup w r.by_user) ≡ (u == w || is_some (lookup w q.by_user)))
    → IsHastened u t q r
IsHastened-counted u t q r v heap placed c known = record {
  valid = record {
    heap = heap;
    placed = placed;
    unique = λ w. ground (arith, c.own, c.others w, v.unique w, text_iff u w);
    known = λ w. ground (arith, c.own, c.others w, known w, v.known w, text_iff u w);
  };
  times = λ w. elim (Bool-cases (u == w)) [
    | inl e ↦
        let same : u ≡ w = (text_iff u w).0 e in
        rw e (rw (← same) (time_in_of_tally u t r.items (omega (arith, c.own)) c.own_both))
    | inr e ↦
        rw e (time_in-cong w q.items r.items (c.others w e) (λ s. c.others_both w s e) (v.unique w))
  ];
}

append-Counts :
    (x : WakeItem) (q : WakeQueue)
    → time_of x.user_id q ≡ none
    → Counts x.user_id x.when q.items (append x q).items
unfolding append
append-Counts x q absent =
    let y = record x { index = pos (length q.items) } in
    let none_yet = (time_in-none_iff x.user_id q.items).0 absent in
    let more = λ (p : String → Instant → Bool). tally-append p q.items y in
    record {
      own = ground (arith, more (of_user x.user_id), none_yet, ==-refl x.user_id);
      own_both = ground (arith, more (of_both x.user_id x.when), ==-refl x.user_id);
      others = λ w e. ground (arith, more (of_user w));
      others_both = λ w s e. ground (arith, more (of_both w s));
    }

pub Counts-sifted :
    (u : String) (t : Instant) (a b c : List WakeItem)
    → Counts u t a b
    → HasSame b c
    → Counts u t a c
Counts-sifted u t a b c k h = record {
  own = h _ ∙ k.own;
  own_both = omega (arith, h (of_both u t), k.own_both);
  others = λ w e. h _ ∙ k.others w e;
  others_both = λ w s e. h _ ∙ k.others_both w s e;
}

pub push-IsHastened :
    (x : WakeItem) (q : WakeQueue)
    → IsValid q
    → time_of x.user_id q ≡ none
    → Ends (IsHastened x.user_id x.when q) (push x q)
unfolding push
push-IsHastened x q v absent =
    let longer = append x q in
    let end : length longer.items - 1 ≡ length q.items = omega (arith, length-appended x q) in
    rw end (
      Ends-bind (up_restores longer.items (length q.items) (append-CanRise x q v)) λ b s. ends (
        IsHastened-counted x.user_id x.when q (record longer { items = b }) v
          (rw (← s.1.size) at s.0) s.1.placed
          (Counts-sifted x.user_id x.when q.items longer.items b (append-Counts x q absent)
            s.1.same)
          (λ w. known-appended x q w)))
