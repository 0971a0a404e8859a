-- ===== src/Scheduler/WakeQueue/Content.antt =====
-- What a wake queue holds: each user and time, whatever the order and the indices.
use marvo.Base.{
  ◌&&◌, Option, none, some, take, ◌↔◌, inl, inr, Bool-cases, Option-cases, sym, ap, ◌++◌, string_eq,
  ℕ, zero, suc, ◌+◌, ◌≡◌, ◌≤◌, ◌<◌, refl, ◌∙◌, arith, String, Bool, true, List, [], ◌∷◌,
  if◌then◌else◌, pos, length, set, length-set, get_or-set_ne, nat_eq, ◌==◌, get_or-set_self,
}
use marvo.Scheduling.{Instant}
use marvo.Sql.Rows.{count_where, find_where, count_where_mono, count_where-append}
use marvo.Scheduler.WakeQueue.{WakeItem, nil_item, at, exchange}

-- How many items have a user and a time that fit.
abbrev pub tally : (String → Instant → Bool) → List WakeItem → ℕ
tally p items = count_where (λ (x : WakeItem). p x.user_id x.when) items

abbrev pub HasSame : List WakeItem → List WakeItem → Type 0
HasSame a b = (p : String → Instant → Bool) → tally p b ≡ tally p a

abbrev pub one : Bool → ℕ
one b = if b then 1 else 0

tally-set :
    (p : String → Instant → Bool) (a : List WakeItem) (i : ℕ) (x : WakeItem)
    → i < length a
    → tally p (set a i x) + one (p (at a i).user_id (at a i).when)
      ≡ tally p a + one (p x.user_id x.when)
unfolding count_where
tally-set p [] i x h = elim h [ ]
tally-set p (y ∷ a) zero x h = ground arith
tally-set p (y ∷ a) (suc i) x h = ground (arith, tally-set p a i x)

pub exchange-HasSame :
    (a : List WakeItem) (i j : ℕ) → i < length a → j < length a → HasSame a (exchange a i j)
unfolding exchange
exchange-HasSame a i j hi hj p =
    let y = record (at a j) { index = pos i } in
    let x = record (at a i) { index = pos j } in
    let first = tally-set p a i y hi in
    let second = tally-set p (set a i y) j x in
    ground (
      arith,
      first,
      second,
      length-set a i y,
      get_or-set_ne a i j y nil_item,
      get_or-set_self a i y nil_item,
    )

-- The item of a user, and that of a user and a time.
abbrev pub of_user : String → String → Instant → Bool
of_user u v t = v == u

abbrev pub of_both : String → Instant → String → Instant → Bool
of_both u s v t = v == u && t == s

when_of : Option WakeItem → Option Instant
when_of none = none
when_of (some x) = some x.when

-- The wake time of a user.
unfoldable pub time_in : String → List WakeItem → Option Instant
unfolding when_of
time_in u items = when_of (find_where (λ x. x.user_id == u) items)

pub time_in_found :
    (u : String) (a : List WakeItem) (x : WakeItem)
    → find_where (λ y. y.user_id == u) a ≡ some x
    → time_in u a ≡ some x.when
unfolding time_in when_of
time_in_found u a x e = rw e refl

pub time_in_missing :
    (u : String) (a : List WakeItem)
    → find_where (λ y. y.user_id == u) a ≡ none
    → time_in u a ≡ none
unfolding time_in when_of
time_in_missing u a e = rw e refl

pub time_in-none_iff :
    (u : String) (a : List WakeItem) → (time_in u a ≡ none) ↔ (tally (of_user u) a ≡ 0)
unfolding time_in when_of find_where count_where
time_in-none_iff u [] = (λ _. refl, λ _. refl)
time_in-none_iff u (x ∷ a) =
    let ih = time_in-none_iff u a in
    elim (Bool-cases (x.user_id == u)) [
      | inl e ↦ rw e (λ h. cc, λ h. absurd (omega arith))
      | inr e ↦ rw e ih
    ]

pub time_in-tally :
    (u : String) (t : Instant) (a : List WakeItem)
    → time_in u a ≡ some t
    → 0 < tally (of_both u t) a
unfolding time_in when_of find_where count_where
time_in-tally u t [] h = cc
time_in-tally u t (x ∷ a) h = elim (Bool-cases (x.user_id == u)) [
  | inl e ↦ let same : x.when ≡ t = cc (rw e at h) in rw e (ground arith)
  | inr e ↦ rw e (time_in-tally u t a (rw e at h))
]

tally_both_le :
    (u : String) (t : Instant) (a : List WakeItem) → tally (of_both u t) a ≤ tally (of_user u) a
tally_both_le u t a = count_where_mono _ _ a (λ x h. ground arith)

pub time_in_of_tally :
    (u : String) (t : Instant) (a : List WakeItem)
    → tally (of_user u) a ≤ 1
    → 0 < tally (of_both u t) a
    → time_in u a ≡ some t
unfolding time_in when_of find_where count_where
time_in_of_tally u t [] h k = absurd (omega arith)
time_in_of_tally u t (x ∷ a) h k = elim (Bool-cases (x.user_id == u)) [
  | inl e ↦ rw e (ground (arith, tally_both_le u t a))
  | inr e ↦ rw e (time_in_of_tally u t a (rw e at h) (rw e at k))
]

-- A user that has no two times has the time that is counted.
pub time_in-cong :
    (u : String) (a b : List WakeItem)
    → tally (of_user u) b ≡ tally (of_user u) a
    → ((t : Instant) → tally (of_both u t) b ≡ tally (of_both u t) a)
    → tally (of_user u) a ≤ 1
    → time_in u b ≡ time_in u a
time_in-cong u a b s r h = elim (Option-cases (time_in u a)) [
  | inl e ↦ (time_in-none_iff u b).1 (s ∙ (time_in-none_iff u a).0 e) ∙ sym e
  | inr (t, e) ↦
      time_in_of_tally u t b (omega (arith, h, s)) (omega (arith, r t, time_in-tally u t a e))
      ∙ sym e
]

pub tally-append :
    (p : String → Instant → Bool) (a : List WakeItem) (x : WakeItem)
    → tally p (a ++ x ∷ []) ≡ tally p a + one (p x.user_id x.when)
unfolding count_where
tally-append p a x =
    ground (arith, count_where-append (λ (y : WakeItem). p y.user_id y.when) a (x ∷ []))

pub tally-take :
    (p : String → Instant → Bool) (n : ℕ) (a : List WakeItem)
    → length a ≡ suc n
    → tally p (take n a) + one (p (at a n).user_id (at a n).when) ≡ tally p a
unfolding count_where
tally-take p n [] h = absurd (omega arith)
tally-take p zero (x ∷ []) h = ground arith
tally-take p zero (x ∷ y ∷ a) h = absurd (omega arith)
tally-take p (suc n) (x ∷ a) h = ground (arith, tally-take p n a)

pub length-take_full : (n : ℕ) (a : List WakeItem) → n ≤ length a → length (take n a) ≡ n
length-take_full zero a h = refl
length-take_full (suc n) [] h = absurd (omega arith)
length-take_full (suc n) (x ∷ a) h = ap suc (length-take_full n a (omega arith))

pub at-take : (n : ℕ) (a : List WakeItem) (c : ℕ) → c < n → at (take n a) c ≡ at a c
at-take zero a c h = absurd (omega arith)
at-take (suc n) [] c h = refl
at-take (suc n) (x ∷ a) zero h = refl
at-take (suc n) (x ∷ a) (suc c) h = at-take n a c (omega arith)

pub tally-at :
    (p : String → Instant → Bool) (a : List WakeItem) (i : ℕ)
    → i < length a
    → p (at a i).user_id (at a i).when ≡ true
    → 0 < tally p a
unfolding count_where
tally-at p [] i h e = absurd (omega arith)
tally-at p (x ∷ a) zero h e = ground arith
tally-at p (x ∷ a) (suc i) h e = ground (arith, tally-at p a i)

-- A user that has one item has it in one place.
pub tally_one :
    (p : String → Instant → Bool) (a : List WakeItem) (i j : ℕ)
    → tally p a ≤ 1
    → i < length a
    → j < length a
    → p (at a i).user_id (at a i).when ≡ true
    → p (at a j).user_id (at a j).when ≡ true
    → i ≡ j
unfolding count_where
tally_one p [] i j u hi hj ei ej = absurd (omega arith)
tally_one p (x ∷ a) zero zero u hi hj ei ej = refl
tally_one p (x ∷ a) zero (suc j) u hi hj ei ej = absurd (ground (arith, tally-at p a j))
tally_one p (x ∷ a) (suc i) zero u hi hj ei ej = absurd (ground (arith, tally-at p a i))
tally_one p (x ∷ a) (suc i) (suc j) u hi hj ei ej =
    ap suc (tally_one p a i j (ground arith) (omega arith) (omega arith) ei ej)
