-- ===== src/Activities/Newest.antt =====
-- internal/store/activity.go: the order of the feed, and the rows of one page.
use native.Mathlib.Nat.{zero-add, suc-add}
use marvo.Base.{
  ℕ, zero, suc, ◌+◌, ◌≡◌, ◌≤◌, ◌<◌, refl, ap, arith, String, true, false, some, List, [], ◌∷◌, ◌++◌,
  ltb, leb, if◌then◌else◌, string_eq, nat_eq, text_iff, text_lt_asym, text_lt_trans, text_lt_total,
  length, take, drop, get_or,
}
use marvo.Scheduling.{unix_epoch}
use marvo.Sql.Rows.{count_where, All}
use marvo.Sql.Ordering.{
  order_by, IsOrder, IsSorted, IsStrict, order_by-IsSorted, count_where-order_by,
}
use marvo.Schedules.Tables.{valid_activity_id}
use marvo.Activities.{Activity, Db, has_id}
use marvo.Activities.Feed.{newer, nth}

pub newer-IsOrder : IsOrder newer
newer-IsOrder = record {
  asym = λ a b h. ground (arith, text_lt_asym b.id a.id);
  trans = λ a b c p q. ground (arith, text_lt_trans c.id b.id a.id);
}

-- The feed: all activities, the newest first.
abbrev pub feed : Db → List Activity
feed db = order_by newer db.activities

-- What the cursors need of the rows: unique valid ids, and times after the epoch.
pub record IsFeed (db : Db) : Type 0 where
  pub unique : (id : String) → count_where (has_id id) db.activities ≤ 1
  pub valid :
      All
        (λ a. (valid_activity_id a.id ≡ true) × (leb a.created_at unix_epoch ≡ false))
        db.activities

strict_head :
    (q : Activity) (rest : List Activity)
    → count_where (has_id q.id) rest ≡ 0
    → All (λ r. newer r q ≡ false) rest
    → All (λ r. newer q r ≡ true) rest
unfolding count_where
strict_head q [] h a = tt
strict_head q (r ∷ rest) h a = (
  ground (arith, a.0, h, text_lt_total q.id r.id, text_iff r.id q.id),
  strict_head q rest (ground (arith, h)) a.1,
)

strict :
    (rows : List Activity)
    → ((id : String) → count_where (has_id id) rows ≤ 1)
    → IsSorted newer newer-IsOrder rows
    → IsStrict newer newer-IsOrder rows
unfolding count_where
strict [] u s = tt
strict (q ∷ rest) u s = (
  strict_head q rest (ground (arith, u q.id, text_iff q.id q.id)) s.0,
  strict rest (λ id. ground (arith, u id)) s.1,
)

pub feed-IsStrict : (db : Db) → IsFeed db → IsStrict newer newer-IsOrder (feed db)
feed-IsStrict db f =
    strict (feed db)
      (λ id. rw (count_where-order_by newer newer-IsOrder (has_id id) db.activities) (f.unique id))
      (order_by-IsSorted newer newer-IsOrder db.activities)

-- One row more than the page has tells whether there is a next page.
pub take_more :
    (n : ℕ) (xs : List Activity)
    → (if ltb n (length (take (suc n) xs)) then take n (take (suc n) xs) else take (suc n) xs)
      ≡ take n xs
take_more zero [] = refl
take_more zero (x ∷ xs) = refl
take_more (suc n) [] = ground arith
take_more (suc n) (x ∷ xs) = ground (arith, take_more n xs)

pub length-take_more :
    (n : ℕ) (xs : List Activity) → ltb n (length (take (suc n) xs)) ≡ ltb n (length xs)
length-take_more zero [] = refl
length-take_more zero (x ∷ xs) = ground arith
length-take_more (suc n) [] = refl
length-take_more (suc n) (x ∷ xs) = ground (arith, length-take_more n xs)

pub nth-take :
    (n i : ℕ) (xs : List Activity) (d : Activity)
    → i < n
    → i < length xs
    → nth (take n xs) i ≡ some (get_or xs i d)
nth-take zero i xs d h k = absurd (omega arith)
nth-take (suc n) i [] d h k = absurd (omega arith)
nth-take (suc n) zero (x ∷ xs) d h k = refl
nth-take (suc n) (suc i) (x ∷ xs) d h k = nth-take n i xs d (omega arith) (omega arith)

pub get_or-drop :
    (k i : ℕ) (xs : List Activity) (d : Activity) → get_or (drop k xs) i d ≡ get_or xs (k + i) d
get_or-drop zero i xs d = rw zero-add refl
get_or-drop (suc k) i [] d = refl
get_or-drop (suc k) i (x ∷ xs) d = rw suc-add (get_or-drop k i xs d)

pub take-append-drop : (n : ℕ) (xs : List Activity) → take n xs ++ drop n xs ≡ xs
take-append-drop zero xs = refl
take-append-drop (suc n) [] = refl
take-append-drop (suc n) (x ∷ xs) = ap (◌∷◌ x) (take-append-drop n xs)

pub take_all : (n : ℕ) (xs : List Activity) → length xs ≤ n → take n xs ≡ xs
take_all zero [] h = refl
take_all zero (x ∷ xs) h = absurd (omega arith)
take_all (suc n) [] h = refl
take_all (suc n) (x ∷ xs) h = ap (◌∷◌ x) (take_all n xs (omega arith))
