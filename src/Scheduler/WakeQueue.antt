-- ===== src/Scheduler/WakeQueue.antt =====
-- internal/scheduler/wake_queue.go: one wake time for each user, in a binary heap of container/heap, whose
-- loops are written out here. An index out of range panics: `none`, and so does the model's fuel running
-- out. A pointer in `byUser` is resolved by the user's ID: `push` puts an item into both `items` and `byUser`,
-- `pop` takes it out of both.
pub mod Order
pub mod Sift
pub mod Sink
pub mod Content
pub mod Valid
pub mod Hasten
pub mod Popped
use marvo.Base.{
  ℕ, zero, suc, ◌+◌, ◌-◌, ◌*◌, ◌/◌, String, Bool, true, false, not, Option, none, some, List, [],
  ◌∷◌, ◌++◌, ltb, if◌then◌else◌, ◌==◌, string_eq, nat_eq, ℤ, pos, negsuc, pos_part, text_lt, length,
  get_or, set, take, Map, lookup, insert, erase, is_some, refl, ◌≡◌,
}
use marvo.Base.Partial.{◌>>=◌}
use marvo.Scheduling.{Instant}
use marvo.Sql.Rows.{find_where, update_where}

pub record WakeItem : Type 0 where
  pub user_id : String
  pub when : Instant
  pub index : ℤ

pub record WakeQueue : Type 0 where
  pub items : List WakeItem
  pub by_user : Map String Bool

-- What no read in range returns.
abbrev pub nil_item : WakeItem
nil_item = record { user_id = ""; when = 0; index = negsuc 0 }

abbrev pub at : List WakeItem → ℕ → WakeItem
at items i = get_or items i nil_item

-- items[i]
unfoldable pub load : List WakeItem → ℕ → Option WakeItem
load items i = if ltb i (length items) then some (at items i) else none

unfoldable pub comes_first : String → Instant → String → Instant → Bool
comes_first u s v t = if not (s == t) then ltb s t else text_lt u v

abbrev pub before : WakeItem → WakeItem → Bool
before x y = comes_first x.user_id x.when y.user_id y.when

-- `Less`
unfoldable pub less : List WakeItem → ℕ → ℕ → Option Bool
less items i j = do x ← load items i; y ← load items j; some (before x y)

-- The two writes of `Swap`, with those of the indices.
unfoldable pub exchange : List WakeItem → ℕ → ℕ → List WakeItem
exchange items i j =
    set (set items i (record (at items j) { index = pos i })) j
      (record (at items i) { index = pos j })

-- `Swap`
unfoldable pub swap : List WakeItem → ℕ → ℕ → Option (List WakeItem)
swap items i j = do x ← load items i; y ← load items j; some (exchange items i j)

abbrev pub parent : ℕ → ℕ
parent j = (j - 1) / 2

-- `up` of container/heap
unfoldable pub up_loop : ℕ → List WakeItem → ℕ → Option (List WakeItem)
up_loop zero items j = none
up_loop (suc fuel) items j =
    let rise = swap items (parent j) j >>= λ moved. up_loop fuel moved (parent j) in
    let test = less items j (parent j) >>= λ below. if not below then some items else rise in
    if parent j == j then some items else test

unfoldable pub up : List WakeItem → ℕ → Option (List WakeItem)
up items j = up_loop (j + 1) items j

-- The child of `i` that comes first, among the first `n` items.
unfoldable pub first_child : ℕ → List WakeItem → ℕ → Option ℕ
first_child n items i =
    let left = 2 * i + 1 in
    let right = left + 1 in
    if ltb right n
    then (less items right left >>= λ below. some (if below then right else left))
    else some left

-- `down` of container/heap, on the first `n` items, with where the item has gone.
unfoldable pub down_loop : ℕ → ℕ → List WakeItem → ℕ → Option (List WakeItem × ℕ)
down_loop zero n items i = none
down_loop (suc fuel) n items i =
    let test = do
      j ← first_child n items i
      below ← less items j i
      let sink = swap items i j >>= λ moved. down_loop fuel n moved j
      if not below then some (items, i) else sink
    in if ltb (2 * i + 1) n then test else some (items, i)

unfoldable pub down : ℕ → List WakeItem → ℕ → Option (List WakeItem × ℕ)
down n items i = down_loop (n + 1) n items i

-- `Fix` of container/heap
unfoldable pub fix : List WakeItem → ℕ → Option (List WakeItem)
fix items i = do (sunk, j) ← down (length items) items i; if ltb i j then some sunk else up sunk i

unfoldable pub new_wake_queue : WakeQueue
new_wake_queue = record { items = []; by_user = [] }

-- `Push` of the queue, and then `Push` of container/heap
unfoldable pub append : WakeItem → WakeQueue → WakeQueue
append x q = record {
  items = q.items ++ record x { index = pos (length q.items) } ∷ [];
  by_user = insert x.user_id true q.by_user;
}

unfoldable pub push : WakeItem → WakeQueue → Option WakeQueue
push x q = do
  let longer = append x q
  items ← up longer.items (length longer.items - 1)
  some (record longer { items = items })

-- `Pop` of the queue, and `Pop` of container/heap
unfoldable pub remove_last : WakeQueue → Option (WakeItem × WakeQueue)
remove_last q = do
  x ← load q.items (length q.items - 1)
  some (
    record x { index = negsuc 0 },
    record { items = take (length q.items - 1) q.items; by_user = erase x.user_id q.by_user },
  )

unfoldable pub pop : WakeQueue → Option (WakeItem × WakeQueue)
pop q = do
  let n = length q.items - 1
  exchanged ← swap q.items 0 n
  (sunk, _) ← down n exchanged 0
  remove_last (record q { items = sunk })

-- `Peek`
unfoldable pub peek : WakeQueue → Option WakeItem
peek q = if length q.items == 0 then none else some (at q.items 0)

-- `PopNext`, where the inner `none` is the nil of an empty queue.
unfoldable pub pop_next : WakeQueue → Option (Option WakeItem × WakeQueue)
pop_next q =
    if length q.items == 0 then some (none, q) else (pop q >>= λ (x, rest). some (some x, rest))

-- A time that is written through the pointer of a user.
unfoldable pub write_when : String → Instant → List WakeItem → List WakeItem
write_when user when items =
    update_where (λ x. x.user_id == user) (λ x. record x { when = when }) items

-- A known user's time is replaced by an earlier one.
unfoldable pub hasten : String → Instant → WakeItem → WakeQueue → Option WakeQueue
hasten user when x q =
    if not (ltb when x.when)
    then some q
    else (fix (write_when user when q.items) (pos_part x.index) >>= λ items.
        some (record q { items = items }))

-- `SetEarlier` after the look into `byUser`
unfoldable pub set_earlier_at : Bool → String → Instant → WakeQueue → Option WakeQueue
set_earlier_at false user when q = push (record { user_id = user; when = when; index = pos 0 }) q
set_earlier_at true user when q = do
  x ← find_where (λ x. x.user_id == user) q.items
  hasten user when x q

unfoldable pub set_earlier : String → Instant → WakeQueue → Option WakeQueue
set_earlier user when q = set_earlier_at (is_some (lookup user q.by_user)) user when q
