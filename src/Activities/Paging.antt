-- ===== src/Activities/Paging.antt =====
-- The pages of the feed, followed by their cursors.
use marvo.Base.{
  ℕ, zero, suc, ◌+◌, ◌-◌, ◌≡◌, ◌≤◌, ◌<◌, refl, ◌∙◌, sym, ap, arith, String, Bool, true, false,
  Option, none, some, List, [], ◌++◌, ltb, leb, if◌then◌else◌, ◌==◌, string_eq, nat_eq, ltb→lt,
  length, take, drop, get_or, drop-drop, length-drop, keep, Bool-cases, inl, inr,
}
use marvo.Scheduling.{unix_epoch}
use marvo.Sql.{Result, ok, err}
use marvo.Sql.Rows.{count_where}
use marvo.Sql.Ordering.{
  order_by, IsSorted, order_by-IsSorted, All-order_by, get_or-All, keep-order_by, keep-after,
  count_where-order_by,
}
use marvo.Schedules.Tables.{valid_activity_id}
use marvo.Activities.{Error, Activity, Db}
use marvo.Activities.Feed.{
  Cursor, CursorLibrary, newer, cursor_of, ActivityPage, page_limit, decode_cursor, encoded, paged,
  list,
}
use marvo.Activities.Newest.{
  newer-IsOrder, feed, IsFeed, feed-IsStrict, take_more, length-take_more, nth-take, get_or-drop,
  take-append-drop, take_all,
}

-- The client's loop: it asks for a page after the other until one has no cursor. `none`: the fuel is used up, or
-- a page is refused.
prepend : List Activity → Option (List Activity) → Option (List Activity)
prepend xs none = none
prepend xs (some ys) = some (xs ++ ys)

follow_page : Result Error ActivityPage → (String → Option (List Activity)) → Option (List Activity)
follow_page (err e) more = none
follow_page (ok page) more =
    if page.next_cursor == ""
    then some page.activities
    else prepend page.activities (more page.next_cursor)

unfoldable pub follow : CursorLibrary → ℕ → Db → ℕ → String → Option (List Activity)
unfolding follow_page prepend
follow lib limit db zero cursor = none
follow lib limit db (suc fuel) cursor =
    follow_page (list lib limit cursor db) (follow lib limit db fuel)

-- What Base64 and JSON document: an encoded cursor is a text of its own, which decodes to the cursor by way of at
-- most 256 bytes.
pub record IsDocumented (lib : CursorLibrary) : Type 0 where
  pub decodes :
      (c : Cursor)
      → valid_activity_id c.id ≡ true
      → (n : ℕ) × (n ≤ 256) × (lib.decode (lib.encode c) ≡ some (c, n))
  pub filled : (c : Cursor) → (lib.encode c == "") ≡ false

abbrev nobody : Activity
nobody = record {
  id = "";
  kind = "";
  title = "";
  content = "";
  choices = [];
  multiple = false;
  source_session_id = "";
  source_message_id = "";
  dedupe_key = "";
  created_at = 0;
  read_at = none;
  responded_at = none;
  response_text = "";
  response_choices = [];
  reply_session_id = "";
  reply_reserved_at = none;
}

module _ (lib : CursorLibrary) (doc : IsDocumented lib) (db : Db) (f : IsFeed db) where
  -- The cursor of the page that begins at a row of the feed.
  abbrev cursor_at : ℕ → String
  cursor_at zero = ""
  cursor_at (suc k) = lib.encode (cursor_of (get_or (feed db) k nobody))

  decode_cursor_lem :
      (a : Activity)
      → valid_activity_id a.id ≡ true
      → leb a.created_at unix_epoch ≡ false
      → decode_cursor lib (lib.encode (cursor_of a)) ≡ ok (cursor_of a)
  unfolding decode_cursor
  decode_cursor_lem a v t =
      let (n, small, decoded) = doc.decodes (cursor_of a) v in
      rw decoded (ground (arith, small, v, t))

  list_at :
      (limit k : ℕ)
      → k ≤ length (feed db)
      → list lib limit (cursor_at k) db
        ≡ ok (paged lib (page_limit limit) (take (page_limit limit + 1) (drop k (feed db))) db)
  unfolding list
  list_at limit zero h = refl
  list_at limit (suc k) h =
      let a = get_or (feed db) k nobody in
      let (v, t) =
        get_or-All newer newer-IsOrder
          (λ a. (valid_activity_id a.id ≡ true) × (leb a.created_at unix_epoch ≡ false)) (feed db) k
          nobody (All-order_by newer newer-IsOrder _ db.activities f.valid) (omega arith) in
      let rest : order_by newer (keep (newer a) db.activities) ≡ drop (suc k) (feed db) =
        sym (keep-order_by newer newer-IsOrder (newer a) db.activities)
        ∙ keep-after newer newer-IsOrder k (feed db) nobody (feed-IsStrict db f) (omega arith) in
      rw (doc.filled (cursor_of a), decode_cursor_lem a v t)
        (ap (λ xs. ok (paged lib (page_limit limit) (take (page_limit limit + 1) xs) db)) rest)

  -- The page that begins at a row of the feed: its rows, and the cursor of the next page.
  page_at : ℕ → ℕ → ActivityPage
  page_at limit k = paged lib (page_limit limit) (take (page_limit limit + 1) (drop k (feed db))) db

  page_rows :
      (limit k : ℕ) → (page_at limit k).activities ≡ take (page_limit limit) (drop k (feed db))
  unfolding page_at paged
  page_rows limit k =
      let more : page_limit limit + 1 ≡ suc (page_limit limit) = omega arith in
      rw more (take_more (page_limit limit) (drop k (feed db)))

  page_cursor :
      (limit k : ℕ)
      → 0 < page_limit limit
      → (page_at limit k).next_cursor ≡ (
          if ltb (page_limit limit) (length (drop k (feed db)))
          then cursor_at (k + page_limit limit)
          else "")
  unfolding page_at paged encoded
  page_cursor limit k h =
      let n = page_limit limit in
      let more : n + 1 ≡ suc n = omega arith in
      rw (more, length-take_more n (drop k (feed db)))
        (elim (Bool-cases (ltb n (length (drop k (feed db))))) [
          | inr last ↦ rw last refl
          | inl longer ↦
              let next : k + n ≡ suc (k + (n - 1)) = omega arith in
              rw
                (
                  longer,
                  nth-take (suc n) (n - 1) (drop k (feed db)) nobody (omega arith) (ground arith),
                  get_or-drop k (n - 1) (feed db) nobody,
                  next,
                )
                refl
        ])

  limit_pos : (limit : ℕ) → 0 < page_limit limit
  limit_pos limit = ground arith

  cursor_filled : (k : ℕ) → 0 < k → (cursor_at k == "") ≡ false
  cursor_filled zero h = absurd (omega arith)
  cursor_filled (suc k) h = doc.filled (cursor_of (get_or (feed db) k nobody))

  follow_at :
      (limit fuel k : ℕ)
      → k ≤ length (feed db)
      → length (feed db) - k < fuel
      → follow lib limit db fuel (cursor_at k) ≡ some (drop k (feed db))
  unfolding follow page_at
  follow_at limit zero k h m = absurd (omega arith)
  follow_at limit (suc fuel) k h m =
      let n = page_limit limit in
      let rest = drop k (feed db) in
      let left = length-drop k (feed db) in
      rw (list_at limit k h) (elim (Bool-cases (ltb n (length rest))) [
        | inr last ↦
            rw (page_cursor limit k (limit_pos limit), last)
              (ap some (page_rows limit k ∙ take_all n rest (ground (arith, last))))
        | inl longer ↦
            rw
              (
                page_cursor limit k (limit_pos limit),
                longer,
                cursor_filled (k + n) (omega (arith, limit_pos limit)),
                follow_at limit fuel (k + n) (ground (arith, longer, left))
                    (omega (arith, limit_pos limit, ltb→lt n (length rest) longer, left)),
              )
              (ap some (
                ap (λ xs. xs ++ drop (k + n) (feed db)) (page_rows limit k)
                ∙ ap (λ ys. take n rest ++ ys) (sym (drop-drop k n (feed db)))
                ∙ take-append-drop n rest))
      ])

-- Following the cursors of List from the first page to the last, with any limit, gives every activity exactly as often
-- as the table has it, the newest first, with at most one request more than there are activities. The ids are
-- taken to be valid and unique, the times to be after the epoch, and Base64 and JSON to be as documented.
pub follow_covers :
    (lib : CursorLibrary) (limit : ℕ) (db : Db)
    → IsDocumented lib
    → IsFeed db
    → (rows : List Activity) × (follow lib limit db (suc (length rows)) "" ≡ some rows)
      × IsSorted newer newer-IsOrder rows
      × ((p : Activity → Bool) → count_where p rows ≡ count_where p db.activities)
follow_covers lib limit db doc f = (
  feed db,
  follow_at lib doc db f limit (suc (length (feed db))) 0 (omega arith) (omega arith),
  order_by-IsSorted newer newer-IsOrder db.activities,
  λ p. count_where-order_by newer newer-IsOrder p db.activities,
)
