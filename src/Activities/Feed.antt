-- ===== src/Activities/Feed.antt =====
-- internal/store/activity.go: the feed, its pages, and what is read and deleted.
use marvo.Base.{
  ℕ, zero, suc, ◌+◌, ◌-◌, text_lt, String, Bool, not, ◌&&◌, ◌||◌, Option, none, some, List, [], ◌∷◌,
  ltb, leb, if◌then◌else◌, ◌==◌, string_eq, nat_eq, keep, take, length, is_some, or_else,
}
use marvo.Scheduling.{Instant, truncate, unix_epoch}
use marvo.Sql.{Result, ok, err, Exec, Tx, ◌>>◌, commit}
use marvo.Sql.Rows.{count_where}
use marvo.Sql.Ordering.{order_by}
use marvo.Schedules.Tables.{valid_activity_id}
use marvo.Activities.{Error, invalid_activity, Activity, Db, has_id, kind_choice}
use marvo.Activities.Reply.{update_activities}

pub record Cursor : Type 0 where
  pub created_at : Instant
  pub id : String

-- Base64 and JSON of Go's library: `decode` is DecodeString with json.Unmarshal, and gives the number of the
-- bytes in between, too.
pub record CursorLibrary : Type 0 where
  pub encode : Cursor → String
  pub decode : String → Option (Cursor × ℕ)

-- ORDER BY created_at DESC, id DESC
abbrev pub newer : Activity → Activity → Bool
newer a b = ltb b.created_at a.created_at || a.created_at == b.created_at && text_lt b.id a.id

-- WHERE created_at < ? OR (created_at = ? AND id < ?)
abbrev pub after : Cursor → Activity → Bool
after c a = ltb a.created_at c.created_at || c.created_at == a.created_at && text_lt a.id c.id

abbrev pub cursor_of : Activity → Cursor
cursor_of a = record { created_at = a.created_at; id = a.id }

pub record ActivityPage : Type 0 where
  pub activities : List Activity
  pub next_cursor : String
  pub unread : ℕ
  pub pending : ℕ

-- WHERE read_at IS NULL, and WHERE kind = 'choice' AND responded_at IS NULL
unfoldable pub counts : Db → ℕ × ℕ
counts db = (
  count_where (λ a. not (is_some a.read_at)) db.activities,
  count_where (λ a. a.kind == kind_choice && not (is_some a.responded_at)) db.activities,
)

abbrev pub page_limit : ℕ → ℕ
page_limit limit = if ltb limit 1 || ltb 100 limit then 30 else limit

checked_cursor : Option (Cursor × ℕ) → Result Error Cursor
checked_cursor none = err invalid_activity
checked_cursor (some (c, size)) =
    if ltb 256 size || leb c.created_at unix_epoch || not (valid_activity_id c.id)
    then err invalid_activity
    else ok c

-- The row at a position.
abbrev pub nth : List Activity → ℕ → Option Activity
nth [] i = none
nth (a ∷ rest) zero = some a
nth (a ∷ rest) (suc i) = nth rest i

module _ (lib : CursorLibrary) where
  unfoldable pub decode_cursor : String → Result Error Cursor
  unfolding checked_cursor
  decode_cursor value = checked_cursor (lib.decode value)

  unfoldable pub encoded : Option Activity → String
  encoded none = ""
  encoded (some a) = lib.encode (cursor_of a)

  -- What `List` makes of the rows that it has read, one more than the page has.
  unfoldable pub paged : ℕ → List Activity → Db → ActivityPage
  unfolding encoded
  paged limit rows db = record {
    activities = if ltb limit (length rows) then take limit rows else rows;
    next_cursor = if ltb limit (length rows) then encoded (nth rows (limit - 1)) else "";
    unread = (counts db).0;
    pending = (counts db).1;
  }

  list_after : ℕ → Result Error Cursor → Db → Result Error ActivityPage
  list_after limit (err e) db = err e
  list_after limit (ok c) db =
      ok (paged limit (take (limit + 1) (order_by newer (keep (after c) db.activities))) db)

  unfoldable pub list : ℕ → String → Db → Result Error ActivityPage
  unfolding list_after
  list limit cursor db =
      let n = page_limit limit in
      if cursor == ""
      then ok (paged n (take (n + 1) (order_by newer db.activities)) db)
      else list_after n (decode_cursor cursor) db

abbrev pub read : Instant → Activity → Activity
read now a = record a { read_at = or_else a.read_at (some (truncate now)) }

-- The loop of `MarkRead`
unfoldable pub mark_each : Instant → List String → Tx Db Error (Unit {0})
mark_each now [] db = ok (tt, db)
mark_each now (id ∷ rest) db =
    if valid_activity_id id
    then (update_activities (has_id id) (read now) >> mark_each now rest) db
    else err invalid_activity

unfoldable pub mark_read : List String → Instant → Exec Db Error (Unit {0})
unfolding mark_each
mark_read ids now db =
    if length ids == 0 || ltb 100 (length ids)
    then (err invalid_activity, db)
    else commit (mark_each now ids) db

-- DELETE FROM activities WHERE id = ?, with the deliveries of the activity (ON DELETE CASCADE).
unfoldable pub deleted : String → Db → Db
deleted id db = record db {
  activities = keep (λ a. not (has_id id a)) db.activities;
  queue = record db.queue {
    deliveries = keep (λ d. not (d.activity_id == id)) db.queue.deliveries;
  };
}

unfoldable pub delete : String → Exec Db Error Bool
delete id db =
    if valid_activity_id id
    then (ok (ltb 0 (count_where (has_id id) db.activities)), deleted id db)
    else (err invalid_activity, db)
