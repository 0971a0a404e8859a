-- ===== src/Activities.antt =====
-- internal/store/activity.go: the rows, and how they are read. A column of milliseconds is kept as the
-- instant on that millisecond, and a column of JSON as the list that it encodes: the program writes it by
-- json.Marshal only, so it can be decoded.
pub mod Input
pub mod Publish
pub mod Reply
pub mod Feed
pub mod Choices
pub mod Fanout
pub mod Posted
pub mod Lasting
pub mod Coherent
pub mod Calls
pub mod Replies
pub mod Newest
pub mod Paging
use marvo.Base.{
  ℕ, String, Bool, true, false, not, ◌&&◌, Option, none, some, List, [], if◌then◌else◌, ◌==◌,
  string_eq, is_some,
}
use marvo.Scheduling.{Instant}
use marvo.Sql.{Result, ok, err}
use marvo.Sql.Rows.{find_where}
use marvo.Schedules.Tables.{valid_activity_id}
use marvo.Deliveries

pub data Error : Type 0 where
  invalid_activity activity_not_found responded unavailable storage : Error

abbrev pub kind_notice : String
kind_notice = "notice"

abbrev pub kind_choice : String
kind_choice = "choice"

abbrev pub max_title_runes : ℕ
max_title_runes = 200

abbrev pub max_content_bytes : ℕ
max_content_bytes = 65536

abbrev pub max_choices : ℕ
max_choices = 20

abbrev pub max_choice_runes : ℕ
max_choice_runes = 200

abbrev pub max_reply_bytes : ℕ
max_reply_bytes = 65536

-- A row of `activities`.
pub record Activity : Type 0 where
  pub id : String
  pub kind : String
  pub title : String
  pub content : String
  pub choices : List String
  pub multiple : Bool
  pub source_session_id : String
  pub source_message_id : String
  pub dedupe_key : String
  pub created_at : Instant
  pub read_at : Option Instant
  pub responded_at : Option Instant
  pub response_text : String
  pub response_choices : List String
  pub reply_session_id : String
  pub reply_reserved_at : Option Instant

-- The tables that the store touches: the activities, and the connectors with their deliveries.
pub record Db : Type 0 where
  pub activities : List Activity
  pub queue : Deliveries.Db

-- The field `Replying` that `scanActivity` computes.
abbrev pub is_replying : Activity → Bool
is_replying a =
    not (is_some a.responded_at) && is_some a.reply_reserved_at && not (a.reply_session_id == "")

unfoldable pub scan_activity : Option Activity → Result Error Activity
scan_activity none = err activity_not_found
scan_activity (some a) = ok a

abbrev pub has_id : String → Activity → Bool
has_id id a = a.id == id

unfoldable pub get : String → Db → Result Error Activity
get id db =
    if valid_activity_id id
    then scan_activity (find_where (has_id id) db.activities)
    else err activity_not_found
