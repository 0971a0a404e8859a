-- ===== src/Activities/Reply.antt =====
-- internal/store/activity.go: the replies to an activity. One statement of each method decides: its WHERE clause
-- guards the reservation.
use Prim.Native.String.{len}
use marvo.Base.{
  ℕ, String, Bool, not, ◌&&◌, ◌||◌, none, some, List, [], ltb, if◌then◌else◌, ◌==◌, string_eq,
  nat_eq, length, is_some, or_else, trim_space,
}
use marvo.Scheduling.{Instant, truncate}
use marvo.Sql.{ok, err, Exec, Tx, ◌>>=◌, ◌>>◌, pure, commit, lift, require, and_then}
use marvo.Sql.Rows.{find_where, update_where, count_where}
use marvo.Schedules.Tables.{valid_activity_id}
use marvo.Activities.{
  Error, invalid_activity, activity_not_found, responded, unavailable, Activity, Db, is_replying,
  scan_activity, has_id, get, max_reply_bytes,
}
use marvo.Activities.Input.{has_line_break, normalize_response_choices}

pub record ActivityReply : Type 0 where
  pub text : String
  pub choices : List String
  pub session_id : String

abbrev pub trimmed_reply : ActivityReply → ActivityReply
trimmed_reply r = record r { text = trim_space r.text; session_id = trim_space r.session_id }

abbrev pub is_reply : ActivityReply → Bool
is_reply r =
    not (ltb max_reply_bytes (len r.text) || r.session_id == "" || ltb 256 (len r.session_id))

-- The SET list of a reservation.
abbrev pub reserved : Instant → ActivityReply → List String → Activity → Activity
reserved now r choices a = record a {
  read_at = or_else a.read_at (some (truncate now));
  response_text = r.text;
  response_choices = choices;
  reply_session_id = r.session_id;
  reply_reserved_at = some (truncate now);
}

-- WHERE id = ? AND responded_at IS NULL AND reply_session_id = ''
abbrev pub is_open : String → Activity → Bool
is_open id a = a.id == id && not (is_some a.responded_at) && a.reply_session_id == ""

-- UPDATE activities SET f WHERE p
abbrev pub update_activities : (Activity → Bool) → (Activity → Activity) → Tx Db Error (Unit {0})
update_activities p f db = ok (tt, record db { activities = update_where p f db.activities })

unfoldable pub reserve :
    String → ActivityReply → Instant → Activity → List String → Tx Db Error Activity
reserve id r now a choices db =
    if r.text == "" && length choices == 0
    then err invalid_activity
    else if count_where (is_open id) db.activities == 0
    then err responded
    else (update_activities (is_open id) (reserved now r choices)
          >> pure (record (reserved now r choices a) { read_at = some now }))
        db

unfoldable pub begin_reply_tx : String → ActivityReply → Instant → Tx Db Error Activity
begin_reply_tx id r now = do
  a ← (λ db. lift (scan_activity (find_where (has_id id) db.activities)) db)
  require (not (is_some a.responded_at || is_replying a)) responded
  choices ← lift (normalize_response_choices a r.choices)
  reserve id r now a choices

-- The returned activity says that it was read now, where the row keeps an earlier time.
unfoldable pub begin_reply : String → ActivityReply → Instant → Exec Db Error Activity
begin_reply id reply now db =
    let r = trimmed_reply reply in
    if not (valid_activity_id id)
    then (err activity_not_found, db)
    else if not (is_reply r)
    then (err invalid_activity, db)
    else commit (begin_reply_tx id r now) db

-- WHERE id = ? AND reply_session_id = ? AND responded_at IS NULL
abbrev pub is_reserved_by : String → String → Activity → Bool
is_reserved_by id session a =
    a.id == id && a.reply_session_id == session && not (is_some a.responded_at)

abbrev pub answered : Instant → Activity → Activity
answered now a = record a { responded_at = some (truncate now); reply_reserved_at = none }

unfoldable pub complete_reply_tx : String → String → Instant → Tx Db Error (Unit {0})
complete_reply_tx id session now db =
    if count_where (is_reserved_by id session) db.activities == 0
    then err unavailable
    else update_activities (is_reserved_by id session) (answered now) db

unfoldable pub complete_reply : String → String → Instant → Exec Db Error Activity
complete_reply id session now db =
    if valid_activity_id id && not (trim_space session == "")
    then and_then (commit (complete_reply_tx id session now)) (λ _. get id) db
    else (err invalid_activity, db)

abbrev pub released : Activity → Activity
released a = record a {
  response_text = "";
  response_choices = [];
  reply_session_id = "";
  reply_reserved_at = none;
}

unfoldable pub cancel_reply : String → String → Exec Db Error (Unit {0})
cancel_reply id session db =
    if valid_activity_id id && not (trim_space session == "")
    then commit (update_activities (is_reserved_by id session) released) db
    else (err invalid_activity, db)

-- The CASE expressions of `DetachReplySession`
abbrev pub detached : Activity → Activity
detached a = record a {
  response_text = if is_some a.responded_at then a.response_text else "";
  response_choices = if is_some a.responded_at then a.response_choices else [];
  reply_session_id = "";
  reply_reserved_at = none;
}

unfoldable pub detach_reply_session : String → Exec Db Error ℕ
detach_reply_session session_id db =
    let session = trim_space session_id in
    if session == "" || ltb 256 (len session) || has_line_break session
    then (err invalid_activity, db)
    else (
      ok (count_where (λ a. a.reply_session_id == session) db.activities),
      record db {
        activities = update_where (λ a. a.reply_session_id == session) detached db.activities;
      },
    )
