-- ===== src/Tests/Activities.antt =====
-- internal/store/activity.go at concrete inputs.
use Prim.Native.Char.{code}
use marvo.Base.{
  ℕ, zero, suc, ◌+◌, ◌≡◌, ◌≤◌, refl, arith, String, Bool, true, false, Option, none, some, List, [],
  ◌∷◌, ◌==◌, string_eq, text_iff, nat_eq, if◌then◌else◌, trim_space, length, ◌⊎◌, inl, inr,
  Bool-cases, false≢true, ap, sym, ◌∙◌,
}
use marvo.Scheduling.{Instant}
use marvo.Sql.{ok}
use marvo.Sql.Rows.{find_where, update_where, count_where}
use marvo.Sql.Ordering.{order_by, IsSorted}
use marvo.Sql.Fails.{Refused}
use marvo.Schedules.Tables.{valid_activity_id}
use marvo.Deliveries.{Connector}
use marvo.Activities.{Activity, Db, has_id, scan_activity}
use marvo.Activities.Input.{
  ActivityPublish, normalize_publish, normalize_choices, normalize_response_choices, has_line_break,
}
use marvo.Activities.Publish.{
  publish_normal, publish_at, publish_new, new_activity, publish, insert_activity, insert_delivery,
  enabled_connectors, queue_deliveries,
}
use marvo.Activities.Reply.{ActivityReply, reserved, answered, begin_reply, begin_reply_tx, reserve}
use marvo.Activities.Feed.{Cursor, CursorLibrary, newer}
use marvo.Activities.Coherent.{AllCoherent}
use marvo.Activities.Calls.{
  Call, publishing, beginning, completing, cancelling, detaching, deleting, after_calls,
  after_calls-Coherent,
}
use marvo.Activities.Replies.{HasAnswer, answer_final, begin_reply_once}
use marvo.Activities.Fanout.{stored, publish_twice}
use marvo.Activities.Posted.{IsPublished, publish_lem}
use marvo.Activities.Paging.{IsDocumented, follow, follow_covers}
use marvo.Activities.Newest.{IsFeed, newer-IsOrder}

abbrev pub question : String
question = "0123456789abcdef0123456789abcdef"

abbrev other : String
other = "1123456789abcdef0123456789abcdef"

abbrev key : String
key = "k"

abbrev pub session : String
session = "s"

abbrev pub now : Instant
now = 74758377605000000000

-- "  Tea " and "Coffee", with spaces around.
abbrev pub input : ActivityPublish
input = record {
  kind = " choice ";
  title = " Drink? ";
  content = "What do you want?";
  choices = " Tea " ∷ "Coffee" ∷ [];
  multiple = false;
  source_session_id = session;
  source_message_id = "m ";
}

abbrev pub accepted : ActivityPublish
accepted = record {
  kind = "choice";
  title = "Drink?";
  content = "What do you want?";
  choices = "Tea" ∷ "Coffee" ∷ [];
  multiple = false;
  source_session_id = session;
  source_message_id = "m";
}

pub accepts : normalize_publish input ≡ ok accepted
unfolding normalize_publish trim_space has_line_break normalize_choices
accepts = refl

accepts_again : normalize_publish accepted ≡ ok accepted
unfolding normalize_publish trim_space has_line_break normalize_choices
accepts_again = refl

abbrev pub digest : ActivityPublish → String
digest p = key

abbrev pub draw : Connector → String
draw c = other

abbrev mailer : Connector
mailer = record {
  id = other;
  provider_id = "mail";
  name = "Mail";
  enabled = true;
  config_nonce = "n";
  config_ciphertext = "c";
  created_at = now;
  updated_at = now;
}

abbrev pub empty : Db
empty = record { activities = []; queue = record { connectors = mailer ∷ []; deliveries = [] } }

abbrev pub asked : Activity
asked = new_activity accepted key question now

pub publishes :
    publish digest draw question now input empty ≡ (ok (asked, true), stored draw asked empty)
unfolding publish publish_normal normalize_publish trim_space has_line_break normalize_choices
    publish_at find_where publish_new insert_activity queue_deliveries enabled_connectors order_by
    insert_delivery
publishes = refl

publish_lem_example :
    ((find_where (λ b. b.dedupe_key == key) empty.activities ≡ some asked)
      × (true ≡ false)
      × (stored draw asked empty ≡ empty))
    ⊎ ((find_where (λ b. b.dedupe_key == key) empty.activities ≡ none)
        × (true ≡ true)
        × IsPublished accepted key question now asked empty (stored draw asked empty))
publish_lem_example =
    publish_lem digest draw question now input accepted asked true empty (stored draw asked empty)
      accepts publishes

publish_twice_example :
    (b : Activity) × (publish digest draw other (now + now) accepted (stored draw asked empty)
      ≡ (ok (b, false), stored draw asked empty))
    × (b.id ≡ asked.id)
publish_twice_example =
    publish_twice digest draw draw question other now (now + now) input accepted accepted asked true
      empty (stored draw asked empty) accepts accepts_again publishes

abbrev one : Db
one = record { activities = asked ∷ []; queue = empty.queue }

abbrev tea : ActivityReply
tea = record { text = ""; choices = "Tea" ∷ []; session_id = session }

abbrev calls : List Call
calls =
    publishing other draw now input
    ∷ beginning question tea now
    ∷ cancelling question session
    ∷ beginning question tea now
    ∷ completing question session now
    ∷ detaching session
    ∷ deleting other
    ∷ []

after_calls-Coherent_example : AllCoherent (after_calls digest calls one)
after_calls-Coherent_example =
    after_calls-Coherent digest calls one (record { final = refl; held = refl; blank = refl }, tt)

abbrev replied : Activity
replied = reserved now tea ("Tea" ∷ []) asked

abbrev replied_db : Db
replied_db = record one { activities = replied ∷ [] }

replies : begin_reply question tea now one ≡ (ok replied, replied_db)
unfolding begin_reply valid_activity_id trim_space begin_reply_tx scan_activity find_where
    normalize_response_choices reserve count_where update_where
replies = refl

unique_question : count_where (has_id question) one.activities ≤ 1
unfolding count_where
unique_question = omega arith

begin_reply_once_example : Refused (begin_reply question tea (now + now) replied_db) replied_db
begin_reply_once_example =
    begin_reply_once question tea tea now (now + now) replied one replied_db unique_question replies

abbrev done : Activity
done = answered now replied

abbrev done_db : Db
done_db = record one { activities = done ∷ [] }

finds : find_where (has_id question) done_db.activities ≡ some done
unfolding find_where
finds = refl

answer_final_example :
    HasAnswer done (find_where (has_id question) (after_calls digest calls done_db).activities)
answer_final_example =
    answer_final digest calls question done done_db (tt, (tt, (tt, (tt, (tt, (tt, (refl, tt)))))))
      finds refl

-- Cursors whose text has a mark for each nanosecond, a dot, and the id.
marks : ℕ → String → String
marks zero id = String.◌∷◌ "." id
marks (suc n) id = String.◌∷◌ "x" (marks n id)

later_by_one : Option Cursor → Option Cursor
later_by_one none = none
later_by_one (some c) = some (record c { created_at = suc c.created_at })

parse : String → Option Cursor
parse String.[] = none
parse (String.◌∷◌ c rest) =
    let more = later_by_one (parse rest) in
    if code c == b'.' then some (record { created_at = 0; id = rest }) else more

parse-marks : (n : ℕ) (id : String) → parse (marks n id) ≡ some (record { created_at = n; id = id })
unfolding parse marks later_by_one
parse-marks zero id = refl
parse-marks (suc n) id = rw (parse-marks n id) refl

sized : Option Cursor → Option (Cursor × ℕ)
sized none = none
sized (some c) = some (c, 60)

abbrev library : CursorLibrary
library = record { encode = λ c. marks c.created_at c.id; decode = λ text. sized (parse text) }

is_blank : String → Bool
is_blank String.[] = true
is_blank (String.◌∷◌ c rest) = false

filled : (text : String) → is_blank text ≡ false → (text == "") ≡ false
unfolding is_blank
filled text h = elim (Bool-cases (text == "")) [
  | inr differs ↦ differs
  | inl same ↦ absurd (false≢true (sym h ∙ ap is_blank ((text_iff text "").0 same)))
]

marks_filled : (n : ℕ) (id : String) → (marks n id == "") ≡ false
unfolding marks is_blank
marks_filled zero id = filled (marks zero id) refl
marks_filled (suc n) id = filled (marks (suc n) id) refl

library-IsDocumented : IsDocumented library
unfolding sized
library-IsDocumented = record {
  decodes = λ c v. (60, omega arith, rw (parse-marks c.created_at c.id) refl);
  filled = λ c. marks_filled c.created_at c.id;
}

one-IsFeed : IsFeed one
unfolding count_where valid_activity_id
one-IsFeed = record { unique = λ id. ground arith; valid = ((refl, refl), tt) }

follow_covers_example :
    (rows : List Activity) × (follow library 10 one (suc (length rows)) "" ≡ some rows)
    × IsSorted newer newer-IsOrder rows
    × ((p : Activity → Bool) → count_where p rows ≡ count_where p one.activities)
follow_covers_example = follow_covers library 10 one library-IsDocumented one-IsFeed
