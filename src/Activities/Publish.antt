-- ===== src/Activities/Publish.antt =====
-- internal/store/activity.go: `Publish`, with the deliveries that it queues, and `HasSourceMessage`.
use Prim.Native.String.{len}
use marvo.Base.{
  text_lt, String, Bool, true, false, not, ◌&&◌, ◌||◌, Option, none, some, List, [], ◌∷◌, ◌++◌, ltb,
  if◌then◌else◌, ◌==◌, string_eq, nat_eq, exists, keep, trim_space,
}
use marvo.Scheduling.{Instant, truncate}
use marvo.Sql.{Result, ok, err, Exec, Tx, ◌>>=◌, ◌>>◌, pure, commit}
use marvo.Sql.Rows.{find_where}
use marvo.Sql.Ordering.{order_by}
use marvo.Deliveries
use marvo.Deliveries.{Connector, Delivery}
use marvo.Activities.{Error, invalid_activity, storage, Activity, Db}
use marvo.Activities.Input.{ActivityPublish, normalize_publish}

-- The row that `Publish` inserts.
abbrev pub new_activity : ActivityPublish → String → String → Instant → Activity
new_activity input dedupe_key id now = record {
  id = id;
  kind = input.kind;
  title = input.title;
  content = input.content;
  choices = input.choices;
  multiple = input.multiple;
  source_session_id = input.source_session_id;
  source_message_id = input.source_message_id;
  dedupe_key = dedupe_key;
  created_at = truncate now;
  read_at = none;
  responded_at = none;
  response_text = "";
  response_choices = [];
  reply_session_id = "";
  reply_reserved_at = none;
}

-- INSERT INTO activities, with its primary key; `dedupe_key` has been looked for before.
unfoldable pub insert_activity : Activity → Tx Db Error (Unit {0})
insert_activity a db =
    if exists (λ b. b.id == a.id || b.dedupe_key == a.dedupe_key) db.activities
    then err storage
    else ok (tt, record db { activities = db.activities ++ a ∷ [] })

-- SELECT id FROM connectors WHERE enabled = 1 ORDER BY created_at, id
abbrev pub older_connector : Connector → Connector → Bool
older_connector a b =
    ltb a.created_at b.created_at || a.created_at == b.created_at && text_lt a.id b.id

unfoldable pub enabled_connectors : Db → List Connector
enabled_connectors db = order_by older_connector (keep (λ c. c.enabled) db.queue.connectors)

abbrev pub new_delivery : String → Activity → Connector → Delivery
new_delivery id a c = record {
  id = id;
  connector_id = c.id;
  activity_id = a.id;
  status = Deliveries.pending;
  attempt_count = 0;
  next_attempt_at = a.created_at;
  lease_until = none;
  last_error = "";
  sent_at = none;
  created_at = a.created_at;
  updated_at = a.created_at;
}

-- INSERT INTO activity_deliveries, with its primary key and UNIQUE(activity_id, connector_id)
unfoldable pub insert_delivery : Delivery → Tx Db Error (Unit {0})
insert_delivery d db =
    if exists
      (λ e. e.id == d.id || e.activity_id == d.activity_id && e.connector_id == d.connector_id)
      db.queue.deliveries
    then err storage
    else ok
        (tt, record db { queue = record db.queue { deliveries = db.queue.deliveries ++ d ∷ [] } })

-- `draw c` is the id that is drawn for the delivery to the connector `c`.
unfoldable pub queue_deliveries :
    (Connector → String) → Activity → List Connector → Tx Db Error (Unit {0})
queue_deliveries draw a [] = pure tt
queue_deliveries draw a (c ∷ rest) =
    insert_delivery (new_delivery (draw c) a c) >> queue_deliveries draw a rest

-- The transaction where no activity has the key; the result has the time that was read, the row its millisecond.
unfoldable pub publish_new :
    (Connector → String) → Activity → Instant → Tx Db Error (Activity × Bool)
publish_new draw a now = do
  insert_activity a
  connectors ← (λ db. ok (enabled_connectors db, db))
  queue_deliveries draw a connectors
  pure (record a { created_at = now }, true)

-- The key is looked up.
unfoldable pub publish_at :
    (Connector → String) → Activity → Instant → Option Activity → Tx Db Error (Activity × Bool)
publish_at draw a now (some existing) = pure (existing, false)
publish_at draw a now none = publish_new draw a now

-- `digest` is the hexadecimal SHA-256 of the JSON of the input, `id` the drawn id. The second part of the result
-- says whether the activity is new.
unfoldable pub publish_normal :
    (ActivityPublish → String)
    → (Connector → String)
    → String
    → Instant
    → Result Error ActivityPublish
    → Exec Db Error (Activity × Bool)
publish_normal digest draw id now (err e) db = (err e, db)
publish_normal digest draw id now (ok input) db =
    let key = digest input in
    commit
      (publish_at draw (new_activity input key id now) now
        (find_where (λ b. b.dedupe_key == key) db.activities))
      db

unfoldable pub publish :
    (ActivityPublish → String)
    → (Connector → String)
    → String
    → Instant
    → ActivityPublish
    → Exec Db Error (Activity × Bool)
publish digest draw id now input = publish_normal digest draw id now (normalize_publish input)

-- Whether an activity has the source.
abbrev pub is_source_id : String → Bool
is_source_id value = not (value == "") && not (ltb 256 (len value))

unfoldable pub has_source_message : String → String → Db → Result Error Bool
has_source_message session_id message_id db =
    let session = trim_space session_id in
    let message = trim_space message_id in
    if is_source_id session && is_source_id message
    then ok (
        exists (λ a. a.source_session_id == session && a.source_message_id == message)
          db.activities)
    else err invalid_activity
