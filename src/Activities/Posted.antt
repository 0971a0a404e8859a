-- ===== src/Activities/Posted.antt =====
-- internal/store/activity.go: what `Publish` promises of the rows.
use marvo.Base.{
  ◌≡◌, refl, ◌∙◌, ap, arith, String, Bool, true, false, ◌&&◌, none, some, List, [], ◌∷◌, ◌++◌, keep,
  ◌==◌, string_eq, nat_eq, ◌⊎◌, inl, inr, text_lt_asym, text_lt_trans,
}
use marvo.Scheduling.{Instant, truncate}
use marvo.Sql.{ok}
use marvo.Sql.Rows.{All, find_where, count_where}
use marvo.Sql.Ordering.{order_by, IsOrder, count_where-order_by}
use marvo.Deliveries
use marvo.Deliveries.{Connector, Delivery}
use marvo.Activities.{Activity, Db}
use marvo.Activities.Input.{ActivityPublish, normalize_publish}
use marvo.Activities.Publish.{publish, new_activity, older_connector, enabled_connectors}
use marvo.Activities.Fanout.{fanout, publish-stored}

-- The row has the fields of the input, and is neither read nor answered.
pub record IsPosted (input : ActivityPublish) (dedupe_key id : String) (at : Instant) (a : Activity)
    : Type 0 where
  pub named : (a.id ≡ id) × (a.dedupe_key ≡ dedupe_key)
  pub said : (a.kind ≡ input.kind) × (a.title ≡ input.title) × (a.content ≡ input.content)
  pub offered : (a.choices ≡ input.choices) × (a.multiple ≡ input.multiple)
  pub source :
      (a.source_session_id ≡ input.source_session_id)
      × (a.source_message_id ≡ input.source_message_id)
  pub created : a.created_at ≡ at
  pub unread : a.read_at ≡ none
  pub unanswered : (a.responded_at ≡ none) × (a.response_text ≡ "") × (a.response_choices ≡ [])
  pub unreserved : (a.reply_session_id ≡ "") × (a.reply_reserved_at ≡ none)

-- One delivery that is due at once for each enabled connector, and none for another.
pub record IsFannedOut (activity_id : String) (at : Instant) (connectors : List Connector)
    (ds : List Delivery) : Type 0 where
  pub fresh :
      All
        (λ d.
          (d.activity_id ≡ activity_id)
          × (d.status ≡ Deliveries.pending)
          × (d.attempt_count ≡ 0)
          × (d.next_attempt_at ≡ at)
          × (d.lease_until ≡ none)
          × (d.sent_at ≡ none))
        ds
  pub once :
      (id : String)
      → count_where (λ d. d.connector_id == id) ds
        ≡ count_where (λ c. c.id == id && c.enabled) connectors

new_activity-IsPosted :
    (input : ActivityPublish) (key id : String) (now : Instant)
    → IsPosted input key id (truncate now) (new_activity input key id now)
new_activity-IsPosted input key id now = record {
  named = (refl, refl);
  said = (refl, refl, refl);
  offered = (refl, refl);
  source = (refl, refl);
  created = refl;
  unread = refl;
  unanswered = (refl, refl, refl);
  unreserved = (refl, refl);
}

older_connector-IsOrder : IsOrder older_connector
older_connector-IsOrder = record {
  asym = λ a b h. ground (arith, text_lt_asym a.id b.id);
  trans = λ a b c p q. ground (arith, text_lt_trans a.id b.id c.id);
}

-- The deliveries to a connector, counted.
count_where-fanout :
    (draw : Connector → String) (a : Activity) (id : String) (connectors : List Connector)
    → count_where (λ d. d.connector_id == id) (fanout draw a connectors)
      ≡ count_where (λ c. c.id == id) connectors
unfolding count_where
count_where-fanout draw a id [] = refl
count_where-fanout draw a id (c ∷ rest) = ground (arith, count_where-fanout draw a id rest)

count_where-enabled :
    (id : String) (connectors : List Connector)
    → count_where (λ c. c.id == id) (keep (λ c. c.enabled) connectors)
      ≡ count_where (λ c. c.id == id && c.enabled) connectors
unfolding count_where
count_where-enabled id [] = refl
count_where-enabled id (c ∷ rest) = ground (arith, count_where-enabled id rest)

fanout-IsFannedOut :
    (draw : Connector → String) (a : Activity) (db : Db)
    → IsFannedOut a.id a.created_at db.queue.connectors (fanout draw a (enabled_connectors db))
unfolding enabled_connectors
fanout-IsFannedOut draw a db = record {
  fresh = all (order_by older_connector (keep (λ c. c.enabled) db.queue.connectors));
  once = λ id.
      count_where-fanout draw a id
        (order_by older_connector (keep (λ c. c.enabled) db.queue.connectors))
      ∙ count_where-order_by older_connector older_connector-IsOrder (λ c. c.id == id)
          (keep (λ c. c.enabled) db.queue.connectors)
      ∙ count_where-enabled id db.queue.connectors;
}
  where
    all :
        (connectors : List Connector)
        → All
            (λ d.
              (d.activity_id ≡ a.id)
              × (d.status ≡ Deliveries.pending)
              × (d.attempt_count ≡ 0)
              × (d.next_attempt_at ≡ a.created_at)
              × (d.lease_until ≡ none)
              × (d.sent_at ≡ none))
            (fanout draw a connectors)
    all [] = tt
    all (c ∷ rest) = ((refl, refl, refl, refl, refl, refl), all rest)

-- What `Publish` leaves and returns of a new activity.
pub record IsPublished (input : ActivityPublish) (dedupe_key id : String) (now : Instant)
    (a : Activity) (db db' : Db) : Type 0 where
  pub row : Activity
  pub posted : IsPosted input dedupe_key id (truncate now) row
  pub returned : a ≡ record row { created_at = now }
  pub activities : db'.activities ≡ db.activities ++ row ∷ []
  pub connectors : db'.queue.connectors ≡ db.queue.connectors
  pub deliveries : List Delivery
  pub queued : db'.queue.deliveries ≡ db.queue.deliveries ++ deliveries
  pub fanned_out : IsFannedOut id (truncate now) db.queue.connectors deliveries

-- What Publish does with an input that is accepted, where it returns no error. If an activity has the same key it is
-- returned, as not new, and nothing changes. Otherwise the tables have one activity more, with the input's fields,
-- neither read nor answered, and the deliveries to it: for every connector's ID one pending delivery, due at once, for
-- each enabled connector with it, and none for one that is not enabled. The activity is returned as new, and nothing
-- else changes.
pub publish_lem :
    (digest : ActivityPublish → String) (draw : Connector → String) (id : String) (now : Instant)
    (input accepted : ActivityPublish) (a : Activity) (fresh : Bool) (db db' : Db)
    → normalize_publish input ≡ ok accepted
    → publish digest draw id now input db ≡ (ok (a, fresh), db')
    → ((find_where (λ b. b.dedupe_key == digest accepted) db.activities ≡ some a)
        × (fresh ≡ false)
        × (db' ≡ db))
      ⊎ ((find_where (λ b. b.dedupe_key == digest accepted) db.activities ≡ none)
          × (fresh ≡ true)
          × IsPublished accepted (digest accepted) id now a db db')
publish_lem digest draw id now input accepted a fresh db db' n e =
    elim (publish-stored digest draw id now input accepted a fresh db db' n e) [
      | inl old ↦ inl old
      | inr (missing, new, value, tables) ↦
          let row = new_activity accepted (digest accepted) id now in
          inr (
            missing,
            new,
            record {
              row = row;
              posted = new_activity-IsPosted accepted (digest accepted) id now;
              returned = value;
              activities = ap (λ (d : Db). d.activities) tables;
              connectors = ap (λ (d : Db). d.queue.connectors) tables;
              deliveries = fanout draw row (enabled_connectors db);
              queued = ap (λ (d : Db). d.queue.deliveries) tables;
              fanned_out = fanout-IsFannedOut draw row db;
            },
          )
    ]
