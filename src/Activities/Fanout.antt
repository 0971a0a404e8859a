-- ===== src/Activities/Fanout.antt =====
-- internal/store/activity.go: what `Publish` stores.
use marvo.Base.{
  ◌≡◌, refl, ◌∙◌, sym, ap, String, Bool, true, false, ◌&&◌, ◌||◌, none, some, List, [], ◌∷◌, ◌++◌,
  map, if-elim, ◌==◌, string_eq, ==-refl, exists, Bool-cases, Option-cases, inl, inr, ◌⊎◌,
}
use mathlib.Core.List.{append_assoc, append-nil}
use marvo.Scheduling.{Instant}
use marvo.Sql.{Result, ok, err, committed}
use marvo.Sql.Rows.{find_where}
use marvo.Sql.Keeps.{Sound, Sound-map}
use marvo.Deliveries.{Connector, Delivery}
use marvo.Activities.{Error, storage, Activity, Db}
use marvo.Activities.Input.{ActivityPublish, normalize_publish}
use marvo.Activities.Publish.{
  new_activity, insert_activity, enabled_connectors, new_delivery, insert_delivery,
  queue_deliveries, publish_new, publish_at, publish_normal, publish,
}

-- The tables with more deliveries.
abbrev queued : List Delivery → Db → Db
queued ds db = record db { queue = record db.queue { deliveries = db.queue.deliveries ++ ds } }

-- One delivery for each connector.
abbrev pub fanout : (Connector → String) → Activity → List Connector → List Delivery
fanout draw a connectors = map (λ c. new_delivery (draw c) a c) connectors

queued-queued : (xs ys : List Delivery) (db : Db) → queued ys (queued xs db) ≡ queued (xs ++ ys) db
queued-queued xs ys db =
    ap (λ ds. record db { queue = record db.queue { deliveries = ds } })
      (append_assoc db.queue.deliveries xs ys)

queue_deliveries-queued :
    (draw : Connector → String) (a : Activity) (connectors : List Connector) (db : Db)
    → Sound
        (λ db'. db' ≡ queued (fanout draw a connectors) db)
        (queue_deliveries draw a connectors db)
unfolding queue_deliveries insert_delivery
queue_deliveries-queued draw a [] db =
    ap (λ ds. record db { queue = record db.queue { deliveries = ds } })
      (sym (append-nil db.queue.deliveries))
queue_deliveries-queued draw a (c ∷ rest) db =
    let d = new_delivery (draw c) a c in
    if-elim
      (λ (r : Result Error (Unit {0} × Db)).
        Sound (λ db'. db' ≡ queued (d ∷ fanout draw a rest) db)
          (elim r as (λ _. Result Error (Unit {0} × Db)) [
            | ok (_, s) ↦ queue_deliveries draw a rest s
            | err e ↦ err e
          ]))
      (exists
        (λ e. e.id == d.id || e.activity_id == d.activity_id && e.connector_id == d.connector_id)
        db.queue.deliveries)
      (err storage) (ok (tt, queued (d ∷ []) db)) tt
      (Sound-map (λ db'. db' ≡ queued (fanout draw a rest) (queued (d ∷ []) db))
        (λ db'. db' ≡ queued (d ∷ fanout draw a rest) db)
        (queue_deliveries draw a rest (queued (d ∷ []) db))
        (queue_deliveries-queued draw a rest (queued (d ∷ []) db))
        (λ s e. e ∙ queued-queued (d ∷ []) (fanout draw a rest) db))

-- The tables with a new activity and its deliveries.
abbrev pub stored : (Connector → String) → Activity → Db → Db
stored draw a db = record {
  activities = db.activities ++ a ∷ [];
  queue = record db.queue {
    deliveries = db.queue.deliveries ++ fanout draw a (enabled_connectors db);
  };
}

-- What a transaction that publishes a new activity may come to.
abbrev Publishes :
    (Connector → String) → Activity → Instant → Db → Result Error ((Activity × Bool) × Db) → Type 0
Publishes draw a now db (err e) = Unit
Publishes draw a now db (ok (out, db')) =
    (out ≡ (record a { created_at = now }, true)) × (db' ≡ stored draw a db)

finish-Publishes :
    (draw : Connector → String) (a : Activity) (now : Instant) (db : Db)
    (r : Result Error (Unit {0} × Db))
    → Sound (λ db'. db' ≡ stored draw a db) r
    → Publishes draw a now db (elim r as (λ _. Result Error ((Activity × Bool) × Db)) [
      | ok (_, s) ↦ ok ((record a { created_at = now }, true), s)
      | err e ↦ err e
    ])
finish-Publishes draw a now db (ok (_, s)) h = (refl, h)
finish-Publishes draw a now db (err e) h = tt

publish_new-Publishes :
    (draw : Connector → String) (a : Activity) (now : Instant) (db : Db)
    → Publishes draw a now db (publish_new draw a now db)
unfolding publish_new insert_activity enabled_connectors
publish_new-Publishes draw a now db =
    let inserted = record db { activities = db.activities ++ a ∷ [] } in
    let rest : Db → Result Error ((Activity × Bool) × Db) = λ s.
      elim (queue_deliveries draw a (enabled_connectors s) s)
        as (λ _. Result Error ((Activity × Bool) × Db)) [
          | ok (_, t) ↦ ok ((record a { created_at = now }, true), t)
          | err e ↦ err e
        ] in
    if-elim
      (λ (r : Result Error (Unit {0} × Db)).
        Publishes draw a now db (elim r as (λ _. Result Error ((Activity × Bool) × Db)) [
          | ok (_, s) ↦ rest s
          | err e ↦ err e
        ]))
      (exists (λ b. b.id == a.id || b.dedupe_key == a.dedupe_key) db.activities) (err storage)
      (ok (tt, inserted)) tt
      (finish-Publishes draw a now db
        (queue_deliveries draw a (enabled_connectors inserted) inserted)
        (queue_deliveries-queued draw a (enabled_connectors inserted) inserted))

committed-Publishes :
    (draw : Connector → String) (a b : Activity) (fresh : Bool) (now : Instant) (db db' : Db)
    (r : Result Error ((Activity × Bool) × Db))
    → Publishes draw a now db r
    → committed db r ≡ (ok (b, fresh), db')
    → (fresh ≡ true) × (b ≡ record a { created_at = now }) × (db' ≡ stored draw a db)
committed-Publishes draw a b fresh now db db' (err e) h k =
    cc (ap (λ (out : Result Error (Activity × Bool) × Db). out.0) k)
committed-Publishes draw a b fresh now db db' (ok (out, s)) h k =
    let same : out ≡ (b, fresh) =
      cc (ap (λ (out : Result Error (Activity × Bool) × Db). out.0) k) in
    let value = sym same ∙ h.0 in
    (
      ap (λ (p : Activity × Bool). p.1) value,
      ap (λ (p : Activity × Bool). p.0) value,
      sym (ap (λ (out : Result Error (Activity × Bool) × Db). out.1) k) ∙ h.1,
    )

existing_lem :
    (b a : Activity) (fresh : Bool) (db db' : Db)
    → ◌≡◌ {A = Result Error (Activity × Bool) × Db} (ok (b, false), db) (ok (a, fresh), db')
    → (some b ≡ some a) × (fresh ≡ false) × (db' ≡ db)
existing_lem b a fresh db db' e =
    let value : (b, false) ≡ (a, fresh) =
      cc (ap (λ (out : Result Error (Activity × Bool) × Db). out.0) e) in
    (
      ap (λ (p : Activity × Bool). some p.0) value,
      sym (ap (λ (p : Activity × Bool). p.1) value),
      sym (ap (λ (out : Result Error (Activity × Bool) × Db). out.1) e),
    )

-- What Publish stores of an input that is accepted, where it returns no error. If an activity has the same key it is
-- returned, as not new, and nothing changes. Otherwise the tables have one activity more, with the input's fields and
-- neither read nor answered, and after the other deliveries one pending delivery to each enabled connector, in the
-- order of the connectors, due at once; nothing else changes, and the activity is returned as new.
pub publish-stored :
    (digest : ActivityPublish → String) (draw : Connector → String) (id : String) (now : Instant)
    (input accepted : ActivityPublish) (a : Activity) (fresh : Bool) (db db' : Db)
    → normalize_publish input ≡ ok accepted
    → publish digest draw id now input db ≡ (ok (a, fresh), db')
    → ((find_where (λ b. b.dedupe_key == digest accepted) db.activities ≡ some a)
        × (fresh ≡ false)
        × (db' ≡ db))
      ⊎ ((find_where (λ b. b.dedupe_key == digest accepted) db.activities ≡ none)
          × (fresh ≡ true)
          × (a ≡ record (new_activity accepted (digest accepted) id now) { created_at = now })
          × (db' ≡ stored draw (new_activity accepted (digest accepted) id now) db))
unfolding publish publish_normal publish_at
publish-stored digest draw id now input accepted a fresh db db' n e =
    elim (Option-cases (find_where (λ b. b.dedupe_key == digest accepted) db.activities)) [
      | inl missing ↦
          let row = new_activity accepted (digest accepted) id now in
          let (new, value, tables) =
            committed-Publishes draw row a fresh now db db' (publish_new draw row now db)
              (publish_new-Publishes draw row now db) (rw (n, missing) at e) in
          inr (missing, new, value, tables)
      | inr (b, found) ↦
          let (kept, old, same) = existing_lem b a fresh db db' (rw (n, found) at e) in
          inl (found ∙ kept, old, same)
    ]

found_again :
    (digest : ActivityPublish → String) (draw : Connector → String) (id : String) (now : Instant)
    (input accepted : ActivityPublish) (b : Activity) (db : Db)
    → normalize_publish input ≡ ok accepted
    → find_where (λ a. a.dedupe_key == digest accepted) db.activities ≡ some b
    → publish digest draw id now input db ≡ (ok (b, false), db)
unfolding publish publish_normal publish_at
found_again digest draw id now input accepted b db n found = rw (n, found) refl

find_where_last :
    (p : Activity → Bool) (rows : List Activity) (a : Activity)
    → find_where p rows ≡ none
    → p a ≡ true
    → find_where p (rows ++ a ∷ []) ≡ some a
unfolding find_where
find_where_last p [] a h k = rw k refl
find_where_last p (b ∷ rows) a h k = elim (Bool-cases (p b)) [
  | inl e ↦ cc (rw e at h)
  | inr e ↦ rw e (find_where_last p rows a (rw e at h) k)
]

-- Publishing is idempotent: if Publish has accepted an input and returned an activity, a later Publish of an input that
-- is the same when it is normalized returns the activity with the same id, as not new, and changes nothing.
pub publish_twice :
    (digest : ActivityPublish → String) (draw other_draw : Connector → String)
    (id other_id : String) (now later : Instant) (input again accepted : ActivityPublish)
    (a : Activity) (fresh : Bool) (db db' : Db)
    → normalize_publish input ≡ ok accepted
    → normalize_publish again ≡ ok accepted
    → publish digest draw id now input db ≡ (ok (a, fresh), db')
    → (b : Activity) × (publish digest other_draw other_id later again db' ≡ (ok (b, false), db'))
      × (b.id ≡ a.id)
publish_twice digest draw other_draw id other_id now later input again accepted a fresh db db' n m
      e =
    elim (publish-stored digest draw id now input accepted a fresh db db' n e) [
      | inl (found, old, same) ↦ (
        a,
        rw same (found_again digest other_draw other_id later again accepted a db m found),
        refl,
      )
      | inr (missing, new, value, tables) ↦
          let row = new_activity accepted (digest accepted) id now in
          (
            row,
            rw tables (
                found_again digest other_draw other_id later again accepted row (stored draw row db)
                  m
                  (find_where_last (λ b. b.dedupe_key == digest accepted) db.activities row missing
                    (==-refl (digest accepted)))),
            sym (ap (λ (x : Activity). x.id) value),
          )
    ]
