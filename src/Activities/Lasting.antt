-- ===== src/Activities/Lasting.antt =====
-- What lasts through every call of the store of activities, if it lasts through each statement.
use marvo.Base.{
  ℕ, ◌≡◌, arith, String, Bool, true, false, not, ◌&&◌, ◌||◌, Option, none, some, List, [], ◌∷◌, ltb,
  if-elim, ◌==◌, string_eq, nat_eq, length, is_some, Bool-cases, inl, inr, trim_space,
}
use marvo.Scheduling.{Instant}
use marvo.Sql.{pure, Result, ok, err, require, lift}
use marvo.Sql.Rows.{find_where, count_where}
use marvo.Sql.Keeps.{Sound, Keeps, Keeps-bind, Keeps-lift, Keeps-require, commit-Keeps}
use marvo.Deliveries.{Connector, Delivery}
use Prim.Native.String.{len}
use marvo.Schedules.Tables.{valid_activity_id}
use marvo.Activities.{invalid_activity, Error, Activity, Db, is_replying, has_id, scan_activity}
use marvo.Activities.Input.{has_line_break, ActivityPublish, normalize_response_choices}
use marvo.Activities.Publish.{
  new_activity, insert_activity, enabled_connectors, insert_delivery, new_delivery,
  queue_deliveries, publish_new, publish_at, publish_normal,
}
use marvo.Activities.Reply.{
  ActivityReply, trimmed_reply, is_reply, reserved, is_open, update_activities, reserve,
  begin_reply_tx, begin_reply, is_reserved_by, answered, complete_reply_tx, complete_reply,
  released, cancel_reply, detached, detach_reply_session,
}
use marvo.Activities.Feed.{deleted, read, mark_each, mark_read, delete}

-- What holds of the tables and lasts through each statement; `May id` is asked of what is deleted.
pub record Lasts (May : String → Type 0) (I : Db → Type 0) : Type 0 where
  pub inserting :
      (input : ActivityPublish) (key id : String) (now : Instant)
      → Keeps I (insert_activity (new_activity input key id now))
  pub queueing : (d : Delivery) → Keeps I (insert_delivery d)
  pub reserving :
      (id : String) (now : Instant) (r : ActivityReply) (choices : List String)
      → (r.session_id == "") ≡ false
      → Keeps I (update_activities (is_open id) (reserved now r choices))
  pub answering :
      (id session : String) (now : Instant)
      → Keeps I (update_activities (is_reserved_by id session) (answered now))
  pub releasing :
      (id session : String) → Keeps I (update_activities (is_reserved_by id session) released)
  pub detaching :
      (session : String) → Keeps I (update_activities (λ a. a.reply_session_id == session) detached)
  pub reading : (id : String) (now : Instant) → Keeps I (update_activities (has_id id) (read now))
  pub deleting : (id : String) (db : Db) → May id → I db → I (deleted id db)

module _ (May : String → Type 0) (I : Db → Type 0) (l : Lasts May I) where
  queue_deliveries-Keeps :
      (draw : Connector → String) (a : Activity) (connectors : List Connector)
      → Keeps I (queue_deliveries draw a connectors)
  unfolding queue_deliveries
  queue_deliveries-Keeps draw a [] db c = c
  queue_deliveries-Keeps draw a (k ∷ rest) db c =
      Keeps-bind I (insert_delivery (new_delivery (draw k) a k)) (λ _. queue_deliveries draw a rest)
        (l.queueing (new_delivery (draw k) a k)) (λ _. queue_deliveries-Keeps draw a rest) db c

  publish_at-Keeps :
      (draw : Connector → String) (input : ActivityPublish) (key id : String) (now : Instant)
      (found : Option Activity)
      → Keeps I (publish_at draw (new_activity input key id now) now found)
  unfolding publish_at publish_new
  publish_at-Keeps draw input key id now (some b) db c = c
  publish_at-Keeps draw input key id now none db c =
      let a = new_activity input key id now in
      Keeps-bind I (insert_activity a) _ (l.inserting input key id now)
        (λ _.
          Keeps-bind I (λ db. ok (enabled_connectors db, db)) _ (λ db c. c)
            λ connectors.
              Keeps-bind I (queue_deliveries draw a connectors)
                (λ _. pure (record a { created_at = now }, true))
                (queue_deliveries-Keeps draw a connectors) λ _ db c. c)
        db c

  pub publish-Keeps :
      (digest : ActivityPublish → String) (draw : Connector → String) (id : String) (now : Instant)
      (input : Result Error ActivityPublish) (db : Db)
      → I db
      → I (publish_normal digest draw id now input db).1
  unfolding publish_normal
  publish-Keeps digest draw id now (err e) db c = c
  publish-Keeps digest draw id now (ok input) db c =
      let found = find_where (λ b. b.dedupe_key == digest input) db.activities in
      commit-Keeps I (publish_at draw (new_activity input (digest input) id now) now found) db
        (publish_at-Keeps draw input (digest input) id now found) c

  reserve-Keeps :
      (id : String) (r : ActivityReply) (now : Instant) (a : Activity) (choices : List String)
      → (r.session_id == "") ≡ false
      → Keeps I (reserve id r now a choices)
  unfolding reserve
  reserve-Keeps id r now a choices h db c =
      if-elim (Sound I) (r.text == "" && length choices == 0) _ _ tt (
        if-elim (Sound I) (count_where (is_open id) db.activities == 0) _ _ tt
          (l.reserving id now r choices h db c))

  begin_reply_tx-Keeps :
      (id : String) (r : ActivityReply) (now : Instant)
      → (r.session_id == "") ≡ false
      → Keeps I (begin_reply_tx id r now)
  unfolding begin_reply_tx
  begin_reply_tx-Keeps id r now h =
      Keeps-bind I (λ db. lift (scan_activity (find_where (has_id id) db.activities)) db) _
        (λ db. Keeps-lift I (scan_activity (find_where (has_id id) db.activities)) db)
        λ a.
          Keeps-bind I (require (not (is_some a.responded_at || is_replying a)) Error.responded) _
            (Keeps-require I (not (is_some a.responded_at || is_replying a)) Error.responded)
            λ _.
              Keeps-bind I (lift (normalize_response_choices a r.choices)) _
                (Keeps-lift I (normalize_response_choices a r.choices))
                λ choices. reserve-Keeps id r now a choices h

  pub begin_reply-Keeps :
      (id : String) (r : ActivityReply) (now : Instant) (db : Db)
      → I db
      → I (begin_reply id r now db).1
  unfolding begin_reply
  begin_reply-Keeps id r now db c =
      if-elim (λ (out : Result Error Activity × Db). I out.1) (not (valid_activity_id id)) _ _ c
        (elim (Bool-cases (not (is_reply (trimmed_reply r)))) [
          | inl e ↦ rw e c
          | inr e ↦ rw e (
              commit-Keeps I (begin_reply_tx id (trimmed_reply r) now) db
                (begin_reply_tx-Keeps id (trimmed_reply r) now (ground (arith, e))) c)
        ])

  pub complete_reply-Keeps :
      (id session : String) (now : Instant) (db : Db)
      → I db
      → I (complete_reply id session now db).1
  unfolding complete_reply complete_reply_tx
  complete_reply-Keeps id session now db c =
      if-elim (λ (out : Result Error Activity × Db). I out.1)
        (valid_activity_id id && not (trim_space session == "")) _ _
        (commit-Keeps I (complete_reply_tx id session now) db
          (λ db c.
            if-elim (Sound I) (count_where (is_reserved_by id session) db.activities == 0) _ _ tt
              (l.answering id session now db c))
          c)
        c

  pub cancel_reply-Keeps : (id session : String) (db : Db) → I db → I (cancel_reply id session db).1
  unfolding cancel_reply
  cancel_reply-Keeps id session db c =
      if-elim (λ (out : Result Error (Unit {0}) × Db). I out.1)
        (valid_activity_id id && not (trim_space session == "")) _ _ (l.releasing id session db c) c

  pub detach_reply_session-Keeps :
      (session : String) (db : Db) → I db → I (detach_reply_session session db).1
  unfolding detach_reply_session
  detach_reply_session-Keeps session db c =
      if-elim (λ (out : Result Error ℕ × Db). I out.1)
        (trim_space session == ""
          || ltb 256 (len (trim_space session))
          || has_line_break (trim_space session))
        (err invalid_activity, db) _ c (l.detaching (trim_space session) db c)

  mark_each-Keeps : (now : Instant) (ids : List String) → Keeps I (mark_each now ids)
  unfolding mark_each
  mark_each-Keeps now [] db c = c
  mark_each-Keeps now (id ∷ rest) db c =
      if-elim (Sound I) (valid_activity_id id) _ _
        (mark_each-Keeps now rest _ (l.reading id now db c)) tt

  pub mark_read-Keeps :
      (ids : List String) (now : Instant) (db : Db) → I db → I (mark_read ids now db).1
  unfolding mark_read
  mark_read-Keeps ids now db c =
      if-elim (λ (out : Result Error (Unit {0}) × Db). I out.1)
        (length ids == 0 || ltb 100 (length ids)) (err invalid_activity, db) _ c
        (commit-Keeps I (mark_each now ids) db (mark_each-Keeps now ids) c)

  pub delete-Keeps : (id : String) (db : Db) → May id → I db → I (delete id db).1
  unfolding delete
  delete-Keeps id db may c =
      if-elim (λ (out : Result Error Bool × Db). I out.1) (valid_activity_id id) _ _
        (l.deleting id db may c) c
