-- ===== src/Activities/Replies.antt =====
-- internal/store/activity.go: answers, and replies that are being made.
use marvo.Base.{
  ◌≡◌, ◌≤◌, ◌<◌, refl, ap, arith, String, Bool, true, false, not, ◌&&◌, ◌||◌, Option, none, some,
  List, [], ◌∷◌, if◌then◌else◌, if-elim, ◌==◌, string_eq, nat_eq, text_iff, exists, length, is_some,
  Bool-cases, inl, inr,
}
use marvo.Scheduling.{Instant}
use marvo.Sql.{Result, ok}
use marvo.Sql.Rows.{
  update_where, find_where, count_where, find_where-updated, find_where-append, find_where-keep,
  find_where-update_where, count_where_mono,
}
use marvo.Sql.Keeps.{Sound, Keeps}
use marvo.Sql.Fails.{
  Refused, is_err, lift_fails, require_fails, failed_commit, commit-ok, Sound-lift, Sound-require,
}
use marvo.Schedules.Tables.{valid_activity_id}
use marvo.Deliveries.{Delivery}
use marvo.Activities.{Error, Activity, Db, is_replying, has_id, scan_activity}
use marvo.Activities.Input.{ActivityPublish, normalize_response_choices}
use marvo.Activities.Publish.{insert_activity, insert_delivery}
use marvo.Activities.Reply.{
  ActivityReply, trimmed_reply, is_reply, reserved, is_open, update_activities, reserve,
  begin_reply_tx, begin_reply, is_reserved_by, detached,
}
use marvo.Activities.Feed.{read, deleted}
use marvo.Activities.Lasting.{Lasts}
use marvo.Activities.Calls.{Call, after_calls, PermitsAll, after_calls-Keeps}

-- The row is there with the answer of `a`.
abbrev pub HasAnswer : Activity → Option Activity → Type 0
HasAnswer a none = ⊥
HasAnswer a (some b) =
    (is_some b.responded_at ≡ true)
    × (b.responded_at ≡ a.responded_at)
    × (b.response_text ≡ a.response_text)
    × (b.response_choices ≡ a.response_choices)

abbrev pub Other : String → String → Type 0
Other id deleted_id = (id == deleted_id) ≡ false

module _ (id : String) (a : Activity) where
  abbrev KeepsAnswer : Db → Type 0
  KeepsAnswer db = HasAnswer a (find_where (has_id id) db.activities)

  -- The row that has the answer.
  row_of :
      (o : Option Activity) → HasAnswer a o → (b : Activity) × (o ≡ some b) × HasAnswer a (some b)
  row_of none h = elim h [ ]
  row_of (some b) h = (b, refl, h)

  update-Keeps :
      (p : Activity → Bool) (f : Activity → Activity)
      → ((b : Activity) → (f b).id ≡ b.id)
      → ((b : Activity) → HasAnswer a (some b) → HasAnswer a (some (if p b then f b else b)))
      → Keeps KeepsAnswer (update_activities p f)
  update-Keeps p f same h db c =
      let (b, found, k) = row_of (find_where (has_id id) db.activities) c in
      let now_found =
        find_where-updated (has_id id) p f db.activities b
          (λ x. ap (λ (i : String). i == id) (same x)) found in
      rw now_found (h b k)

  insert_activity-Keeps : (x : Activity) → Keeps KeepsAnswer (insert_activity x)
  unfolding insert_activity
  insert_activity-Keeps x db c =
      let (b, found, k) = row_of (find_where (has_id id) db.activities) c in
      if-elim (Sound KeepsAnswer)
        (exists (λ y. y.id == x.id || y.dedupe_key == x.dedupe_key) db.activities) _ _ tt
        (rw (find_where-append (has_id id) db.activities (x ∷ []) b found) k)

  insert_delivery-Keeps : (d : Delivery) → Keeps KeepsAnswer (insert_delivery d)
  unfolding insert_delivery
  insert_delivery-Keeps d db c =
      if-elim (Sound KeepsAnswer)
        (exists
          (λ e. e.id == d.id || e.activity_id == d.activity_id && e.connector_id == d.connector_id)
          db.queue.deliveries)
        _ _ tt c

  deleted-Keeps :
      (other : String) (db : Db) → Other id other → KeepsAnswer db → KeepsAnswer (deleted other db)
  unfolding deleted
  deleted-Keeps other db may c =
      let (b, found, k) = row_of (find_where (has_id id) db.activities) c in
      rw
        (find_where-keep (has_id id) (λ x. not (has_id other x)) db.activities b
          (λ y fits.
            ground (arith, fits, may, text_iff y.id id, text_iff y.id other, text_iff id other))
          found)
        k

  answer-Lasts : Lasts (Other id) KeepsAnswer
  answer-Lasts = record {
    inserting = λ input key x now. insert_activity-Keeps _;
    queueing = insert_delivery-Keeps;
    reserving = λ x now r choices h.
        update-Keeps _ _ (λ b. refl)
          (λ b k. let closed : is_open x b ≡ false = ground (arith, k.0) in rw closed k);
    answering = λ x session now.
        update-Keeps _ _ (λ b. refl)
          (λ b k.
            let closed : is_reserved_by x session b ≡ false = ground (arith, k.0) in rw closed k);
    releasing = λ x session.
        update-Keeps _ _ (λ b. refl)
          (λ b k.
            let closed : is_reserved_by x session b ≡ false = ground (arith, k.0) in rw closed k);
    detaching = λ session.
        update-Keeps _ _ (λ b. refl)
          (λ b k.
            if-elim (λ (y : Activity). HasAnswer a (some y)) (b.reply_session_id == session)
              (detached b) b (rw k.0 (refl, k.1, k.2, k.3)) k);
    reading = λ x now.
        update-Keeps _ _ (λ b. refl)
          (λ b k. if-elim (λ (y : Activity). HasAnswer a (some y)) (b.id == x) (read now b) b k k);
    deleting = deleted-Keeps;
  }

-- An answer is final: whatever calls of the store follow, an activity that was answered keeps the time, the text and
-- the choices of its answer, unless it is deleted itself.
pub answer_final :
    (digest : ActivityPublish → String) (calls : List Call) (id : String) (a : Activity) (db : Db)
    → PermitsAll (Other id) calls
    → find_where (has_id id) db.activities ≡ some a
    → is_some a.responded_at ≡ true
    → HasAnswer a (find_where (has_id id) (after_calls digest calls db).activities)
answer_final digest calls id a db may found h =
    after_calls-Keeps (Other id) (KeepsAnswer id a) (answer-Lasts id a) digest calls db may
      (rw found (h, refl, refl, refl))

-- The row is answered, or a reply to it is being made; no row at all counts as taken.
abbrev taken : Option Activity → Bool
taken none = true
taken (some a) = is_some a.responded_at || is_replying a

abbrev Taken : String → Db → Type 0
Taken id db = taken (find_where (has_id id) db.activities) ≡ true

Taken-fails :
    (id : String) (r : ActivityReply) (now : Instant) (db : Db)
    → Taken id db
    → is_err (begin_reply_tx id r now db) ≡ true
unfolding begin_reply_tx scan_activity
Taken-fails id r now db t =
    lift_fails (scan_activity (find_where (has_id id) db.activities)) _ db λ a found.
      require_fails (not (is_some a.responded_at || is_replying a)) Error.responded _ db
        (free (find_where (has_id id) db.activities) a t found)
  where
    free :
        (o : Option Activity) (a : Activity)
        → taken o ≡ true
        → scan_activity o ≡ ok a
        → not (is_some a.responded_at || is_replying a) ≡ false
    free none a t e = cc e
    free (some b) a t e = let same : b ≡ a = cc e in rw (← same) (rw t refl)

Taken-Refused :
    (id : String) (r : ActivityReply) (now : Instant) (db : Db)
    → Taken id db
    → Refused (begin_reply id r now db) db
unfolding begin_reply
Taken-Refused id r now db t =
    if-elim (λ (out : Result Error Activity × Db). Refused out db) (not (valid_activity_id id)) _ _
      (refl, refl)
      (if-elim (λ (out : Result Error Activity × Db). Refused out db)
        (not (is_reply (trimmed_reply r))) _ _ (refl, refl)
        (failed_commit (begin_reply_tx id (trimmed_reply r) now) db
          (Taken-fails id (trimmed_reply r) now db t)))

reserve-Taken :
    (id : String) (r : ActivityReply) (now : Instant) (a : Activity) (choices : List String)
    (db : Db)
    → (r.session_id == "") ≡ false
    → count_where (has_id id) db.activities ≤ 1
    → Sound (Taken id) (reserve id r now a choices db)
unfolding reserve
reserve-Taken id r now a choices db h once =
    if-elim (Sound (Taken id)) (r.text == "" && length choices == 0) _ _ tt
      (elim (Bool-cases (count_where (is_open id) db.activities == 0)) [
        | inl e ↦ rw e tt
        | inr e ↦ rw e (
            found_taken
              (find_where (has_id id)
                (update_where (is_open id) (reserved now r choices) db.activities))
              refl (ground (arith, e)))
      ])
  where
    found_taken :
        (o : Option Activity)
        → find_where (has_id id) (update_where (is_open id) (reserved now r choices) db.activities)
          ≡ o
        → 0 < count_where (is_open id) db.activities
        → taken o ≡ true
    found_taken none e there = refl
    found_taken (some y) e there =
        let sub : (x : Activity) → is_open id x ≡ true → has_id id x ≡ true =
          λ x fits. ground (arith, fits) in
        let few = count_where_mono (is_open id) (has_id id) db.activities sub in
        let (x, fits, same) =
          find_where-update_where (has_id id) (is_open id) (reserved now r choices) db.activities y
            sub (λ x. refl) once (omega (arith, few, there, once)) e in
        rw (← same) (ground (arith, fits, h))

-- One reply at a time: after BeginReply has reserved an activity, every further BeginReply for it is refused and
-- changes nothing, whatever the reply and the session, where no two activities have the same id.
pub begin_reply_once :
    (id : String) (r other : ActivityReply) (now later : Instant) (a : Activity) (db db' : Db)
    → count_where (has_id id) db.activities ≤ 1
    → begin_reply id r now db ≡ (ok a, db')
    → Refused (begin_reply id other later db') db'
unfolding begin_reply begin_reply_tx
begin_reply_once id r other now later a db db' once e =
    Taken-Refused id other later db' (elim (Bool-cases (not (valid_activity_id id))) [
      | inl bad ↦ cc (ap (λ (out : Result Error Activity × Db). out.0) (rw bad at e))
      | inr valid ↦ elim (Bool-cases (not (is_reply (trimmed_reply r)))) [
        | inl bad ↦ cc (ap (λ (out : Result Error Activity × Db). out.0) (rw (valid, bad) at e))
        | inr good ↦
            commit-ok (Taken id) (begin_reply_tx id (trimmed_reply r) now) a db db'
              (Sound-lift (Taken id) (scan_activity (find_where (has_id id) db.activities)) _ db
                λ b found.
                  Sound-require (Taken id) (not (is_some b.responded_at || is_replying b))
                    Error.responded _ db
                    (Sound-lift (Taken id) (normalize_response_choices b (trimmed_reply r).choices)
                      _ db
                      λ choices ok_choices.
                        reserve-Taken id (trimmed_reply r) now b choices db (ground (arith, good))
                          once))
              (rw (valid, good) at e)
      ]
    ])
