-- ===== src/Activities/Coherent.antt =====
-- The states of a reply: open, reserved for a session, and answered.
use marvo.Base.{
  ◌≡◌, refl, arith, String, true, false, not, ◌&&◌, ◌||◌, List, [], ◌∷◌, if◌then◌else◌, if-elim,
  ◌==◌, string_eq, nat_eq, exists, length, is_some, Bool-cases, inl, inr,
}
use marvo.Scheduling.{Instant}
use marvo.Sql.Rows.{All, All-append, All-update_where, All-keep}
use marvo.Sql.Keeps.{Sound, Keeps}
use marvo.Deliveries.{Delivery}
use marvo.Activities.Lasting.{Lasts}
use marvo.Activities.{Activity, Db, has_id}
use marvo.Activities.Input.{ActivityPublish}
use marvo.Activities.Publish.{new_activity, insert_activity, insert_delivery}
use marvo.Activities.Reply.{
  ActivityReply, reserved, is_open, is_reserved_by, answered, released, detached,
}
use marvo.Activities.Feed.{deleted, read}

-- An answered activity is reserved for nobody; one that is not answered has a time of reservation exactly if it has
-- a session, and without a session no response is kept.
pub record IsCoherent (a : Activity) : Type 0 where
  pub final : (not (is_some a.responded_at) || not (is_some a.reply_reserved_at)) ≡ true
  pub held :
      (is_some a.responded_at
        || (if a.reply_session_id == ""
            then not (is_some a.reply_reserved_at)
            else is_some a.reply_reserved_at))
      ≡ true
  pub blank :
      (is_some a.responded_at
        || not (a.reply_session_id == "")
        || a.response_text == "" && length a.response_choices == 0)
      ≡ true

abbrev pub AllCoherent : Db → Type 0
AllCoherent db = All IsCoherent db.activities

new_activity-IsCoherent :
    (input : ActivityPublish) (key id : String) (now : Instant)
    → IsCoherent (new_activity input key id now)
new_activity-IsCoherent input key id now = record { final = refl; held = refl; blank = refl }

reserved-IsCoherent :
    (now : Instant) (r : ActivityReply) (choices : List String) (a : Activity)
    → is_some a.responded_at ≡ false
    → (r.session_id == "") ≡ false
    → IsCoherent (reserved now r choices a)
reserved-IsCoherent now r choices a h k = ground arith

answered-IsCoherent : (now : Instant) (a : Activity) → IsCoherent (answered now a)
answered-IsCoherent now a = record { final = refl; held = refl; blank = refl }

released-IsCoherent : (a : Activity) → is_some a.responded_at ≡ false → IsCoherent (released a)
released-IsCoherent a h = ground arith

detached-IsCoherent : (a : Activity) → IsCoherent a → IsCoherent (detached a)
detached-IsCoherent a h = record {
  final = ground (arith, h.final);
  held = ground (arith, h.held);
  blank = elim (Bool-cases (is_some a.responded_at)) [ inl e ↦ simp e refl | inr e ↦ simp e refl ];
}

read-IsCoherent : (now : Instant) (a : Activity) → IsCoherent a → IsCoherent (read now a)
read-IsCoherent now a h = record { final = h.final; held = h.held; blank = h.blank }

insert_activity-Coherent : (a : Activity) → IsCoherent a → Keeps AllCoherent (insert_activity a)
unfolding insert_activity
insert_activity-Coherent a h db c =
    if-elim (Sound AllCoherent)
      (exists (λ b. b.id == a.id || b.dedupe_key == a.dedupe_key) db.activities) _ _ tt
      (All-append IsCoherent db.activities (a ∷ []) c (h, tt))

insert_delivery-Coherent : (d : Delivery) → Keeps AllCoherent (insert_delivery d)
unfolding insert_delivery
insert_delivery-Coherent d db c =
    if-elim (Sound AllCoherent)
      (exists
        (λ e. e.id == d.id || e.activity_id == d.activity_id && e.connector_id == d.connector_id)
        db.queue.deliveries)
      _ _ tt c

abbrev pub Anything : String → Type 0
Anything id = Unit {0}

pub AllCoherent-Lasts : Lasts Anything AllCoherent
unfolding deleted
AllCoherent-Lasts = record {
  inserting =
      λ input key id now. insert_activity-Coherent _ (new_activity-IsCoherent input key id now);
  queueing = insert_delivery-Coherent;
  reserving = λ id now r choices h db c.
      All-update_where IsCoherent (is_open id) (reserved now r choices) db.activities
        (λ b fits k. reserved-IsCoherent now r choices b (ground (arith, fits)) h) c;
  answering = λ id session now db c.
      All-update_where IsCoherent (is_reserved_by id session) (answered now) db.activities
        (λ a fits h. answered-IsCoherent now a) c;
  releasing = λ id session db c.
      All-update_where IsCoherent (is_reserved_by id session) released db.activities
        (λ a fits h. released-IsCoherent a (ground (arith, fits))) c;
  detaching = λ session db c.
      All-update_where IsCoherent (λ a. a.reply_session_id == session) detached db.activities
        (λ a fits h. detached-IsCoherent a h) c;
  reading = λ id now db c.
      All-update_where IsCoherent (has_id id) (read now) db.activities
        (λ a fits h. read-IsCoherent now a h) c;
  deleting = λ id db may c. All-keep IsCoherent (λ a. not (has_id id a)) db.activities c;
}
