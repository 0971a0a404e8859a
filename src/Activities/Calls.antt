-- ===== src/Activities/Calls.antt =====
-- The calls of the store of activities, in any order.
use marvo.Base.{String, List, [], ◌∷◌}
use marvo.Scheduling.{Instant}
use marvo.Deliveries.{Connector}
use marvo.Activities.{Db}
use marvo.Activities.Input.{ActivityPublish, normalize_publish}
use marvo.Activities.Publish.{publish}
use marvo.Activities.Reply.{
  ActivityReply, begin_reply, complete_reply, cancel_reply, detach_reply_session,
}
use marvo.Activities.Feed.{mark_read, delete}
use marvo.Activities.Lasting.{
  Lasts, publish-Keeps, begin_reply-Keeps, complete_reply-Keeps, cancel_reply-Keeps,
  detach_reply_session-Keeps, mark_read-Keeps, delete-Keeps,
}
use marvo.Activities.Coherent.{AllCoherent, Anything, AllCoherent-Lasts}

-- The calls of the store.
pub data Call : Type 0 where
  publishing : String → (Connector → String) → Instant → ActivityPublish → Call
  beginning : String → ActivityReply → Instant → Call
  completing : String → String → Instant → Call
  cancelling : String → String → Call
  detaching : String → Call
  marking : List String → Instant → Call
  deleting : String → Call

-- The tables after a call.
abbrev pub after_call : (ActivityPublish → String) → Call → Db → Db
after_call digest (publishing id draw now input) db = (publish digest draw id now input db).1
after_call digest (beginning id r now) db = (begin_reply id r now db).1
after_call digest (completing id session now) db = (complete_reply id session now db).1
after_call digest (cancelling id session) db = (cancel_reply id session db).1
after_call digest (detaching session) db = (detach_reply_session session db).1
after_call digest (marking ids now) db = (mark_read ids now db).1
after_call digest (deleting id) db = (delete id db).1

abbrev pub after_calls : (ActivityPublish → String) → List Call → Db → Db
after_calls digest [] db = db
after_calls digest (call ∷ rest) db = after_calls digest rest (after_call digest call db)

-- Nothing is asked of a call but of what it deletes.
abbrev pub Permits : (String → Type 0) → Call → Type 0
Permits May (deleting id) = May id
Permits May _ = Unit

abbrev pub PermitsAll : (String → Type 0) → List Call → Type 0
PermitsAll May [] = Unit
PermitsAll May (call ∷ rest) = Permits May call × PermitsAll May rest

module _ (May : String → Type 0) (I : Db → Type 0) (l : Lasts May I)
    (digest : ActivityPublish → String) where
  after_call-Keeps :
      (call : Call) (db : Db) → Permits May call → I db → I (after_call digest call db)
  unfolding publish
  after_call-Keeps (publishing id draw now input) db may c =
      publish-Keeps May I l digest draw id now (normalize_publish input) db c
  after_call-Keeps (beginning id r now) db may c = begin_reply-Keeps May I l id r now db c
  after_call-Keeps (completing id session now) db may c =
      complete_reply-Keeps May I l id session now db c
  after_call-Keeps (cancelling id session) db may c = cancel_reply-Keeps May I l id session db c
  after_call-Keeps (detaching session) db may c = detach_reply_session-Keeps May I l session db c
  after_call-Keeps (marking ids now) db may c = mark_read-Keeps May I l ids now db c
  after_call-Keeps (deleting id) db may c = delete-Keeps May I l id db may c

  pub after_calls-Keeps :
      (calls : List Call) (db : Db) → PermitsAll May calls → I db → I (after_calls digest calls db)
  after_calls-Keeps [] db may c = c
  after_calls-Keeps (call ∷ rest) db may c =
      after_calls-Keeps rest (after_call digest call db) may.1 (after_call-Keeps call db may.0 c)

permitted : (calls : List Call) → PermitsAll Anything calls
permitted [] = tt
permitted (publishing id draw now input ∷ rest) = (tt, permitted rest)
permitted (beginning id r now ∷ rest) = (tt, permitted rest)
permitted (completing id session now ∷ rest) = (tt, permitted rest)
permitted (cancelling id session ∷ rest) = (tt, permitted rest)
permitted (detaching session ∷ rest) = (tt, permitted rest)
permitted (marking ids now ∷ rest) = (tt, permitted rest)
permitted (deleting id ∷ rest) = (tt, permitted rest)

-- Whatever calls of the store are made, in whatever order, an answered activity is reserved for nobody, one that
-- is not answered has a time of reservation exactly if it has a session, and without an answer or a session no
-- response is kept, if all this holds at the start.
pub after_calls-Coherent :
    (digest : ActivityPublish → String) (calls : List Call) (db : Db)
    → AllCoherent db
    → AllCoherent (after_calls digest calls db)
after_calls-Coherent digest calls db c =
    after_calls-Keeps Anything AllCoherent AllCoherent-Lasts digest calls db (permitted calls) c
