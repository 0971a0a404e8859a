-- ===== src/Collab/Hub/Reach.antt =====
-- The hub under any sequence of its operations.
use marvo.Base.{
  String, ◌≡◌, ◌≢◌, refl, ◌∙◌, Option, none, some, arith, if-elim, string_eq, lookup, inl, inr,
  Option-cases,
}
use marvo.Collab.Ring.{Payload, PollClient, push}
use marvo.Collab.Hub.{
  Pointer, Heap, Hub, new_hub, close, register_poll, register_poll_with_id, unregister_poll,
  poll_subscribe, poll_unsubscribe, move_note, send_to_poll_client, send_found, broadcast_all,
  broadcast_to_note, update, push_unless, subs_of,
}
use marvo.Collab.Hub.Invariant.{
  IsConsistent, new_hub-IsConsistent, close-IsConsistent, register_poll-IsConsistent,
  register_poll_with_id-IsConsistent,
}
use marvo.Collab.Hub.Subscriptions.{
  unregister_poll-IsConsistent, poll_subscribe-IsConsistent, poll_unsubscribe-IsConsistent,
}
use marvo.Collab.Hub.Delivery.{
  for_each_lem, IsConsistent-Owned-set, push-keeps_id, push_unless-keeps_id,
}
use marvo.Collab.Hub.Rename.{move_note-IsConsistent}

-- The objects keep their ids and titles.
abbrev SameLabels : Heap → Heap → Type 0
SameLabels a b = (q : Pointer) → ((b q).id ≡ (a q).id) × ((b q).note_title ≡ (a q).note_title)

relabelled-IsConsistent :
    {h : Hub} (objs : Heap)
    → SameLabels h.objects objs
    → IsConsistent h
    → IsConsistent (record h { objects = objs })
relabelled-IsConsistent {h} objs same c = record {
  allocated = c.allocated;
  owned = λ id p e. (same p).0 ∙ c.owned id p e;
  routed = λ t id. elim (Option-cases (lookup id h.poll_clients)) [
    | inl e ↦ ground (arith, c.routed t id, e)
    | inr (p, e) ↦ ground (arith, c.routed t id, e, (same p).1)
  ];
  unique_clients = c.unique_clients;
  unique_sets = c.unique_sets;
  none_empty = c.none_empty;
}

push-SameLabels :
    (msg : Payload) (c : PollClient)
    → ((push msg c).id ≡ c.id) × ((push msg c).note_title ≡ c.note_title)
unfolding push
push-SameLabels msg c = (refl, refl)

send_found-IsConsistent :
    {h : Hub} (o : Option Pointer) (msg : Payload)
    → IsConsistent h
    → IsConsistent (send_found o msg h)
unfolding send_found
send_found-IsConsistent none msg c = c
send_found-IsConsistent {h} (some p) msg c =
    relabelled-IsConsistent (update h.objects p (push msg (h.objects p)))
      (λ q. ground (arith, push-SameLabels msg (h.objects p))) c

pub send_to_poll_client-IsConsistent :
    {h : Hub} (id : String) (msg : Payload)
    → IsConsistent h
    → IsConsistent (send_to_poll_client id msg h)
unfolding send_to_poll_client
send_to_poll_client-IsConsistent {h} id msg c =
    if-elim IsConsistent h.closing _ _ c (send_found-IsConsistent (lookup id h.poll_clients) msg c)

pub broadcast_all-IsConsistent :
    {h : Hub} (msg : Payload) → IsConsistent h → IsConsistent (broadcast_all msg h)
unfolding broadcast_all
broadcast_all-IsConsistent {h} msg c = if-elim IsConsistent h.closing _ _ c (
    relabelled-IsConsistent _
      (λ q. ground (
        arith,
        push-SameLabels msg (h.objects q),
        for_each_lem (λ i. push msg) (λ i. push-keeps_id msg) h.poll_clients h.objects q
            c.unique_clients c.owned,
      ))
      c)

pub broadcast_to_note-IsConsistent :
    {h : Hub} (title sender : String) (msg : Payload)
    → IsConsistent h
    → IsConsistent (broadcast_to_note title sender msg h)
unfolding broadcast_to_note
broadcast_to_note-IsConsistent {h} title sender msg c = if-elim IsConsistent h.closing _ _ c (
    relabelled-IsConsistent _
      (λ q. ground (
        arith,
        push-SameLabels msg (h.objects q),
        for_each_lem (push_unless sender msg) (push_unless-keeps_id sender msg)
            (subs_of h.note_poll_subs title) h.objects q (c.unique_sets title)
            (IsConsistent-Owned-set c title),
      ))
      c)

-- One operation. A drawn id is new (it has 128 random bits), and a note is renamed to another title
-- that is not empty.
pub data Step (h : Hub) : Hub → Type 0 where
  shut_down : Step h (close h)
  register : (id : String) → lookup id h.poll_clients ≡ none → Step h (register_poll (some id) h).0
  draw_failed : Step h (register_poll none h).0
  reconnect : (id : String) → Step h (register_poll_with_id id h).0
  unregister : (id : String) → Step h (unregister_poll id h)
  subscribe : (id title : String) → Step h (poll_subscribe id title h)
  unsubscribe : (id title : String) → Step h (poll_unsubscribe id title h)
  rename : (old new : String) → new ≢ "" → old ≢ new → Step h (move_note old new h)
  send : (id : String) (msg : Payload) → Step h (send_to_poll_client id msg h)
  broadcast : (msg : Payload) → Step h (broadcast_all msg h)
  broadcast_note :
      (title sender : String) (msg : Payload) → Step h (broadcast_to_note title sender msg h)

pub data Reach : Hub → Type 0 where
  start : Reach new_hub
  next : {h k : Hub} → Reach h → Step h k → Reach k

Step-IsConsistent : {h k : Hub} → IsConsistent h → Step h k → IsConsistent k
unfolding register_poll
Step-IsConsistent c shut_down = close-IsConsistent c
Step-IsConsistent c (register id e) = register_poll-IsConsistent id e c
Step-IsConsistent c draw_failed = c
Step-IsConsistent c (reconnect id) = register_poll_with_id-IsConsistent id c
Step-IsConsistent c (unregister id) = unregister_poll-IsConsistent id c
Step-IsConsistent c (subscribe id title) = poll_subscribe-IsConsistent id title c
Step-IsConsistent c (unsubscribe id title) = poll_unsubscribe-IsConsistent id title c
Step-IsConsistent c (rename old new ne dif) = move_note-IsConsistent old new ne dif c
Step-IsConsistent c (send id msg) = send_to_poll_client-IsConsistent id msg c
Step-IsConsistent c (broadcast msg) = broadcast_all-IsConsistent msg c
Step-IsConsistent c (broadcast_note title sender msg) =
    broadcast_to_note-IsConsistent title sender msg c

-- Whatever operations a hub has been through, its two maps agree: a client stands in the set of the
-- note that its object names and in no other, under the pointer of its registration; ids are
-- unique, and no set is kept empty. Drawn ids are taken to be new, and a rename to change the title, to one that
-- is not empty.
pub Reach-IsConsistent : {h : Hub} → Reach h → IsConsistent h
Reach-IsConsistent start = new_hub-IsConsistent
Reach-IsConsistent (next r s) = Step-IsConsistent (Reach-IsConsistent r) s
