-- ===== src/Collab/Hub/Delivery.antt =====
-- What a pass over a set of clients does to their objects, and the broadcasts.
use marvo.Base.{
  String, ◌≡◌, refl, ◌∙◌, Bool, false, not, ◌&&◌, Option, none, some, [], ◌∷◌, arith, if◌then◌else◌,
  ◌==◌, string_eq, nat_eq, lookup, IsUnique, text_iff,
}
use marvo.Collab.Ring.{Payload, PollClient, push}
use marvo.Collab.Hub.{
  Pointer, Heap, Clients, Hub, subs_of, update, for_each, broadcast_all, push_unless,
  broadcast_to_note,
}
use marvo.Collab.Hub.Routes.{subscriber}
use marvo.Collab.Hub.Invariant.{IsConsistent}

-- Whether the set has the pointer `q` under `id`.
abbrev pub points : Option Pointer → Pointer → Bool
points none q = false
points (some p) q = p == q

-- Each pointer of the set stands under the id of its object.
abbrev pub Owned : Heap → Clients → Type 0
Owned objs set = (i : String) (p : Pointer) → lookup i set ≡ some p → (objs p).id ≡ i

module _ (f : String → PollClient → PollClient)
    (keeps_id : (i : String) (c : PollClient) → (f i c).id ≡ c.id) where
  update-Owned :
      (objs : Heap) (set : Clients) (i : String) (p : Pointer)
      → Owned objs set
      → Owned (update objs p (f i (objs p))) set
  update-Owned objs set i p h j q e = ground (arith, h j q e, keeps_id i (objs p))

  -- A pass over a set of distinct clients applies `f` once to each object of the set, and to no other.
  pub for_each_lem :
      (set : Clients) (objs : Heap) (q : Pointer)
      → IsUnique set
      → Owned objs set
      → for_each f set objs q
        ≡ (if points (lookup (objs q).id set) q then f (objs q).id (objs q) else objs q)
  unfolding for_each lookup
  for_each_lem [] objs q u h = refl
  for_each_lem ((i, p) ∷ set) objs q u h =
      let own : (objs p).id ≡ i = ground (arith, h i p, text_iff i i) in
      let tail : Owned objs set = λ j r e. ground (arith, h j r, u.0, text_iff i j) in
      for_each_lem set (update objs p (f i (objs p))) q u.1 (update-Owned objs set i p tail)
      ∙ ground (arith, own, u.0, text_iff i (objs q).id, keeps_id i (objs p))

-- The members of a set are registered clients.
pub registered :
    {h : Hub} (c : IsConsistent h) (t i : String) (p : Pointer)
    → subscriber h.note_poll_subs t i ≡ some p
    → lookup i h.poll_clients ≡ some p
registered {h} c t i p e = ground (arith, c.routed t i)

pub IsConsistent-Owned-set :
    {h : Hub} → IsConsistent h → (t : String) → Owned h.objects (subs_of h.note_poll_subs t)
IsConsistent-Owned-set c t i p e = c.owned i p (registered c t i p e)

pub push-keeps_id : (msg : Payload) (c : PollClient) → (push msg c).id ≡ c.id
unfolding push
push-keeps_id msg c = refl

pub push_unless-keeps_id :
    (sender : String) (msg : Payload) (i : String) (c : PollClient)
    → (push_unless sender msg i c).id ≡ c.id
push_unless-keeps_id sender msg i c = ground (arith, push-keeps_id msg c)

-- In a hub whose map of clients and subscriber sets agree, a broadcast to a note pushes the message once to every
-- registered client that follows the note, except to the sender, and leaves every other registered client as it was;
-- a hub that is closing sends nothing.
pub broadcast_to_note_lem :
    {h : Hub}
    → IsConsistent h
    → (title sender : String) (msg : Payload) (id : String) (p : Pointer)
    → lookup id h.poll_clients ≡ some p
    → (broadcast_to_note title sender msg h).objects p ≡ (
        if not h.closing
          && (not (title == "") && ((h.objects p).note_title == title && not (id == sender)))
        then push msg (h.objects p)
        else h.objects p)
unfolding broadcast_to_note
broadcast_to_note_lem {h} c title sender msg id p e =
    let all =
      for_each_lem (push_unless sender msg) (push_unless-keeps_id sender msg)
        (subs_of h.note_poll_subs title) h.objects p (c.unique_sets title)
        (IsConsistent-Owned-set c title) in
    ground (arith, all, c.owned id p e, c.routed title id, e)

-- A broadcast to all pushes the message once to every registered client of an open hub.
pub broadcast_all_lem :
    {h : Hub}
    → IsConsistent h
    → (msg : Payload) (id : String) (p : Pointer) → lookup id h.poll_clients ≡ some p
    → (broadcast_all msg h).objects p ≡ (if h.closing then h.objects p else push msg (h.objects p))
unfolding broadcast_all
broadcast_all_lem {h} c msg id p e =
    let all =
      for_each_lem (λ i. push msg) (λ i. push-keeps_id msg) h.poll_clients h.objects p
        c.unique_clients c.owned in
    ground (arith, all, c.owned id p e, e)
