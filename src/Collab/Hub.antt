-- ===== src/Collab/Hub.antt =====
-- internal/collab/hub.go, Hub: the registered polling clients and who follows which note.
-- The maps hold pointers: a client object lives once, in `objects`, and both maps name its address.
-- `Close` closes the channel `done` together with the flag, so `closing` stands for both. Each
-- operation runs under the hub's lock, so it is one step.
pub mod Routes
pub mod Invariant
pub mod Subscriptions
pub mod Delivery
pub mod Rename
pub mod Reach
use marvo.Base.{
  ℕ, suc, ◌+◌, String, Bool, true, false, not, ◌&&◌, ◌||◌, Option, none, some, List, [], ◌∷◌,
  if◌then◌else◌, ◌==◌, string_eq, nat_eq, Map, lookup, insert, erase, is_empty, insert_all, is_some,
  length,
}
use marvo.Collab.Ring.{Payload, ReplayMsg, PollClient, Since, push, replay_since, new_client}

abbrev pub Pointer : Type 0
Pointer = ℕ

abbrev pub Heap : Type 0
Heap = Pointer → PollClient

abbrev pub Clients : Type 0
Clients = Map String Pointer

pub record Hub : Type 0 where
  pub objects : Heap
  pub next : Pointer
  pub poll_clients : Clients
  pub note_poll_subs : Map String Clients
  pub closing : Bool

-- *p = v
abbrev pub update : Heap → Pointer → PollClient → Heap
update h p v q = if p == q then v else h q

unfoldable pub new_hub : Hub
new_hub = record {
  objects = λ p. new_client "";
  next = 0;
  poll_clients = [];
  note_poll_subs = [];
  closing = false;
}

unfoldable pub close : Hub → Hub
close h = record h { closing = true }

unfoldable pub register_poll_locked : String → Hub → Hub
register_poll_locked id h = record h {
  objects = update h.objects h.next (new_client id);
  next = suc h.next;
  poll_clients = insert id h.next h.poll_clients;
}

-- `drawn` is the random id, `none` if the random source fails.
unfoldable pub register_poll : Option String → Hub → Hub × String
register_poll none h = (h, "")
register_poll (some id) h = if h.closing then (h, "") else (register_poll_locked id h, id)

unfoldable pub register_poll_with_id : String → Hub → Hub × Bool
register_poll_with_id id h =
    if h.closing
    then (h, false)
    else if is_some (lookup id h.poll_clients)
    then (h, true)
    else (register_poll_locked id h, true)

-- Takes a client out of the set of one note, and the set out of the map when nothing is left in it.
drop_from : String → String → Option Clients → Map String Clients → Map String Clients
drop_from title id none subs = subs
drop_from title id (some set) subs =
    if is_empty (erase id set) then erase title subs else insert title (erase id set) subs

unfoldable pub drop_sub : String → String → Map String Clients → Map String Clients
unfolding drop_from
drop_sub title id subs = drop_from title id (lookup title subs) subs

unregister_found : Option Pointer → String → Hub → Hub
unregister_found none id h = h
unregister_found (some p) id h = record h {
  note_poll_subs =
      if (h.objects p).note_title == ""
      then h.note_poll_subs
      else drop_sub (h.objects p).note_title id h.note_poll_subs;
  poll_clients = erase id h.poll_clients;
}

unfoldable pub unregister_poll : String → Hub → Hub
unfolding unregister_found
unregister_poll id h = unregister_found (lookup id h.poll_clients) id h

-- The set of a note; a nil map reads as an empty one.
abbrev pub or_nil : Option Clients → Clients
or_nil none = []
or_nil (some set) = set

unfoldable pub subs_of : Map String Clients → String → Clients
subs_of subs title = or_nil (lookup title subs)

abbrev pub retitled : String → PollClient → PollClient
retitled title pc = record pc { note_title = title }

subscribe_found : Option Pointer → String → String → Hub → Hub
subscribe_found none id title h = h
subscribe_found (some p) id title h =
    let left =
      if (h.objects p).note_title == ""
      then h.note_poll_subs
      else drop_sub (h.objects p).note_title id h.note_poll_subs in
    record h {
      objects = update h.objects p (retitled title (h.objects p));
      note_poll_subs =
          if title == "" then left else insert title (insert id p (subs_of left title)) left;
    }

unfoldable pub poll_subscribe : String → String → Hub → Hub
unfolding subscribe_found
poll_subscribe id title h =
    if h.closing then h else subscribe_found (lookup id h.poll_clients) id title h

unsubscribe_found : Option Pointer → String → String → Hub → Hub
unsubscribe_found none id title h = h
unsubscribe_found (some p) id title h =
    if not (title == "") && not ((h.objects p).note_title == title) then h else record h {
      objects = update h.objects p (retitled "" (h.objects p));
      note_poll_subs = drop_sub (h.objects p).note_title id h.note_poll_subs;
    }

unfoldable pub poll_unsubscribe : String → String → Hub → Hub
unfolding unsubscribe_found
poll_unsubscribe id title h = unsubscribe_found (lookup id h.poll_clients) id title h

-- for id, pc := range set { *pc = f(id, *pc) }
unfoldable pub for_each : (String → PollClient → PollClient) → Clients → Heap → Heap
for_each f [] objs = objs
for_each f ((id, p) ∷ set) objs = for_each f set (update objs p (f id (objs p)))

unfoldable pub move_note : String → String → Hub → Hub
move_note old new h =
    let subs = subs_of h.note_poll_subs old in
    if is_empty subs then h else record h {
      objects = for_each (λ id. retitled new) subs h.objects;
      note_poll_subs =
          erase old (insert new (insert_all subs (subs_of h.note_poll_subs new)) h.note_poll_subs);
    }

unfoldable pub poll_client_exists : String → Hub → Bool
poll_client_exists id h = is_some (lookup id h.poll_clients)

send_found : Option Pointer → Payload → Hub → Hub
send_found none msg h = h
send_found (some p) msg h = record h { objects = update h.objects p (push msg (h.objects p)) }

unfoldable pub send_to_poll_client : String → Payload → Hub → Hub
unfolding send_found
send_to_poll_client id msg h = if h.closing then h else send_found (lookup id h.poll_clients) msg h

replay_found : Option Pointer → Since → Hub → List ReplayMsg
replay_found none from h = []
replay_found (some p) from h = replay_since (h.objects p) from

unfoldable pub poll_replay_since : String → Since → Hub → List ReplayMsg
unfolding replay_found
poll_replay_since id from h = replay_found (lookup id h.poll_clients) from h

unfoldable pub broadcast_all : Payload → Hub → Hub
broadcast_all msg h =
    if h.closing
    then h
    else record h { objects = for_each (λ id. push msg) h.poll_clients h.objects }

abbrev pub push_unless : String → Payload → String → PollClient → PollClient
push_unless sender msg id pc = if id == sender then pc else push msg pc

unfoldable pub broadcast_to_note : String → String → Payload → Hub → Hub
broadcast_to_note title sender msg h = if h.closing then h else record h {
  objects = for_each (push_unless sender msg) (subs_of h.note_poll_subs title) h.objects;
}

unfoldable pub get_note_subscribers : String → Hub → ℕ
get_note_subscribers title h = if h.closing then 0 else length (subs_of h.note_poll_subs title)
