-- ===== src/Tests/Collab.antt =====
-- internal/collab/hub.go at concrete inputs.
use marvo.Base.{
  String, ◌≡◌, ◌≢◌, refl, none, some, List, [], ◌∷◌, arith, lookup, insert, erase, is_empty,
  string_eq, text_iff, if◌then◌else◌, ◌==◌, not, ◌&&◌, drop, keep, false≢true,
}
use marvo.Collab.Ring.{Payload, seq, minus, new_client, push, replay_since, is_after}
use marvo.Collab.Ring.Replay.{push_all, numbered, window, replay-refines-log, replay_lossless}
use marvo.Collab.Hub.{
  Hub, new_hub, register_poll, register_poll_locked, poll_subscribe, move_note, broadcast_to_note,
  subs_of, drop_sub, get_note_subscribers,
}
use marvo.Collab.Hub.Routes.{subscriber}
use marvo.Collab.Hub.Invariant.{IsConsistent}
use marvo.Collab.Hub.Delivery.{broadcast_to_note_lem}
use marvo.Collab.Hub.Rename.{move_note_same_title}
use marvo.Collab.Hub.Reach.{Reach, Reach-IsConsistent}
use marvo.Collab.Hub.Reach

abbrev three : List Payload
three = (1 ∷ []) ∷ (2 ∷ []) ∷ (3 ∷ []) ∷ []

replay-refines-log_example :
    replay_since (push_all three (new_client "a")) (minus 0)
    ≡ keep (is_after (minus 0)) (window three)
replay-refines-log_example = replay-refines-log "a" three (minus 0)

replay_lossless_example :
    replay_since (push_all three (new_client "a")) (seq 1) ≡ numbered 1 (drop 1 three)
replay_lossless_example = replay_lossless "a" three 1 (omega arith) (omega arith)

abbrev ann : String
ann = "a"

abbrev bob : String
bob = "b"

abbrev note : String
note = "n"

abbrev renamed : String
renamed = "m"

abbrev blank : String
blank = ""

abbrev one : Hub
one = (register_poll (some ann) new_hub).0

abbrev two : Hub
two = (register_poll (some bob) one).0

abbrev followed : Hub
followed = poll_subscribe bob note (poll_subscribe ann note two)

new_a : lookup ann new_hub.poll_clients ≡ none
unfolding new_hub lookup
new_a = refl

new_b : lookup bob one.poll_clients ≡ none
unfolding new_hub register_poll register_poll_locked lookup insert
new_b = refl

Reach-followed : Reach followed
Reach-followed =
    Reach.next
      (Reach.next
        (Reach.next (Reach.next Reach.start (Reach.register ann new_a)) (Reach.register bob new_b))
        (Reach.subscribe ann note))
      (Reach.subscribe bob note)

Reach-IsConsistent_example : IsConsistent followed
Reach-IsConsistent_example = Reach-IsConsistent Reach-followed

a_follows : subscriber followed.note_poll_subs note ann ≡ some 0
unfolding new_hub register_poll register_poll_locked poll_subscribe drop_sub subs_of lookup insert
    erase is_empty new_client
a_follows = refl

a_there : lookup ann followed.poll_clients ≡ some 0
unfolding new_hub register_poll register_poll_locked poll_subscribe drop_sub subs_of lookup insert
    erase is_empty new_client
a_there = refl

followers_of_n : get_note_subscribers note followed ≡ 2
unfolding new_hub register_poll register_poll_locked poll_subscribe drop_sub subs_of lookup insert
    erase is_empty new_client get_note_subscribers
followers_of_n = refl

broadcast_to_note_lem_example : (broadcast_to_note note bob (7 ∷ []) followed).objects 0 ≡ (
    if not followed.closing
      && (not (note == blank) && ((followed.objects 0).note_title == note && not (ann == bob)))
    then push (7 ∷ []) (followed.objects 0)
    else followed.objects 0)
broadcast_to_note_lem_example =
    broadcast_to_note_lem (Reach-IsConsistent Reach-followed) note bob (7 ∷ []) ann 0 a_there

m_ne_blank : renamed ≢ blank
m_ne_blank e = false≢true ((text_iff renamed blank).1 e)

n_ne_m : note ≢ renamed
n_ne_m e = false≢true ((text_iff note renamed).1 e)

move_note_same_title_example :
    ((j : String) → subscriber (move_note note note followed).note_poll_subs note j ≡ none)
    × (((move_note note note followed).objects 0).note_title ≡ note)
    × ¬ IsConsistent (move_note note note followed)
move_note_same_title_example =
    move_note_same_title note ann 0 (Reach-IsConsistent Reach-followed) a_follows
