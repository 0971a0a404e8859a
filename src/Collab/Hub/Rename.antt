-- ===== src/Collab/Hub/Rename.antt =====
-- Renaming a note moves its followers to the new title.
use marvo.Base.{
  String, ◌≡◌, ◌≢◌, refl, ◌∙◌, inl, inr, false, none, some, [], ◌∷◌, arith, if◌then◌else◌, ◌==◌,
  string_eq, nat_eq, Map, lookup, insert, erase, text_iff, Option-cases, Bool-cases, lookup-nil,
  or_else, insert_all, lookup-insert_all, insert_all-IsUnique, is_empty, lookup_of_is_empty,
  ==-refl,
}
use marvo.Collab.Hub.{Pointer, Heap, Clients, Hub, subs_of, for_each, move_note, retitled}
use marvo.Collab.Hub.Routes.{
  insert_ne_nil, subscriber, subs_of-insert, subs_of-erase, insert-AllUnique, erase-AllUnique,
  insert-NoneEmpty, erase-NoneEmpty,
}
use marvo.Collab.Hub.Invariant.{expected, IsConsistent}
use marvo.Collab.Hub.Delivery.{for_each_lem, IsConsistent-Owned-set, registered, points}

module _ {h : Hub} (c : IsConsistent h) (old new : String) where
  followers : Clients
  followers = subs_of h.note_poll_subs old

  renamed : Heap
  renamed = for_each (λ id. retitled new) followers h.objects

  moved : Map String Clients
  moved =
      erase old (insert new (insert_all followers (subs_of h.note_poll_subs new)) h.note_poll_subs)

  renamed_lem :
      (q : Pointer)
      → renamed q ≡ (
          if points (lookup (h.objects q).id followers) q
          then retitled new (h.objects q)
          else h.objects q)
  unfolding renamed followers
  renamed_lem q =
      for_each_lem (λ id. retitled new) (λ i pc. refl) (subs_of h.note_poll_subs old) h.objects q
        (c.unique_sets old) (IsConsistent-Owned-set c old)

  -- A registered client has the new title exactly if it followed the old one.
  renamed-client :
      (id : String) (q : Pointer)
      → lookup id h.poll_clients ≡ some q
      → old ≢ ""
      → renamed q
        ≡ (if (h.objects q).note_title == old then retitled new (h.objects q) else h.objects q)
  unfolding followers
  renamed-client id q e ne =
      renamed_lem q ∙ ground (arith, c.owned id q e, c.routed old id, e, text_iff old "")

  subscriber-moved :
      (t j : String)
      → subscriber moved t j ≡ (
          if old == t
          then none
          else if new == t
          then or_else (subscriber h.note_poll_subs old j) (subscriber h.note_poll_subs new j)
          else subscriber h.note_poll_subs t j)
  unfolding moved followers
  subscriber-moved t j =
      rw (subs_of-erase, subs_of-insert)
        (ground (
          arith,
          lookup-nil {V = Pointer} j,
          lookup-insert_all (subs_of h.note_poll_subs old) (subs_of h.note_poll_subs new) j
              (c.unique_sets old),
        ))

insert_all_keeps : (n m : Clients) → m ≢ [] → insert_all n m ≢ []
unfolding insert_all
insert_all_keeps [] m h = h
insert_all_keeps ((k, v) ∷ n) m h = insert_all_keeps n (insert k v m) (insert_ne_nil k v m)

insert_all_ne_nil : (n m : Clients) → is_empty n ≡ false → insert_all n m ≢ []
unfolding insert_all is_empty
insert_all_ne_nil [] m h = cc
insert_all_ne_nil ((k, v) ∷ n) m h = insert_all_keeps n (insert k v m) (insert_ne_nil k v m)

entry_of :
    (set : Clients) → is_empty set ≡ false → (j : String) × (p : Pointer) × (lookup j set ≡ some p)
unfolding is_empty lookup
entry_of [] h = cc
entry_of ((j, p) ∷ set) h = (j, p, rw (==-refl j))

-- The empty title has no followers.
no_blank :
    {h : Hub}
    → IsConsistent h
    → (old : String) → is_empty (subs_of h.note_poll_subs old) ≡ false
    → old ≢ ""
no_blank {h} c old some_one blank =
    let (j, p, e) = entry_of (subs_of h.note_poll_subs old) some_one in
    ground (arith, c.routed old j, e, text_iff old "")

moved-routed :
    {h : Hub} (c : IsConsistent h) (old new : String)
    → old ≢ ""
    → new ≢ ""
    → old ≢ new
    → (t j : String)
    → subscriber (moved c old new) t j ≡ expected (renamed c old new) h.poll_clients t j
moved-routed {h} c old new nb ne dif t j = elim (Option-cases (lookup j h.poll_clients)) [
  | inl f ↦
      ground (arith, subscriber-moved c old new t j, c.routed t j, c.routed old j, c.routed new j)
  | inr (q, f) ↦ ground (
    arith,
    subscriber-moved c old new t j,
    renamed-client c old new j q f nb,
    c.routed t j,
    c.routed old j,
    c.routed new j,
    text_iff old t,
    text_iff new t,
    text_iff old new,
    text_iff t "",
    text_iff old "",
    text_iff new "",
    text_iff (h.objects q).note_title old,
    text_iff (h.objects q).note_title new,
    text_iff (h.objects q).note_title t,
  )
]

renamed-id :
    {h : Hub} (c : IsConsistent h) (old new : String) (q : Pointer)
    → (renamed c old new q).id ≡ (h.objects q).id
renamed-id c old new q = ground (arith, renamed_lem c old new q)

-- A rename to another title that is not empty keeps the hub consistent.
pub move_note-IsConsistent :
    {h : Hub} (old new : String)
    → new ≢ ""
    → old ≢ new
    → IsConsistent h
    → IsConsistent (move_note old new h)
unfolding move_note moved renamed followers
move_note-IsConsistent {h} old new ne dif c =
    elim (Bool-cases (is_empty (subs_of h.note_poll_subs old))) [
      | inl none_there ↦ simp none_there c
      | inr some_one ↦ simp some_one (record {
        allocated = c.allocated;
        owned = λ j q f. renamed-id c old new q ∙ c.owned j q f;
        routed = moved-routed c old new (no_blank c old some_one) ne dif;
        unique_clients = c.unique_clients;
        unique_sets = erase-AllUnique old _ (
            insert-AllUnique new _ h.note_poll_subs
              (insert_all-IsUnique (subs_of h.note_poll_subs old) (subs_of h.note_poll_subs new)
                (c.unique_sets new))
              c.unique_sets);
        none_empty = erase-NoneEmpty old _ (
            insert-NoneEmpty new _ h.note_poll_subs
              (insert_all_ne_nil (subs_of h.note_poll_subs old) _ some_one) c.none_empty);
      })
    ]

-- After a rename no client follows the old title, and every client that followed the old or the new title follows the new one, by the same pointer.
pub move_note_moves :
    {h : Hub} (old new : String)
    → new ≢ ""
    → old ≢ new
    → IsConsistent h
    → (id : String)
    → (subscriber (move_note old new h).note_poll_subs old id ≡ none)
      × (subscriber (move_note old new h).note_poll_subs new id
          ≡ or_else (subscriber h.note_poll_subs old id) (subscriber h.note_poll_subs new id))
unfolding move_note moved followers
move_note_moves {h} old new ne dif c id =
    elim (Bool-cases (is_empty (subs_of h.note_poll_subs old))) [
      | inl none_there ↦
          let gone = lookup_of_is_empty id (subs_of h.note_poll_subs old) none_there in
          simp none_there (gone, ground (arith, gone))
      | inr some_one ↦ simp some_one (
        subscriber-moved c old new old id ∙ ground (arith, text_iff old old),
        subscriber-moved c old new new id ∙ ground (arith, text_iff old new, text_iff new new),
      )
    ]

-- A rename of a note to the title that it has drops all its followers: no client is in its set any
-- more, although the objects of the clients that followed it still name it. So no later broadcast
-- to the note reaches them, and the hub is no longer consistent if there was such a client.
pub move_note_same_title :
    {h : Hub} (title id : String) (p : Pointer)
    → IsConsistent h
    → subscriber h.note_poll_subs title id ≡ some p
    → ((j : String) → subscriber (move_note title title h).note_poll_subs title j ≡ none)
      × (((move_note title title h).objects p).note_title ≡ title)
      × ¬ IsConsistent (move_note title title h)
unfolding move_note moved renamed followers
move_note_same_title {h} title id p c e =
    let some_one : is_empty (subs_of h.note_poll_subs title) ≡ false =
      ground (arith, lookup_of_is_empty id (subs_of h.note_poll_subs title)) in
    let there = registered c title id p e in
    let gone : (j : String) → subscriber (moved c title title) title j ≡ none =
      λ j. subscriber-moved c title title title j ∙ ground (arith, text_iff title title) in
    let named : (renamed c title title p).note_title ≡ title =
      ground (arith, renamed_lem c title title p, c.owned id p there, e) in
    simp some_one (
      gone,
      named,
      λ k. ground (
        arith,
        k.routed title id,
        gone id,
        named,
        there,
        c.routed title id,
        e,
        text_iff title title,
      ),
    )
