-- ===== src/Collab/Hub/Subscriptions.antt =====
-- Following a note, leaving it and unregistering keep the hub consistent.
use marvo.Base.{
  String, ◌≡◌, sym, ◌∙◌, inl, inr, not, ◌&&◌, none, some, arith, if◌then◌else◌, ◌==◌, string_eq,
  nat_eq, Map, lookup, insert, lookup-insert, lookup-erase, insert-IsUnique, erase-IsUnique,
  text_iff, Option-cases, if-elim,
}
use marvo.Collab.Hub.{
  Pointer, Clients, Hub, unregister_poll, unregister_found, poll_subscribe, subscribe_found,
  poll_unsubscribe, unsubscribe_found, drop_sub, subs_of, update, retitled,
}
use marvo.Collab.Hub.Routes.{
  subscriber, subscriber-drop_sub, subscriber-insert, NoneEmpty, AllUnique, drop_sub-AllUnique,
  insert-AllUnique, drop_sub-NoneEmpty, insert-NoneEmpty, insert_ne_nil,
}
use marvo.Collab.Hub.Invariant.{expected, IsConsistent}

-- An object stands under one id only.
pub same_id :
    {h : Hub}
    → IsConsistent h
    → (id j : String) (p : Pointer) → lookup id h.poll_clients ≡ some p
    → lookup j h.poll_clients ≡ some p
    → id ≡ j
same_id c id j p e f = sym (c.owned id p e) ∙ c.owned j p f

module _ {h : Hub} (c : IsConsistent h) (id : String) (p : Pointer)
    (e : lookup id h.poll_clients ≡ some p) where
  -- The sets once the client has left the note that it followed.
  left : Map String Clients
  left =
      if (h.objects p).note_title == ""
      then h.note_poll_subs
      else drop_sub (h.objects p).note_title id h.note_poll_subs

  subscriber-left :
      (t j : String)
      → subscriber left t j ≡ (if id == j then none else expected h.objects h.poll_clients t j)
  unfolding left
  subscriber-left t j = ground (
    arith,
    c.routed t j,
    e,
    subscriber-drop_sub (h.objects p).note_title t id j h.note_poll_subs,
    text_iff id j,
    text_iff t "",
    text_iff (h.objects p).note_title "",
    text_iff (h.objects p).note_title t,
  )

  left-AllUnique : AllUnique left
  unfolding left
  left-AllUnique =
      if-elim AllUnique ((h.objects p).note_title == "") _ _ c.unique_sets
        (drop_sub-AllUnique (h.objects p).note_title id h.note_poll_subs c.unique_sets)

  left-NoneEmpty : NoneEmpty left
  unfolding left
  left-NoneEmpty =
      if-elim NoneEmpty ((h.objects p).note_title == "") _ _ c.none_empty
        (drop_sub-NoneEmpty (h.objects p).note_title id h.note_poll_subs c.none_empty)

  unregister_found-IsConsistent : IsConsistent (unregister_found (some p) id h)
  unfolding unregister_found left
  unregister_found-IsConsistent = record {
    allocated = λ j q f. ground (arith, lookup-erase id j h.poll_clients, c.allocated j q);
    owned = λ j q f. ground (arith, lookup-erase id j h.poll_clients, c.owned j q);
    routed = λ t j. subscriber-left t j ∙ ground (arith, lookup-erase id j h.poll_clients);
    unique_clients = erase-IsUnique id h.poll_clients c.unique_clients;
    unique_sets = left-AllUnique;
    none_empty = left-NoneEmpty;
  }

  -- The object that the client has after its title is set.
  title_of :
      (title j : String) (q : Pointer)
      → lookup j h.poll_clients ≡ some q
      → (update h.objects p (retitled title (h.objects p)) q).note_title
        ≡ (if id == j then title else (h.objects q).note_title)
  title_of title j q f = ground (arith, same_id c id j p e, text_iff id j)

  joined : String → Map String Clients
  joined title = if title == "" then left else insert title (insert id p (subs_of left title)) left

  subscriber-joined :
      (title t j : String)
      → subscriber (joined title) t j
        ≡ expected (update h.objects p (retitled title (h.objects p))) h.poll_clients t j
  unfolding joined
  subscriber-joined title t j = elim (Option-cases (lookup j h.poll_clients)) [
    | inl f ↦ ground (
      arith,
      subscriber-insert title t id j left (insert id p (subs_of left title)),
      lookup-insert id j p (subs_of left title),
      subscriber-left t j,
      subscriber-left title j,
      e,
      text_iff title "",
      text_iff t "",
      text_iff title t,
      text_iff id j,
    )
    | inr (q, f) ↦ ground (
      arith,
      title_of title j q f,
      same_id c id j p e,
      subscriber-insert title t id j left (insert id p (subs_of left title)),
      lookup-insert id j p (subs_of left title),
      subscriber-left t j,
      subscriber-left title j,
      e,
      text_iff title "",
      text_iff t "",
      text_iff title t,
      text_iff id j,
    )
  ]

  retitled-IsConsistent :
      (title : String) (subs : Map String Clients)
      → ((t j : String)
          → subscriber subs t j
            ≡ expected (update h.objects p (retitled title (h.objects p))) h.poll_clients t j)
      → AllUnique subs
      → NoneEmpty subs
      → IsConsistent (record h {
        objects = update h.objects p (retitled title (h.objects p));
        note_poll_subs = subs;
      })
  retitled-IsConsistent title subs routes unique full = record {
    allocated = c.allocated;
    owned = λ j q f. ground (arith, c.owned j q, c.owned j p);
    routed = routes;
    unique_clients = c.unique_clients;
    unique_sets = unique;
    none_empty = full;
  }

  subscribe_found-IsConsistent :
      (title : String) → IsConsistent (subscribe_found (some p) id title h)
  unfolding subscribe_found left joined
  subscribe_found-IsConsistent title =
      retitled-IsConsistent title (joined title) (subscriber-joined title)
        (if-elim AllUnique (title == "") _ _ left-AllUnique (
          insert-AllUnique title _ left
            (insert-IsUnique id p (subs_of left title) (left-AllUnique title)) left-AllUnique))
        (if-elim NoneEmpty (title == "") _ _ left-NoneEmpty
          (insert-NoneEmpty title _ left (insert_ne_nil id p (subs_of left title)) left-NoneEmpty))

  subscriber-removed :
      (t j : String)
      → subscriber (drop_sub (h.objects p).note_title id h.note_poll_subs) t j
        ≡ expected (update h.objects p (retitled "" (h.objects p))) h.poll_clients t j
  subscriber-removed t j = elim (Option-cases (lookup j h.poll_clients)) [
    | inl f ↦ ground (
      arith,
      c.routed t j,
      e,
      subscriber-drop_sub (h.objects p).note_title t id j h.note_poll_subs,
      text_iff id j,
    )
    | inr (q, f) ↦ ground (
      arith,
      c.routed t j,
      title_of "" j q f,
      same_id c id j p e,
      e,
      subscriber-drop_sub (h.objects p).note_title t id j h.note_poll_subs,
      text_iff t "",
      text_iff "" t,
      text_iff id j,
      text_iff (h.objects p).note_title t,
    )
  ]

  unsubscribe_found-IsConsistent :
      (title : String) → IsConsistent (unsubscribe_found (some p) id title h)
  unfolding unsubscribe_found
  unsubscribe_found-IsConsistent title =
      if-elim IsConsistent (not (title == "") && not ((h.objects p).note_title == title)) _ _ c (
        retitled-IsConsistent "" _ subscriber-removed
          (drop_sub-AllUnique (h.objects p).note_title id h.note_poll_subs c.unique_sets)
          (drop_sub-NoneEmpty (h.objects p).note_title id h.note_poll_subs c.none_empty))

pub unregister_poll-IsConsistent :
    {h : Hub} (id : String) → IsConsistent h → IsConsistent (unregister_poll id h)
unfolding unregister_poll
unregister_poll-IsConsistent {h} id c = elim (Option-cases (lookup id h.poll_clients)) [
  | inl e ↦ simp e c
  | inr (p, e) ↦ simp e (unregister_found-IsConsistent c id p e)
]

pub poll_subscribe-IsConsistent :
    {h : Hub} (id title : String) → IsConsistent h → IsConsistent (poll_subscribe id title h)
unfolding poll_subscribe
poll_subscribe-IsConsistent {h} id title c =
    if-elim IsConsistent h.closing _ _ c (elim (Option-cases (lookup id h.poll_clients)) [
      | inl e ↦ simp e c
      | inr (p, e) ↦ simp e (subscribe_found-IsConsistent c id p e title)
    ])

pub poll_unsubscribe-IsConsistent :
    {h : Hub} (id title : String) → IsConsistent h → IsConsistent (poll_unsubscribe id title h)
unfolding poll_unsubscribe
poll_unsubscribe-IsConsistent {h} id title c = elim (Option-cases (lookup id h.poll_clients)) [
  | inl e ↦ simp e c
  | inr (p, e) ↦ simp e (unsubscribe_found-IsConsistent c id p e title)
]
