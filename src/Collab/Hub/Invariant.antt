-- ===== src/Collab/Hub/Invariant.antt =====
-- The two maps of the hub agree: a client stands in the set of the note that its object names, in no
-- other set, and by the pointer under which it is registered.
use marvo.Base.{
  ◌<◌, String, ◌≡◌, inl, inr, Option, none, some, arith, if◌then◌else◌, ◌==◌, string_eq, nat_eq,
  lookup, lookup-insert, IsUnique, insert-IsUnique, text_iff, Option-cases, Bool-cases, lookup-nil,
}
use marvo.Collab.Ring.{new_client}
use marvo.Collab.Hub.{
  Pointer, Heap, Clients, Hub, new_hub, close, register_poll_locked, register_poll,
  register_poll_with_id, subs_of,
}
use marvo.Collab.Hub.Routes.{subscriber, NoneEmpty, AllUnique}

-- The pointer by which a registered client must stand in the set of note `t`.
abbrev pub expected_at : Heap → Option Pointer → String → Option Pointer
expected_at objs none t = none
expected_at objs (some p) t =
    if t == "" then none else if (objs p).note_title == t then some p else none

abbrev pub expected : Heap → Clients → String → String → Option Pointer
expected objs clients t id = expected_at objs (lookup id clients) t

pub record IsConsistent (h : Hub) : Type 0 where
  pub allocated : (id : String) (p : Pointer) → lookup id h.poll_clients ≡ some p → p < h.next
  pub owned :
      (id : String) (p : Pointer) → lookup id h.poll_clients ≡ some p → (h.objects p).id ≡ id
  pub routed :
      (t id : String) → subscriber h.note_poll_subs t id ≡ expected h.objects h.poll_clients t id
  pub unique_clients : IsUnique h.poll_clients
  pub unique_sets : AllUnique h.note_poll_subs
  pub none_empty : NoneEmpty h.note_poll_subs

pub new_hub-IsConsistent : IsConsistent new_hub
unfolding new_hub subs_of
new_hub-IsConsistent = record {
  allocated = λ id p e. cc (e, lookup-nil {V = Pointer} id);
  owned = λ id p e. cc (e, lookup-nil {V = Pointer} id);
  routed = λ t id. simp lookup-nil;
  unique_clients = tt;
  unique_sets = λ t. rw lookup-nil tt;
  none_empty = λ t e. cc (e, lookup-nil {V = Clients} t);
}

pub close-IsConsistent : {h : Hub} → IsConsistent h → IsConsistent (close h)
unfolding close
close-IsConsistent c = record {
  allocated = c.allocated;
  owned = c.owned;
  routed = c.routed;
  unique_clients = c.unique_clients;
  unique_sets = c.unique_sets;
  none_empty = c.none_empty;
}

-- A new client gets a fresh object.
pub register_poll_locked-IsConsistent :
    {h : Hub} (id : String)
    → lookup id h.poll_clients ≡ none
    → IsConsistent h
    → IsConsistent (register_poll_locked id h)
unfolding register_poll_locked new_client
register_poll_locked-IsConsistent {h} id fresh c = record {
  allocated = λ j p e.
      ground (arith, lookup-insert id j h.next h.poll_clients, text_iff id j, c.allocated j p);
  owned = λ j p e. ground (
    arith,
    lookup-insert id j h.next h.poll_clients,
    text_iff id j,
    c.allocated j p,
    c.owned j p,
  );
  routed = λ t j. elim (Option-cases (lookup j h.poll_clients)) [
    | inl e ↦ ground (
      arith,
      c.routed t j,
      lookup-insert id j h.next h.poll_clients,
      text_iff id j,
      text_iff t "",
      text_iff "" t,
    )
    | inr (q, e) ↦ ground (
      arith,
      c.routed t j,
      c.allocated j q,
      lookup-insert id j h.next h.poll_clients,
      text_iff id j,
    )
  ];
  unique_clients = insert-IsUnique id h.next h.poll_clients c.unique_clients;
  unique_sets = c.unique_sets;
  none_empty = c.none_empty;
}

pub register_poll-IsConsistent :
    {h : Hub} (id : String)
    → lookup id h.poll_clients ≡ none
    → IsConsistent h
    → IsConsistent (register_poll (some id) h).0
unfolding register_poll
register_poll-IsConsistent {h} id fresh c = elim (Bool-cases h.closing) [
  | inl e ↦ simp e c
  | inr e ↦ simp e (register_poll_locked-IsConsistent id fresh c)
]

pub register_poll_with_id-IsConsistent :
    {h : Hub} (id : String) → IsConsistent h → IsConsistent (register_poll_with_id id h).0
unfolding register_poll_with_id
register_poll_with_id-IsConsistent {h} id c = elim (Bool-cases h.closing) [
  | inl e ↦ simp e c
  | inr e ↦ elim (Option-cases (lookup id h.poll_clients)) [
    | inl new ↦ simp (e, new) (register_poll_locked-IsConsistent id new c)
    | inr (p, old) ↦ simp (e, old) c
  ]
]
