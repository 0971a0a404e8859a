-- ===== src/Collab/Ring/Replay.antt =====
-- The ring against the log of all messages that were pushed to a client.
use marvo.Base.{
  ℕ, zero, suc, ◌+◌, ◌-◌, ◌%◌, ◌≤◌, ◌<◌, ◌≡◌, ◌≢◌, refl, ◌⊎◌, inl, inr, List, [], ◌∷◌, ◌++◌, arith,
  ltb, length, get_or, drop, keep, length-append, length-set, get_or-set_self, get_or-set_ne,
  get_or-append_left, get_or-append_length, drop_step, drop_all, length-replicate, drop-drop,
  length-drop, Bool-cases, ltb→lt, lt→ltb, ◌∙◌, subst, String,
}
use native.Mathlib.Nat.{sub_self}
use mathlib.Core.List.{append-nil, append_assoc}
use marvo.Collab.Ring.{
  new_client, Payload, ReplayMsg, no_msg, PollClient, Since, seq, is_after, allocated, push,
  collect, oldest, replay_from, replay_since, replay_buf_size,
}

-- The log from index `i` on, with the sequence numbers that its messages were given.
abbrev pub numbered : ℕ → List Payload → List ReplayMsg
numbered i [] = []
numbered i (p ∷ ps) = record { seq = suc i; payload = p } ∷ numbered (suc i) ps

-- What the ring of a client says of its log: the counters, and the last 500 messages in their slots.
pub record Holds (log : List Payload) (pc : PollClient) : Type 0 where
  pub written : pc.write_idx ≡ length log
  pub numbering : pc.next_seq ≡ suc (length log)
  pub size :
      ((log ≡ []) × (pc.ring_buf ≡ []))
      ⊎ ((0 < length log) × (length pc.ring_buf ≡ replay_buf_size))
  pub slot :
      (i : ℕ)
      → i < length log
      → length log ≤ i + replay_buf_size
      → get_or pc.ring_buf (i % replay_buf_size) no_msg
        ≡ record { seq = suc i; payload = get_or log i [] }

length-allocated :
    (buf : List ReplayMsg)
    → (buf ≡ []) ⊎ (length buf ≡ replay_buf_size)
    → length (allocated buf) ≡ replay_buf_size
unfolding allocated
length-allocated [] h = length-replicate replay_buf_size no_msg
length-allocated (m ∷ ms) (inl e) = cc
length-allocated (m ∷ ms) (inr e) = e

allocated_of_full : (buf : List ReplayMsg) → length buf ≡ replay_buf_size → allocated buf ≡ buf
unfolding allocated
allocated_of_full [] h = absurd (omega (arith, h))
allocated_of_full (m ∷ ms) h = refl

-- The slots of two messages of the ring's window are different.
slots_differ :
    (i n : ℕ) → i < n → n < i + replay_buf_size → n % replay_buf_size ≢ i % replay_buf_size
slots_differ i n h k = omega arith

module _ (log : List Payload) (pc : PollClient) (msg : Payload) (h : Holds log pc) where
  sized : length (allocated pc.ring_buf) ≡ replay_buf_size
  sized = length-allocated pc.ring_buf (ground (arith, h.size))

  old_slot :
      (i : ℕ)
      → i < length log
      → length log < i + replay_buf_size
      → get_or (push msg pc).ring_buf (i % replay_buf_size) no_msg
        ≡ record { seq = suc i; payload = get_or log i [] }
  unfolding push
  old_slot i p q =
      get_or-set_ne (allocated pc.ring_buf) (pc.write_idx % replay_buf_size) (i % replay_buf_size) _
        no_msg (rw h.written (slots_differ i (length log) p q))
      ∙ rw (allocated_of_full pc.ring_buf (ground (arith, h.size))) (h.slot i p (omega arith))

  new_slot :
      get_or (push msg pc).ring_buf (length log % replay_buf_size) no_msg
      ≡ record { seq = suc (length log); payload = msg }
  unfolding push
  new_slot =
      rw (h.written, h.numbering)
        (get_or-set_self (allocated pc.ring_buf) (length log % replay_buf_size) _ no_msg
          (omega (arith, sized)))

  next_slot :
      (i : ℕ)
      → i < suc (length log)
      → suc (length log) ≤ i + replay_buf_size
      → get_or (push msg pc).ring_buf (i % replay_buf_size) no_msg
        ≡ record { seq = suc i; payload = get_or (log ++ msg ∷ []) i [] }
  next_slot i p q = elim (Bool-cases (ltb i (length log))) [
    | inl old ↦
        rw (get_or-append_left log (msg ∷ []) i [] (ltb→lt i (length log) old))
          (old_slot i (ltb→lt i (length log) old) q)
    | inr new ↦
        let e : i ≡ length log = ground arith in
        rw (get_or-append_length log msg i [] e) (rw e new_slot)
  ]

-- A push appends to the log.
pub push-Holds :
    (log : List Payload) (pc : PollClient) (msg : Payload)
    → Holds log pc
    → Holds (log ++ msg ∷ []) (push msg pc)
unfolding push
push-Holds log pc msg h =
    let e : length (log ++ msg ∷ []) ≡ suc (length log) =
      length-append log (msg ∷ []) ∙ omega arith in
    record {
      written = omega (arith, e, h.written);
      numbering = omega (arith, e, h.numbering);
      size = inr (omega (arith, e), length-set _ _ _ ∙ sized log pc msg h);
      slot = λ i p q. next_slot log pc msg h i (omega (arith, e)) (omega (arith, e));
    }

pub new_client-Holds : (id : String) → Holds [] (new_client id)
unfolding new_client
new_client-Holds id = record {
  written = refl;
  numbering = refl;
  size = inl (refl, refl);
  slot = λ i p q. absurd (omega arith);
}

pub push_all : List Payload → PollClient → PollClient
push_all [] pc = pc
push_all (m ∷ ms) pc = push_all ms (push m pc)

push_all-Holds :
    (log ms : List Payload) (pc : PollClient) → Holds log pc → Holds (log ++ ms) (push_all ms pc)
unfolding push_all
push_all-Holds log [] pc h = rw append-nil h
push_all-Holds log (m ∷ ms) pc h =
    subst (λ l. Holds l (push_all (m ∷ ms) pc)) (append_assoc log (m ∷ []) ms)
      (push_all-Holds (log ++ m ∷ []) ms (push m pc) (push-Holds log pc m h))

collect-eq-keep :
    (log : List Payload) (pc : PollClient) (from : Since) (i n : ℕ)
    → Holds log pc
    → i + n ≡ length log
    → length log ≤ i + replay_buf_size
    → collect pc.ring_buf from i n ≡ keep (is_after from) (numbered i (drop i log))
unfolding collect
collect-eq-keep log pc from i zero h e w = rw (drop_all log i (omega arith))
collect-eq-keep log pc from i (suc n) h e w = rw (
  h.slot i (omega arith) w,
  drop_step log i [] (omega arith),
  collect-eq-keep log pc from (suc i) n h (omega arith) (omega arith),
)

replay_from-full :
    (buf : List ReplayMsg) (pc : PollClient) (from : Since)
    → length buf ≡ replay_buf_size
    → replay_from buf pc from
      ≡ collect buf from (oldest pc.write_idx) (pc.write_idx - oldest pc.write_idx)
unfolding replay_from
replay_from-full [] pc from h = absurd (omega (arith, h))
replay_from-full (m ∷ ms) pc from h = refl

-- The last 500 messages of a log, or all of a shorter one, with the numbers that they have in the log.
abbrev pub window : List Payload → List ReplayMsg
window log = numbered (length log - 500) (drop (length log - 500) log)

oldest_lem : (n : ℕ) → oldest n ≡ n - 500
unfolding oldest
oldest_lem n = ground arith

pub replay_since-eq-keep :
    (log : List Payload) (pc : PollClient) (from : Since)
    → Holds log pc
    → replay_since pc from ≡ keep (is_after from) (window log)
unfolding replay_since replay_from
replay_since-eq-keep log pc from h = elim h.size [
  | inl (e, f) ↦ rw (f, e)
  | inr (p, f) ↦
      replay_from-full pc.ring_buf pc from f
      ∙ rw h.written (
          rw (oldest_lem (length log)) (
            collect-eq-keep log pc from (length log - 500) (length log - (length log - 500)) h
              (omega arith) (omega arith)))
]

keep_all :
    (k i : ℕ) (ps : List Payload) → k ≤ i → keep (is_after (seq k)) (numbered i ps) ≡ numbered i ps
keep_all k i [] h = refl
keep_all k i (p ∷ ps) h = rw (lt→ltb k (suc i) (omega arith), keep_all k (suc i) ps (omega arith))

keep_after :
    (k i : ℕ) (ps : List Payload)
    → i ≤ k
    → k ≤ i + length ps
    → keep (is_after (seq k)) (numbered i ps) ≡ numbered k (drop (k - i) ps)
keep_after k i [] h w = rw (drop_all {A = Payload} [] (k - i) (omega arith))
keep_after k i (p ∷ ps) h w = elim (Bool-cases (ltb k (suc i))) [
  | inl now ↦
      let e : i ≡ k = ground arith in rw (now, keep_all k (suc i) ps (ground arith), e, sub_self)
  | inr later ↦
      let e : k - i ≡ suc (k - suc i) = ground arith in
      rw (later, e) (keep_after k (suc i) ps (ground arith) (omega arith))
]

keep-window :
    (log : List Payload) (k : ℕ)
    → k ≤ length log
    → length log ≤ k + replay_buf_size
    → keep (is_after (seq k)) (window log) ≡ numbered k (drop k log)
keep-window log k h w =
    let o = length log - 500 in
    let p : o ≤ k = omega arith in
    let e : o + (k - o) ≡ k = omega arith in
    keep_after k o (drop o log) p (omega (arith, length-drop o log)) ∙ rw (drop-drop, e)

-- The replay ring refines the log of all messages: after any pushes to a new client, a replay
-- since `from` returns, oldest first, those of the last 500 messages whose number, counted from 1,
-- is after `from`.
pub replay-refines-log :
    (id : String) (msgs : List Payload) (from : Since)
    → replay_since (push_all msgs (new_client id)) from ≡ keep (is_after from) (window msgs)
replay-refines-log id msgs from =
    replay_since-eq-keep msgs (push_all msgs (new_client id)) from
      (push_all-Holds [] msgs (new_client id) (new_client-Holds id))

-- A client that saw the first `k` of the messages pushed to it, and is at most 500 messages behind,
-- is sent exactly the messages from the next one on, in their order, each once and each with its
-- own number.
pub replay_lossless :
    (id : String) (msgs : List Payload) (k : ℕ)
    → k ≤ length msgs
    → length msgs ≤ k + replay_buf_size
    → replay_since (push_all msgs (new_client id)) (seq k) ≡ numbered k (drop k msgs)
replay_lossless id msgs k h w = replay-refines-log id msgs (seq k) ∙ keep-window msgs k h w
