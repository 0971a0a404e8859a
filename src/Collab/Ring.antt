-- ===== src/Collab/Ring.antt =====
-- internal/collab/hub.go, PollClient: a ring of the last 500 messages with their sequence numbers.
-- `writeIdx` and `nextSeq` count the pushes of one client and are taken to stay below 2 ^ 63.
pub mod Replay
use marvo.Base.{
  ℕ, zero, suc, ◌+◌, ◌-◌, ◌%◌, String, Bool, false, true, List, [], ◌∷◌, ltb, if◌then◌else◌, get_or,
  set, replicate,
}

-- A slice of bytes; its content is never looked into here.
abbrev pub Payload : Type 0
Payload = List ℕ

-- `replayBufSize`
abbrev pub replay_buf_size : ℕ
replay_buf_size = 500

pub record ReplayMsg : Type 0 where
  pub seq : ℕ
  pub payload : Payload

-- The zero value, which fills a new ring.
abbrev pub no_msg : ReplayMsg
no_msg = record { seq = 0; payload = [] }

-- The `notify` channel has room for one token: `notified` says whether it is there. A nil `ringBuf`
-- is the empty list.
pub record PollClient : Type 0 where
  pub id : String
  pub note_title : String
  pub ring_buf : List ReplayMsg
  pub write_idx : ℕ
  pub next_seq : ℕ
  pub notified : Bool

-- An `int64` that the client sends: `minus n` is -(n + 1).
pub data Since : Type 0 where
  seq : ℕ → Since
  minus : ℕ → Since

-- msg.Seq > fromSeq
abbrev pub is_after : Since → ReplayMsg → Bool
is_after (seq n) m = ltb n m.seq
is_after (minus n) m = true

-- `if pc.ringBuf == nil { pc.ringBuf = make(...) }`
unfoldable pub allocated : List ReplayMsg → List ReplayMsg
allocated [] = replicate replay_buf_size no_msg
allocated (m ∷ ms) = m ∷ ms

unfoldable pub push : Payload → PollClient → PollClient
push msg pc = record pc {
  ring_buf =
      set (allocated pc.ring_buf) (pc.write_idx % replay_buf_size)
        (record { seq = pc.next_seq; payload = msg });
  write_idx = pc.write_idx + 1;
  next_seq = pc.next_seq + 1;
  notified = true;
}

-- The loop over `i` with `n` rounds left; the result is built front to back.
unfoldable pub collect : List ReplayMsg → Since → ℕ → ℕ → List ReplayMsg
collect buf from i zero = []
collect buf from i (suc n) =
    let rest = collect buf from (suc i) n in
    let msg = get_or buf (i % replay_buf_size) no_msg in
    if is_after from msg then msg ∷ rest else rest

-- `start`: the oldest message that the ring still holds.
unfoldable pub oldest : ℕ → ℕ
oldest count = if ltb replay_buf_size count then count - replay_buf_size else 0

replay_from : List ReplayMsg → PollClient → Since → List ReplayMsg
replay_from [] pc from = []
replay_from (m ∷ ms) pc from =
    collect (m ∷ ms) from (oldest pc.write_idx) (pc.write_idx - oldest pc.write_idx)

unfoldable pub replay_since : PollClient → Since → List ReplayMsg
unfolding replay_from
replay_since pc from = replay_from pc.ring_buf pc from

-- The client that `registerPollLocked` makes.
unfoldable pub new_client : String → PollClient
new_client id = record {
  id = id;
  note_title = "";
  ring_buf = [];
  write_idx = 0;
  next_seq = 1;
  notified = false;
}
