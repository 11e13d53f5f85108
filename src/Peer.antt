-- ===== src/Peer.antt =====
-- p2p/peer.go: the messages between two nodes, as frames on a stream of bytes. Each routine is a function of the state
-- that it shares; base64 is a parameter, and the encoding of messages an interface.
pub mod Frames
pub mod Exchange
mod Examples
use go_norn.Prelude.{
  ℕ, zero, suc, ◌+◌, ◌%◌, ◌^◌, ◌<◌, ◌≡◌, Bool, true, false, Option, none, some, List, [], ◌∷◌, ◌++◌,
  ltb, ◌==◌, if◌then◌else◌, length, All,
}
use go_norn.Prelude.Int64.{Int64, int, InRange}
use go_norn.Prelude.Bytes.{Bytes, IsBytes}
use go_norn.Prelude.Outcome.{Outcome, done, blocked, diverged, ◌>>=◌}

abbrev pub message_queue_cap : ℕ
message_queue_cap = 5000

abbrev pub ping_msg : ℕ
ping_msg = 0

abbrev pub pong_msg : ℕ
pong_msg = 1

pub record Message : Type 0 where
  pub code : ℕ
  pub size : ℕ
  pub payload : Bytes
  pub receive_at : Int64

-- A message as Go has it, with few enough bytes for the offsets that p2p/message_km.go writes: a code of one byte, a size of
-- four, and an int64.
pub record IsWireable (m : Message) : Type 0 where
  pub code : m.code < 256
  pub size : m.size < 2 ^ 32
  pub receive_at : InRange m.receive_at
  pub payload : 32 + length m.payload < 2 ^ 32

-- base64.StdEncoding, which is outside the repository: its texts are ASCII, and Decode's result is what comes before an
-- error; and the encoding of messages, which Serializer/Environments fills in with p2p/message_km.go.
pub record Codec : Type 0 where
  pub encode : Bytes → Bytes
  pub decode : Bytes → Bytes
  pub write_as_root : Message → Bytes
  pub read_as_root : Bytes → Message
  pub decode-encode : (bs : Bytes) → IsBytes bs → decode (encode bs) ≡ bs
  pub encode-ascii : (bs : Bytes) → IsBytes bs → All (λ c. c < 128) (encode bs)
  pub read-write : (m : Message) → IsWireable m → read_as_root (write_as_root m) ≡ m

-- A message that can be encoded, into numbers that are bytes.
abbrev pub IsFramed : Codec → Message → Type 0
IsFramed codec m = IsWireable m × IsBytes (codec.write_as_root m)

-- `written` is what has gone out on the stream.
pub record Peer : Type 0 where
  pub msg_queue : List Message
  pub send_queue : List Message
  pub written : Bytes
  pub stopped : Bool

-- NewPeer
abbrev pub new_peer : Peer
new_peer = record { msg_queue = []; send_queue = []; written = []; stopped = false }

-- A send on a channel, which blocks if it is full.
abbrev pub push : List Message → Message → Outcome (List Message)
push queue m = if ltb (length queue) message_queue_cap then done (queue ++ m ∷ []) else blocked

abbrev pub new_message : ℕ → Bytes → Message
new_message code payload = record {
  code = code;
  size = length payload % 2 ^ 32;
  payload = payload;
  receive_at = int 0;
}

-- Send
unfoldable pub send : Peer → ℕ → Bytes → Outcome Peer
send p code payload = do
  queue ← push p.send_queue (new_message code payload)
  done (record p { send_queue = queue })

-- handle
unfoldable pub handle : Peer → Message → Outcome Peer
unfolding send
handle p msg =
    if msg.code == ping_msg
    then send p pong_msg []
    else if msg.code == pong_msg
    then done p
    else do queue ← push p.msg_queue msg; done (record p { msg_queue = queue })

-- ReadBytes(0xff): what comes before the delimiter, and the rest of the stream; none if the stream ends first.
unfoldable pub read_bytes : Bytes → Bytes × Option Bytes
read_bytes [] = ([], none)
read_bytes (c ∷ cs) = let r = read_bytes cs in if c == 255 then ([], some cs) else (c ∷ r.0, r.1)

module _ (codec : Codec) where
  -- What writeLoop writes for a message.
  abbrev pub frame : Message → Bytes
  frame msg = codec.encode (codec.write_as_root msg) ++ 255 ∷ []

  -- The message that readLoop makes of a frame at the time `now`.
  abbrev pub unframe : Int64 → Bytes → Message
  unframe now text = record (codec.read_as_root (codec.decode text)) { receive_at = now }

  -- writeLoop, for the messages in the queue, while the stream takes them.
  unfoldable pub write_loop : Peer → List Message → Peer
  write_loop p [] = p
  write_loop p (msg ∷ msgs) =
      write_loop (record p { send_queue = msgs; written = p.written ++ frame msg }) msgs

  -- The same when the stream fails at once: the message is lost and the peer stops.
  unfoldable pub write_failure : Peer → List Message → Peer
  write_failure p [] = p
  write_failure p (msg ∷ msgs) = record p { send_queue = msgs; stopped = true }

  -- The rest of a turn of readLoop, `more` being the turns after it; the routine ends where the stream does.
  next_turn : Peer → Int64 → Bytes × Option Bytes → (Peer → Bytes → Outcome Peer) → Outcome Peer
  unfolding handle
  next_turn p now (text, none) more = done p
  next_turn p now (text, some rest) more = do p' ← handle p (unframe now text); more p' rest

  -- readLoop; `clock` is the time at each turn, of which there are at most `turns`.
  unfoldable pub read_loop : (ℕ → Int64) → ℕ → Peer → Bytes → Outcome Peer
  unfolding next_turn read_bytes
  read_loop clock zero p stream = diverged
  read_loop clock (suc turns) p stream =
      if p.stopped
      then done p
      else next_turn p (clock turns) (read_bytes stream) (read_loop clock turns)
