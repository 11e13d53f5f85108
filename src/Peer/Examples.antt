-- ===== src/Peer/Examples.antt =====
-- An exchange of three messages, with each byte as two for base64.
use go_norn.Prelude.{ℕ, ◌+◌, ◌*◌, ◌/◌, ◌%◌, ◌<◌, ◌≡◌, refl, arith, [], ◌∷◌, All}
use go_norn.Prelude.Int64.{Int64, int}
use go_norn.Prelude.Bytes.{Bytes, IsBytes}
use go_norn.Prelude.Outcome.{done}
use go_norn.Wire.{new_viewer, write_cells}
use go_norn.Wire.Fixtures.{runtime}
use go_norn.Wire.Memory.{splice}
use go_norn.Wire.Messages.{write_message, read_message}
use go_norn.Prelude.LittleEndian.{put_little_endian}
use go_norn.Serializer.{bytes_of}
use go_norn.Serializer.Environments.{message_back}
use go_norn.Peer.{IsFramed, Message, Codec, Peer, new_peer, new_message, read_loop, write_loop}
use go_norn.Peer.Exchange.{after, kept, pongs, read_loop-write_loop}

-- Each byte as two.
halves : Bytes → Bytes
halves [] = []
halves (b ∷ bs) = b / 16 ∷ b % 16 ∷ halves bs

joined : Bytes → Bytes
joined (h ∷ l ∷ bs) = (h * 16 + l) ∷ joined bs
joined _ = []

joined-halves : (bs : Bytes) → joined (halves bs) ≡ bs
unfolding joined halves
joined-halves [] = refl
joined-halves (b ∷ bs) =
    let e : b / 16 * 16 + b % 16 ≡ b = omega arith in rw (e, joined-halves bs) refl

halves-ascii : (bs : Bytes) → IsBytes bs → All (λ c. c < 128) (halves bs)
unfolding halves
halves-ascii [] h = tt
halves-ascii (b ∷ bs) h = (omega (arith, h.0), (omega arith, halves-ascii bs h.1))

-- Messages as p2p/message_km.go writes them.
abbrev codec : Codec
codec = record {
  encode = halves;
  decode = joined;
  write_as_root = λ m. bytes_of (write_message runtime m);
  read_as_root = λ text. read_message runtime text (new_viewer runtime text 0);
  decode-encode = λ bs h. joined-halves bs;
  encode-ascii = halves-ascii;
  read-write = message_back runtime;
}

abbrev message : ℕ → Message
message code = record { code = code; size = 1; payload = 7 ∷ []; receive_at = 0 }

message-IsFramed :
    (code : ℕ)
    → code < 256
    → IsBytes (codec.write_as_root (message code))
    → IsFramed codec (message code)
message-IsFramed code h text =
    (record { code = h; size = omega arith; receive_at = omega arith; payload = omega arith }, text)

written :
    IsBytes (codec.write_as_root (message 0))
    × IsBytes (codec.write_as_root (message 18))
    × IsBytes (codec.write_as_root (message 1))
unfolding write_message splice put_little_endian write_cells
written = omega arith

-- A ping, a message of code 18 and a pong.
abbrev sender : Peer
sender = record new_peer { send_queue = message 0 ∷ message 18 ∷ message 1 ∷ [] }

abbrev clock : ℕ → Int64
clock n = int n

read_loop-write_loop_example :
    read_loop codec clock 4 new_peer (write_loop codec sender sender.send_queue).written
    ≡ done (after new_peer (kept clock 4 sender.send_queue) (pongs sender.send_queue))
read_loop-write_loop_example =
    read_loop-write_loop codec clock 4 sender new_peer refl (omega arith) refl
      (omega arith, omega arith)
      (
        message-IsFramed 0 (omega arith) written.0,
        (
          message-IsFramed 18 (omega arith) written.1,
          (message-IsFramed 1 (omega arith) written.2, tt),
        ),
      )

passed_on : kept clock 4 sender.send_queue ≡ record (message 18) { receive_at = int 2 } ∷ []
unfolding kept
passed_on = refl

answered : pongs sender.send_queue ≡ new_message 1 [] ∷ []
unfolding pongs
answered = refl
