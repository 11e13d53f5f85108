-- ===== src/Peer/Frames.antt =====
-- A frame is read back as it was written.
use go_norn.Prelude.{
  ◌<◌, ◌≡◌, refl, sym, ap, ◌∙◌, arith, false, some, List, [], ◌∷◌, ◌++◌, append_assoc, append-nil,
  ◌==◌, All,
}
use go_norn.Prelude.Int64.{Int64}
use go_norn.Prelude.Bytes.{Bytes}
use go_norn.Peer.{Message, Codec, Peer, read_bytes, frame, unframe, write_loop, IsFramed}

pub read_bytes-delimited :
    (text rest : Bytes)
    → All (λ c. c < 128) text
    → read_bytes (text ++ 255 ∷ rest) ≡ (text, some rest)
unfolding read_bytes
read_bytes-delimited [] rest h = refl
read_bytes-delimited (c ∷ cs) rest h =
    let other : (c == 255) ≡ false = ground (arith, h.0) in
    rw (other, read_bytes-delimited cs rest h.1) refl

module _ (codec : Codec) where
  -- What goes out for a list of messages.
  abbrev pub frames : List Message → Bytes
  frames [] = []
  frames (m ∷ ms) = frame codec m ++ frames ms

  pub read_bytes-frame :
      (m : Message) (rest : Bytes)
      → IsFramed codec m
      → read_bytes (frame codec m ++ rest) ≡ (codec.encode (codec.write_as_root m), some rest)
  read_bytes-frame m rest fits =
      let text = codec.encode (codec.write_as_root m) in
      ap read_bytes (append_assoc text (255 ∷ []) rest)
      ∙ read_bytes-delimited text rest (codec.encode-ascii (codec.write_as_root m) fits.1)

  pub unframe-frame :
      (now : Int64) (m : Message)
      → IsFramed codec m
      → unframe codec now (codec.encode (codec.write_as_root m)) ≡ record m { receive_at = now }
  unframe-frame now m fits =
      rw (codec.decode-encode (codec.write_as_root m) fits.1, codec.read-write m fits.0) refl

  -- writeLoop empties its queue and writes the frames in order.
  pub write_loop-frames :
      (p : Peer) (ms : List Message) → (write_loop codec p ms).written ≡ p.written ++ frames ms
  unfolding write_loop
  write_loop-frames p [] = sym (append-nil p.written)
  write_loop-frames p (m ∷ ms) =
      write_loop-frames (record p { send_queue = ms; written = p.written ++ frame codec m }) ms
      ∙ append_assoc p.written (frame codec m) (frames ms)
