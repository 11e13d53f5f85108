-- ===== src/Peer/Exchange.antt =====
-- What a node has after it has read everything that its peer wrote.
use go_norn.Prelude.{
  ℕ, zero, suc, ◌+◌, ◌≤◌, ◌<◌, ◌≡◌, refl, sym, ap, ◌∙◌, arith, Bool, true, false, some, List, [],
  ◌∷◌, ◌++◌, append_assoc, append-nil, ◌==◌, if◌then◌else◌, length, length-append, Bool-cases, inl,
  inr, lt→ltb, All,
}
use go_norn.Prelude.Int64.{Int64}
use go_norn.Prelude.Bytes.{Bytes}
use go_norn.Prelude.Outcome.{Outcome, done, ◌>>=◌}
use go_norn.Peer.{
  Message, Codec, Peer, message_queue_cap, ping_msg, pong_msg, push, new_message, send, handle,
  read_bytes, frame, unframe, write_loop, next_turn, read_loop, IsFramed,
}
use go_norn.Peer.Frames.{frames, read_bytes-frame, unframe-frame, write_loop-frames}

abbrev pub is_control : Message → Bool
is_control m = if m.code == ping_msg then true else m.code == pong_msg

-- The messages that are passed on, in order, with the time at which each was read.
unfoldable pub kept : (ℕ → Int64) → ℕ → List Message → List Message
kept clock turns [] = []
kept clock zero (m ∷ ms) = []
kept clock (suc turns) (m ∷ ms) =
    let rest = kept clock turns ms in
    if is_control m then rest else record m { receive_at = clock turns } ∷ rest

-- An answer for each ping.
unfoldable pub pongs : List Message → List Message
pongs [] = []
pongs (m ∷ ms) =
    let rest = pongs ms in if m.code == ping_msg then new_message pong_msg [] ∷ rest else rest

abbrev pub after : Peer → List Message → List Message → Peer
after p ms ps = record p { msg_queue = p.msg_queue ++ ms; send_queue = p.send_queue ++ ps }

push_room :
    (queue : List Message) (m : Message)
    → length queue < message_queue_cap
    → push queue m ≡ done (queue ++ m ∷ [])
push_room queue m h = rw (lt→ltb (length queue) message_queue_cap h) refl

-- The queues have room for `n` messages more.
abbrev pub HasRoom : Peer → ℕ → Type 0
HasRoom p n =
    (length p.msg_queue + n ≤ message_queue_cap) × (length p.send_queue + n ≤ message_queue_cap)

-- One message.
abbrev kept_one : Int64 → Message → List Message
kept_one now m = if is_control m then [] else record m { receive_at = now } ∷ []

abbrev pong_one : Message → List Message
pong_one m = if m.code == ping_msg then new_message pong_msg [] ∷ [] else []

handle-after :
    (p : Peer) (m : Message) (now : Int64) (n : ℕ)
    → HasRoom p (suc n)
    → (handle p (record m { receive_at = now }) ≡ done (after p (kept_one now m) (pong_one m)))
      × HasRoom (after p (kept_one now m) (pong_one m)) n
unfolding handle send
handle-after p m now n room = elim (Bool-cases (m.code == ping_msg)) [
  | inl ping ↦
      rw
        (
          ping,
          push_room p.send_queue (new_message pong_msg []) (omega (arith, room.1)),
          append-nil p.msg_queue,
        )
        (
          refl,
          (
            omega (arith, room.0),
            omega (arith, room.1, length-append p.send_queue (new_message pong_msg [] ∷ [])),
          ),
        )
  | inr no_ping ↦ elim (Bool-cases (m.code == pong_msg)) [
    | inl pong ↦
        rw (no_ping, pong, append-nil p.msg_queue, append-nil p.send_queue)
          (refl, (omega (arith, room.0), omega (arith, room.1)))
    | inr other ↦
        rw
          (
            no_ping,
            other,
            append-nil p.send_queue,
            push_room p.msg_queue (record m { receive_at = now }) (omega (arith, room.0)),
          )
          (
            refl,
            (
              omega (arith, room.0, length-append p.msg_queue (record m { receive_at = now } ∷ [])),
              omega (arith, room.1),
            ),
          )
  ]
]

kept-suc :
    (clock : ℕ → Int64) (turns : ℕ) (m : Message) (ms : List Message)
    → kept clock (suc turns) (m ∷ ms) ≡ kept_one (clock turns) m ++ kept clock turns ms
unfolding kept
kept-suc clock turns m ms = elim (Bool-cases (is_control m)) [
  | inl e ↦ rw e refl
  | inr e ↦ rw e refl
]

pongs-cons : (m : Message) (ms : List Message) → pongs (m ∷ ms) ≡ pong_one m ++ pongs ms
unfolding pongs
pongs-cons m ms = elim (Bool-cases (m.code == ping_msg)) [ inl e ↦ rw e refl | inr e ↦ rw e refl ]

after_twice :
    (p : Peer) (ks qs ks' qs' : List Message)
    → after (after p ks qs) ks' qs' ≡ after p (ks ++ ks') (qs ++ qs')
after_twice p ks qs ks' qs' =
    rw (append_assoc p.msg_queue ks ks', append_assoc p.send_queue qs qs') refl

module _ (codec : Codec) (clock : ℕ → Int64) where
  next_turn-done :
      (p : Peer) (now : Int64) (text rest : Bytes) (more : Peer → Bytes → Outcome Peer) (p' : Peer)
      → handle p (unframe codec now text) ≡ done p'
      → next_turn codec p now (text, some rest) more ≡ more p' rest
  unfolding next_turn
  next_turn-done p now text rest more p' e = ap (λ (o : Outcome Peer). o >>= λ q. more q rest) e

  read_loop-frames :
      (turns : ℕ) (p : Peer) (ms : List Message)
      → length ms < turns
      → p.stopped ≡ false
      → HasRoom p (length ms)
      → All (IsFramed codec) ms
      → read_loop codec clock turns p (frames codec ms)
        ≡ done (after p (kept clock turns ms) (pongs ms))
  unfolding read_loop next_turn kept pongs read_bytes
  read_loop-frames zero p ms few live room framed = absurd (omega (arith, few))
  read_loop-frames (suc turns) p [] few live room framed =
      rw (live, append-nil p.msg_queue, append-nil p.send_queue) refl
  read_loop-frames (suc turns) p (m ∷ ms) few live room framed =
      let now = clock turns in
      let step = handle-after p m now (length ms) room in
      let p' = after p (kept_one now m) (pong_one m) in
      let rest = read_loop-frames turns p' ms (omega (arith, few)) live step.1 framed.1 in
      let queues =
        after_twice p (kept_one now m) (pong_one m) (kept clock turns ms) (pongs ms)
        ∙ ap (λ (ks : List Message). after p ks (pong_one m ++ pongs ms))
            (sym (kept-suc clock turns m ms))
        ∙ ap (after p (kept clock (suc turns) (m ∷ ms))) (sym (pongs-cons m ms)) in
      let text = codec.encode (codec.write_as_root m) in
      let handled = ap (handle p) (unframe-frame codec now m framed.0) ∙ step.0 in
      let more = read_loop codec clock turns in
      let stream = frame codec m ++ frames codec ms in
      ap (λ (b : Bool). if b then done p else next_turn codec p now (read_bytes stream) more) live
      ∙ ap (λ r. next_turn codec p now r more) (read_bytes-frame codec m (frames codec ms) framed.0)
      ∙ next_turn-done p now text (frames codec ms) more p' handled
      ∙ rest
      ∙ ap done queues

  -- Whatever one node sends, the other reads. Let the node `a` have written nothing yet; after its writeLoop has
  -- written the messages of its queue, readLoop at the other end does not block. It has passed on the messages other
  -- than pings and pongs, in their order and each with the time of its turn, and put an answer to each ping into its own
  -- queue; if that peer is not stopped, its two queues have room, there is a turn for each message and one for the end of
  -- the stream, and the messages can be encoded: codes of one byte, sizes of four, int64 times, and fewer than 2 ^ 32
  -- numbers, all of them bytes.
  pub read_loop-write_loop :
      (turns : ℕ) (a p : Peer)
      → a.written ≡ []
      → length a.send_queue < turns
      → p.stopped ≡ false
      → HasRoom p (length a.send_queue)
      → All (IsFramed codec) a.send_queue
      → read_loop codec clock turns p (write_loop codec a a.send_queue).written
        ≡ done (after p (kept clock turns a.send_queue) (pongs a.send_queue))
  read_loop-write_loop turns a p fresh few live room framed =
      ap (read_loop codec clock turns p) (
        write_loop-frames codec a a.send_queue
        ∙ ap (λ (w : Bytes). w ++ frames codec a.send_queue) fresh)
      ∙ read_loop-frames turns p a.send_queue few live room framed
