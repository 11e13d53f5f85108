-- ===== src/Node/Requests.antt =====
-- A request for the block at a height, and what the answer leads to at the node that asked.
use go_norn.Prelude.{
  ◌+◌, ◌%◌, ◌≤◌, ◌<◌, ◌≡◌, refl, sym, ap, ◌∙◌, arith, true, false, Option, none, some, List, [],
  ◌∷◌, ◌++◌, append-nil, ltb, length, take, lt→ltb,
}
use go_norn.Prelude.Int64.{Int64, InRange, half, modulus}
use go_norn.Prelude.Bytes.{Bytes}
use go_norn.Prelude.Maps.{update, update_self}
use go_norn.Prelude.LittleEndian.{put_little_endian, little_endian, little_endian-put}
use go_norn.Prelude.Outcome.{done}
use go_norn.Common.{Block}
use go_norn.Peer.{Message, new_message, message_queue_cap, send}
use go_norn.Common.Encodable.{IsEncodable}
use go_norn.Chain.Ledger.{find_height-height, Ledger, find_height, Represents}
use go_norn.Chain.Heights.{get_block_by_height-find_height}
use go_norn.Node.{
  NodeEnv, Peer, Manager, sync_blocks_msg, sync_get_blocks_msg, put_height, is_status_synced,
  read_height,
}
use go_norn.Node.Handlers.{
  request_sync_get_block, respond_sync_get_block, handle_sync_get_blocks_msg, handle_sync_block_msg,
}

-- The height that a request stands for.
abbrev pub requested : Bytes → Int64
requested payload = (little_endian (take 8 payload) + half) % modulus

requested-InRange : (payload : Bytes) → InRange (requested payload)
requested-InRange payload = omega arith

read_height-requested :
    (payload : Bytes) → 8 ≤ length payload → read_height payload ≡ done (requested payload)
unfolding read_height
read_height-requested payload h =
    let long : ltb (length payload) 8 ≡ false = ground (arith, h) in rw long refl

length-put_height : (n : Int64) → length (put_height n) ≡ 8
unfolding put_height put_little_endian
length-put_height n = refl

-- A height is read as it was written.
requested-put_height : (n : Int64) → InRange n → requested (put_height n) ≡ n
unfolding put_height put_little_endian little_endian
requested-put_height n h =
    omega (arith, h, little_endian-put 8 ((n + half) % modulus) (omega arith))

-- What is sent for the block that was found.
abbrev pub answers : NodeEnv → Option Block → List Message
answers env none = []
answers env (some block) = new_message sync_blocks_msg (env.chain_env.serialize_block block) ∷ []

module _ {env : NodeEnv} where
  respond-answers :
      (pm : Manager env) (o o' : Option Block) (p : Peer env)
      → o ≡ o'
      → length p.connection.send_queue < message_queue_cap
      → (p' : Peer env) × (respond_sync_get_block pm o p ≡ done (pm, p'))
        × (p'.connection.send_queue ≡ p.connection.send_queue ++ answers env o')
  unfolding respond_sync_get_block send
  respond-answers pm none o' p e room = (
    p,
    refl,
    sym (
        ap (λ o. p.connection.send_queue ++ answers env o) (sym e)
        ∙ append-nil p.connection.send_queue),
  )
  respond-answers pm (some b) o' p e room =
      let message = new_message sync_blocks_msg (env.chain_env.serialize_block b) in
      (
        record p {
          connection = record p.connection { send_queue = p.connection.send_queue ++ message ∷ [] };
        },
        rw (lt→ltb (length p.connection.send_queue) message_queue_cap room) refl,
        ap (λ o. p.connection.send_queue ++ answers env o) e,
      )

  -- A synchronised node whose chain represents a ledger answers a request of at least eight bytes, if it can send
  -- without blocking: with the block at that height if the ledger has one, and with nothing otherwise. Its chain
  -- represents the same ledger afterwards.
  pub handle_sync_get_blocks_msg-answers :
      (pm : Manager env) (payload : Bytes) (p : Peer env) (ledger : Ledger)
      → Represents pm.chain ledger
      → is_status_synced pm.block_syncer.status ≡ true
      → 8 ≤ length payload
      → length p.connection.send_queue < message_queue_cap
      → (pm' : Manager env) × (p' : Peer env) × (handle_sync_get_blocks_msg pm payload p
          ≡ done (pm', p'))
        × Represents pm'.chain ledger
        × (p'.connection.send_queue
            ≡ p.connection.send_queue ++ answers env (find_height ledger (requested payload)))
  unfolding handle_sync_get_blocks_msg
  handle_sync_get_blocks_msg-answers pm payload p ledger r synced long room =
      let found =
        get_block_by_height-find_height pm.chain ledger (requested payload) r
          (requested-InRange payload) in
      let pm' = record pm { chain = found.0.0 } in
      let sent =
        respond-answers pm' found.0.1 (find_height ledger (requested payload)) p found.2 room in
      (
        pm',
        sent.0,
        rw (synced, read_height-requested payload long, found.1) sent.1,
        found.3,
        sent.2,
      )

  -- A node asks another for the block at a height: the request is the last message in its queue, and a synchronised
  -- node whose chain represents a ledger answers its payload with the block of the ledger at that height, if there is
  -- one, and with nothing otherwise; if both can send without blocking.
  pub request_sync_get_block-answered :
      (n : Int64) (q : Peer env) (pm : Manager env) (p : Peer env) (ledger : Ledger)
      → InRange n
      → length q.connection.send_queue < message_queue_cap
      → Represents pm.chain ledger
      → is_status_synced pm.block_syncer.status ≡ true
      → length p.connection.send_queue < message_queue_cap
      → (q' : Peer env) × (request : Message) × (pm' : Manager env) × (p' : Peer env)
        × (request_sync_get_block n q ≡ done q')
        × (q'.connection.send_queue ≡ q.connection.send_queue ++ request ∷ [])
        × (handle_sync_get_blocks_msg pm request.payload p ≡ done (pm', p'))
        × Represents pm'.chain ledger
        × (p'.connection.send_queue ≡ p.connection.send_queue ++ answers env (find_height ledger n))
  unfolding request_sync_get_block send
  request_sync_get_block-answered n q pm p ledger h asking r synced room =
      let request = new_message sync_get_blocks_msg (put_height n) in
      let long : 8 ≤ length (put_height n) = omega (arith, length-put_height n) in
      let answer =
        handle_sync_get_blocks_msg-answers pm (put_height n) p ledger r synced long room in
      (
        record q {
          connection = record q.connection { send_queue = q.connection.send_queue ++ request ∷ [] };
        },
        request,
        answer.0,
        answer.1,
        rw (lt→ltb (length q.connection.send_queue) message_queue_cap asking) refl,
        refl,
        answer.2,
        answer.3,
        answer.4
            ∙ ap (λ (k : Int64). p.connection.send_queue ++ answers env (find_height ledger k))
                (requested-put_height n h),
      )

  -- The block of a ledger at a height, if it can be encoded, sent as an answer, is what the node that asked then has for that height.
  pub handle_sync_block_msg-block_map :
      (pm : Manager env) (p : Peer env) (ledger : Ledger) (n : Int64) (b : Block)
      → find_height ledger n ≡ some b
      → IsEncodable b
      → (handle_sync_block_msg pm (env.chain_env.serialize_block b) p).0.block_syncer.block_map n
        ≡ some b
  unfolding handle_sync_block_msg
  handle_sync_block_msg-block_map pm p ledger n b e fits =
      let own = find_height-height ledger n b e in
      let m = pm.block_syncer.block_map in
      ap (λ (c : Block). update m c.header.height (some c) n)
        (env.chain_env.deserialize-serialize_block b fits)
      ∙ ap (λ (k : Int64). update m k (some b) n) own
      ∙ update_self m n (some b)
