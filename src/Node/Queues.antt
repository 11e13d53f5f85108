-- ===== src/Node/Queues.antt =====
-- node/peer.go: NewPeer, what a peer is known to have, and its four queues, with the sends of node/request.go and
-- node/respond.go that no handler makes at present. Nothing takes from the queues, since the routines that would are not
-- started.
use go_norn.Prelude.{
  ℕ, ◌+◌, ◌≤◌, ◌<◌, ◌≡◌, refl, ◌∙◌, arith, Bool, false, true, Option, none, some, List, [], ◌∷◌,
  ◌++◌, length, ltb, append_assoc, append-nil, length-append, sym, lt→ltb, ltb→lt, Bool-cases, inl,
  inr,
}
use go_norn.Prelude.Bytes.{Bytes, encode_to_string}
use go_norn.Prelude.Outcome.{Outcome, done, blocked, ◌>>=◌}
use go_norn.Prelude.Lru.{contains}
use go_norn.Common.{Block, Transaction, Hash}
use go_norn.Peer.{send, new_peer}
use go_norn.Node.{NodeEnv, Peer, push, mark_peer_block}
use go_norn.Node.Dispatch.{block_bodies_msg}
use go_norn.Wire.{Runtime}
use go_norn.Serializer.{serialize_block, serialize_transaction}

-- maxQueuedTxs, maxQueuedTxAnns, maxQueuedBlocks and maxQueuedBlockAnns
abbrev pub max_queued_txs : ℕ
max_queued_txs = 4096

abbrev pub max_queued_tx_anns : ℕ
max_queued_tx_anns = 4096

abbrev pub max_queued_blocks : ℕ
max_queued_blocks = 4

abbrev pub max_queued_block_anns : ℕ
max_queued_block_anns = 4

-- StatusCodeGetBlockBodiesMsg and StatusCodePooledTransactionsMsg
abbrev pub get_block_bodies_msg : ℕ
get_block_bodies_msg = 7

abbrev pub pooled_transactions_msg : ℕ
pooled_transactions_msg = 16

-- node.Peer with its queues.
pub record QueuedPeer (env : NodeEnv) : Type 0 where
  pub peer : Peer env
  pub queued_blocks : List Block
  pub queued_block_anns : List Hash
  pub tx_broadcast : List Transaction
  pub tx_announce : List Hash

module _ {env : NodeEnv} where
  -- NewPeer, if p2p.NewPeer succeeds.
  abbrev pub new_queued_peer : QueuedPeer env
  new_queued_peer = record {
    peer = record {
      known_blocks = env.known_lru.new;
      known_txs = env.known_lru.new;
      mark_synced = false;
      connection = new_peer;
    };
    queued_blocks = [];
    queued_block_anns = [];
    tx_broadcast = [];
    tx_announce = [];
  }

  -- MarkTransaction, KnownBlock and KnownTransaction
  abbrev pub mark_peer_transaction : Peer env → Bytes → Peer env
  mark_peer_transaction p hash = record p { known_txs = env.known_lru.add p.known_txs hash tt }

  abbrev pub peer_knows_block : Peer env → Bytes → Bool
  peer_knows_block p hash = contains env.known_lru p.known_blocks hash

  abbrev pub peer_knows_transaction : Peer env → Bytes → Bool
  peer_knows_transaction p hash = contains env.known_lru p.known_txs hash

  -- AsyncSendNewBlock, AsyncSendNewBlockHash, AsyncSendTransaction and AsyncSendTxHash
  unfoldable pub async_send_new_block : QueuedPeer env → Block → Outcome (QueuedPeer env)
  async_send_new_block p block = do
    queue ← push max_queued_blocks p.queued_blocks block
    done (record p { peer = mark_peer_block p.peer block; queued_blocks = queue })

  unfoldable pub async_send_new_block_hash : QueuedPeer env → Hash → Outcome (QueuedPeer env)
  async_send_new_block_hash p hash = do
    queue ← push max_queued_block_anns p.queued_block_anns hash
    done (record p { queued_block_anns = queue })

  unfoldable pub async_send_transaction : QueuedPeer env → Transaction → Outcome (QueuedPeer env)
  async_send_transaction p tx = do
    queue ← push max_queued_txs p.tx_broadcast tx
    done (record p {
      peer = mark_peer_transaction p.peer (encode_to_string tx.body.hash);
      tx_broadcast = queue;
    })

  unfoldable pub async_send_tx_hash : QueuedPeer env → Hash → Outcome (QueuedPeer env)
  async_send_tx_hash p hash = do
    queue ← push max_queued_tx_anns p.tx_announce hash
    done (record p { tx_announce = queue })

  -- requestBlockWithHash
  unfoldable pub request_block_with_hash : Hash → Peer env → Outcome (Peer env)
  unfolding send
  request_block_with_hash hash p = do
    connection ← send p.connection get_block_bodies_msg hash
    done (record p { connection = connection })

  -- The send of a text under a code, which a failure of the encoder prevents.
  unfoldable pub send_text : ℕ → Option Bytes → Peer env → Outcome (Peer env)
  unfolding send
  send_text code none p = done p
  send_text code (some text) p = do
    connection ← send p.connection code text
    done (record p { connection = connection })

  -- respondGetBlockBodies and respondGetPooledTransaction
  unfoldable pub respond_get_block_bodies : Runtime → Block → Peer env → Outcome (Peer env)
  unfolding send_text serialize_block
  respond_get_block_bodies k block p = send_text block_bodies_msg (serialize_block k block) p

  unfoldable pub respond_get_pooled_transaction :
      Runtime → Transaction → Peer env → Outcome (Peer env)
  unfolding send_text serialize_transaction
  respond_get_pooled_transaction k tx p =
      send_text pooled_transactions_msg (serialize_transaction k tx) p

  -- AsyncSendNewBlock on one block after the other.
  unfoldable pub send_all : QueuedPeer env → List Block → Outcome (QueuedPeer env)
  unfolding async_send_new_block
  send_all p [] = done p
  send_all p (block ∷ blocks) = do p' ← async_send_new_block p block; send_all p' blocks

  with_block : QueuedPeer env → Block → QueuedPeer env
  with_block p block = record p {
    peer = mark_peer_block p.peer block;
    queued_blocks = p.queued_blocks ++ block ∷ [];
  }

  async_send_new_block-room :
      (p : QueuedPeer env) (block : Block)
      → ltb (length p.queued_blocks) max_queued_blocks ≡ true
      → (async_send_new_block p block ≡ done (with_block p block))
        × (length (with_block p block).queued_blocks ≡ length p.queued_blocks + 1)
  unfolding async_send_new_block with_block
  async_send_new_block-room p block room =
      (rw room refl, length-append p.queued_blocks (block ∷ []))

  -- The blocks that there is room for are queued in their order.
  pub send_all-room :
      (blocks : List Block) (p : QueuedPeer env)
      → length p.queued_blocks + length blocks ≤ max_queued_blocks
      → (p' : QueuedPeer env) × (send_all p blocks ≡ done p')
        × (p'.queued_blocks ≡ p.queued_blocks ++ blocks)
  unfolding send_all with_block
  send_all-room [] p h = (p, refl, sym (append-nil p.queued_blocks))
  send_all-room (block ∷ blocks) p h =
      let sent = async_send_new_block-room p block (lt→ltb _ _ (omega (arith, h))) in
      let rest = send_all-room blocks (with_block p block) (omega (arith, h, sent.1)) in
      (rest.0, rw sent.0 rest.1, rest.2 ∙ append_assoc p.queued_blocks (block ∷ []) blocks)

  -- With more blocks than there is room for the sender blocks for good.
  pub send_all-full :
      (blocks : List Block) (p : QueuedPeer env)
      → length p.queued_blocks ≤ max_queued_blocks
      → max_queued_blocks < length p.queued_blocks + length blocks
      → send_all p blocks ≡ blocked
  unfolding send_all async_send_new_block
  send_all-full [] p h k = absurd (omega (arith, h, k))
  send_all-full (block ∷ blocks) p h k =
      elim (Bool-cases (ltb (length p.queued_blocks) max_queued_blocks)) [
        | inl room ↦
            let sent = async_send_new_block-room p block room in
            rw sent.0 (
              send_all-full blocks (with_block p block) (omega (arith, sent.1, ltb→lt _ _ room))
                (omega (arith, sent.1, k)))
        | inr full ↦
            let stuck : async_send_new_block p block ≡ blocked = rw full refl in rw stuck refl
      ]
