-- ===== src/Node/Broadcast.antt =====
-- node/manager.go: broadcastBlock and broadcastTransaction, which send on what the other routines put into the queues, the
-- datagrams of UDPGossipBroadcast and TransactionUDP, isKnownTransaction, and NewP2PManager. One turn of a routine is one
-- function; with an empty queue the routine waits.
pub mod Delivery
use go_norn.Prelude.{
  ℕ, zero, suc, ◌-◌, Bool, true, false, Option, none, some, List, [], ◌∷◌, if◌then◌else◌, take,
  get_elem?, is_some,
}
use go_norn.Prelude.Int64.{Int64}
use go_norn.Prelude.Bytes.{Bytes, encode_to_string}
use go_norn.Prelude.Outcome.{Outcome}
use go_norn.Common.{Block, Transaction, Hash}
use go_norn.BlockSync.{new_block_syncer}
use go_norn.BlockSync.{start as start_block_syncer}
use go_norn.TimeSync.{new_time_syncer}
use go_norn.TimeSync.{start as start_time_syncer}
use go_norn.TxPool.{contain}
use go_norn.Chain.{BlockChain, get_transaction_by_hash}
use go_norn.Node.{NodeEnv, Manager}
use go_norn.Node.Gossip.{receive_transaction}
use go_norn.Node.Streams.{PeerId}
use go_norn.Wire.{Runtime}
use go_norn.Serializer.{serialize_block, serialize_transaction}

abbrev pub gossip_nodes : ℕ
gossip_nodes = 8

abbrev pub udp_buffer_size : ℕ
udp_buffer_size = 1024

module _ {env : NodeEnv} where
  -- NewP2PManager on a chain, with both syncers started and without the routines.
  abbrev pub new_p2p_manager : BlockChain env.chain_env → Bool → Int64 → Manager env
  new_p2p_manager chain genesis initial_delta = record {
    known_block = env.known_lru.new;
    known_transaction = env.known_lru.new;
    block_broadcast_queue = [];
    tx_broadcast_queue = [];
    chain = chain;
    buffer_chan = [];
    block_syncer = start_block_syncer new_block_syncer;
    time_syncer = start_time_syncer (new_time_syncer genesis initial_delta);
  }

  -- isKnownTransaction
  unfoldable pub is_known_transaction : Manager env → Hash → Manager env × Bool
  unfolding contain get_transaction_by_hash
  is_known_transaction pm hash =
      let found = get_transaction_by_hash pm.chain hash in
      if contain pm.chain.pool (encode_to_string hash)
      then (pm, true)
      else (record pm { chain = found.0 }, is_some found.1)

  -- TransactionUDP, for one datagram: a read takes the bytes that the buffer has room for, and the rest is lost.
  unfoldable pub transaction_udp : Manager env → Bytes → Outcome (Manager env)
  unfolding receive_transaction
  transaction_udp pm datagram = receive_transaction pm (take udp_buffer_size datagram)

-- A datagram with the peer it goes to.
abbrev pub Datagram : Type 0
Datagram = PeerId × Bytes

-- One draw of UDPGossipBroadcast: a peer that is nil, or whose address cannot be resolved, dialed or written to, is passed
-- over.
abbrev pub send_drawn :
    (PeerId → Bool) → Bytes → Option (PeerId × ℕ) → List Datagram → List Datagram
send_drawn reaches text none rest = rest
send_drawn reaches text (some p) rest = if reaches p.0 then (p.0, text) ∷ rest else rest

-- The loop of UDPGossipBroadcast, with the rounds left; `draw i` is what rand.Intn returns in round i.
unfoldable pub gossip_loop :
    List (PeerId × ℕ) → (ℕ → ℕ) → (PeerId → Bool) → Bytes → ℕ → List Datagram
gossip_loop peer_set draw reaches text zero = []
gossip_loop peer_set draw reaches text (suc left) =
    send_drawn reaches text (get_elem? peer_set (draw (gossip_nodes - suc left)))
      (gossip_loop peer_set draw reaches text left)

abbrev pub gossip_text :
    List (PeerId × ℕ) → (ℕ → ℕ) → (PeerId → Bool) → Option Bytes → List Datagram
gossip_text peer_set draw reaches none = []
gossip_text [] draw reaches (some text) = []
gossip_text (p ∷ ps) draw reaches (some text) = gossip_loop (p ∷ ps) draw reaches text gossip_nodes

module _ (k : Runtime) where
  -- UDPGossipBroadcast
  unfoldable pub udp_gossip_broadcast :
      List (PeerId × ℕ) → (ℕ → ℕ) → (PeerId → Bool) → Transaction → List Datagram
  udp_gossip_broadcast peer_set draw reaches tx =
      gossip_text peer_set draw reaches (serialize_transaction k tx)

  module _ {env : NodeEnv} where
    -- broadcastTransaction
    unfoldable pub broadcast_transaction :
        List (PeerId × ℕ) → (ℕ → ℕ) → (PeerId → Bool) → Manager env → Manager env × List Datagram
    unfolding udp_gossip_broadcast
    broadcast_transaction peer_set draw reaches pm = elim pm.tx_broadcast_queue [
      | [] ↦ (pm, [])
      | tx ∷ txs ↦
          (record pm { tx_broadcast_queue = txs }, udp_gossip_broadcast peer_set draw reaches tx)
    ]

    -- broadcastBlock, with what it publishes under the topic of blocks.
    unfoldable pub broadcast_block : Manager env → Manager env × Option Bytes
    broadcast_block pm = elim pm.block_broadcast_queue [
      | [] ↦ (pm, none)
      | block ∷ blocks ↦ (record pm { block_broadcast_queue = blocks }, serialize_block k block)
    ]
