-- ===== src/Node.antt =====
-- node/handler_funcs.go and node/manager.go: what a node does with the messages, blocks and transactions that other nodes
-- send it. A send to a full channel blocks; a goroutine that only sends on a channel is that send.
pub mod Handlers
pub mod Gossip
pub mod Duplicates
pub mod Requests
pub mod Streams
pub mod Production
pub mod Rounds
pub mod Dispatch
pub mod Broadcast
pub mod Queues
mod Examples
use go_norn.Prelude.{
  ℕ, zero, suc, ◌+◌, ◌-◌, ◌*◌, ◌%◌, ◌/◌, ◌^◌, Bool, true, false, not, ◌&&◌, ◌||◌, Option, none,
  some, List, [], ◌∷◌, ◌++◌, ltb, ◌==◌, if◌then◌else◌, length, take, replicate,
}
use go_norn.Prelude.Int64.{Int64, int, minus, half, modulus}
use go_norn.Prelude.Bytes.{Bytes, encode_to_string}
use go_norn.Prelude.LittleEndian.{put_little_endian, little_endian}
use go_norn.Prelude.Outcome.{Outcome, done, panicked, blocked, ◌>>=◌}
use go_norn.Prelude.Lru.{Lru, contains}
use go_norn.Common.{Block, Transaction, Hash, block_hash, set_bytes}
use go_norn.BlockSync.{
  BlockSyncer, Status, sync_paused, block_syncing, buffer_syncing, synced, append_block, set_synced,
}
use go_norn.TimeSync.{TimeSyncer}
use go_norn.TimeSync.{is_synced as is_clock_synced}
use go_norn.TxPool.{TxPool, add}
use go_norn.Chain.{ChainEnv, BlockChain, get_block_by_height, get_latest_block, buffered_height}
use go_norn.Chain.Insert.{append_block_task}
use go_norn.Peer.{send}
use go_norn.Peer.{Peer as Connection}
use go_norn.Vrf.{Curve, bytes2_public_key, vrf_check_remote_consensus}

-- p2p.SyncStatusMsg
pub record SyncStatusMsg : Type 0 where
  pub latest_height : Int64
  pub latest_hash : Hash
  pub buffered_start_height : Int64
  pub buffered_end_height : Int64

-- What the node takes from outside: the chain's environment, the curve, SHA-256 and the caches of known hashes.
pub record NodeEnv : Type 1 where
  pub chain_env : ChainEnv
  pub curve : Curve
  pub sha256 : Bytes → Bytes
  pub known_lru : Lru Bytes (Unit {0})
  pub serialize_status_msg : SyncStatusMsg → Bytes

-- The part of node.Peer that the handlers use, with the p2p.Peer below it.
pub record Peer (env : NodeEnv) : Type 0 where
  pub known_blocks : env.known_lru.Cache
  pub known_txs : env.known_lru.Cache
  pub mark_synced : Bool
  pub connection : Connection

-- P2PManager, with the chain it holds; `buffer_chan` is what BlockChain.InsertBlock sends to.
pub record Manager (env : NodeEnv) : Type 0 where
  pub known_block : env.known_lru.Cache
  pub known_transaction : env.known_lru.Cache
  pub block_broadcast_queue : List Block
  pub tx_broadcast_queue : List Transaction
  pub chain : BlockChain env.chain_env
  pub buffer_chan : List Block
  pub block_syncer : BlockSyncer
  pub time_syncer : TimeSyncer

-- StatusCodeSyncStatusMsg, StatusCodeSyncGetBlocksMsg and StatusCodeSyncBlocksMsg
abbrev pub sync_status_msg : ℕ
sync_status_msg = 18

abbrev pub sync_get_blocks_msg : ℕ
sync_get_blocks_msg = 19

abbrev pub sync_blocks_msg : ℕ
sync_blocks_msg = 20

-- make(chan *common.Block, 512) and make(chan *common.Transaction, 10240)
abbrev pub block_queue_cap : ℕ
block_queue_cap = 512

abbrev pub tx_queue_cap : ℕ
tx_queue_cap = 10240

abbrev pub push : {A : Type 0} → ℕ → List A → A → Outcome (List A)
push cap queue a = if ltb (length queue) cap then done (queue ++ a ∷ []) else blocked

-- status == blockSyncing || status == syncPaused, and status != synced.
abbrev pub is_catching_up : Status → Bool
is_catching_up sync_paused = true
is_catching_up block_syncing = true
is_catching_up buffer_syncing = false
is_catching_up synced = false

abbrev pub is_status_synced : Status → Bool
is_status_synced synced = true
is_status_synced _ = false

-- binary.LittleEndian.PutUint64 of uint64(height).
unfoldable pub put_height : Int64 → Bytes
unfolding put_little_endian
put_height height = put_little_endian 8 ((height + half) % modulus)

-- int64(binary.LittleEndian.Uint64(payload)), which panics on fewer than eight bytes.
unfoldable pub read_height : Bytes → Outcome Int64
unfolding little_endian
read_height payload =
    if ltb (length payload) 8
    then panicked
    else done ((little_endian (take 8 payload) + half) % modulus)

module _ {env : NodeEnv} where
  -- markBlock and MarkBlock
  abbrev pub mark_block : Manager env → Block → Manager env
  mark_block pm block = record pm {
    known_block = env.known_lru.add pm.known_block (block_hash block) tt;
  }

  abbrev pub mark_peer_block : Peer env → Block → Peer env
  mark_peer_block p block = record p {
    known_blocks = env.known_lru.add p.known_blocks (block_hash block) tt;
  }

  -- InsertBlock, in a routine of its own.
  abbrev pub insert_later : Manager env → Block → Manager env
  insert_later pm block = record pm { buffer_chan = pm.buffer_chan ++ block ∷ [] }

  abbrev pub append_task : Manager env → Block → Outcome (Manager env)
  append_task pm block = do
    chain ← append_block_task pm.chain block
    done (record pm { chain = chain })

  abbrev pub broadcast : Manager env → Block → Outcome (Manager env)
  broadcast pm block = do
    queue ← push block_queue_cap pm.block_broadcast_queue block
    done (record pm { block_broadcast_queue = queue })

module _ (env : NodeEnv) where
  -- verifyBlockVRF
  unfoldable pub verify_block_vrf : Block → Outcome Bool
  unfolding vrf_check_remote_consensus
  verify_block_vrf block =
      let params = env.chain_env.buffer_env.deserialize_general_params block.header.params in
      vrf_check_remote_consensus env.curve env.sha256
        (bytes2_public_key env.curve block.header.public_key) params.result (set_bytes 0 params.s)
        (set_bytes 0 params.t) params.random_number

  abbrev pub parse_block : Bytes → Block
  parse_block = env.chain_env.deserialize_block
