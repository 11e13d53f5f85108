-- ===== src/Node/Examples.antt =====
-- Runs of a node.
use go_norn.Prelude.{
  ℕ, List, length, take, ◌≤◌, ◌≡◌, refl, arith, true, false, some, [], ◌∷◌, ◌++◌, replicate,
}
use go_norn.Prelude.Int64.{int}
use go_norn.Prelude.Bytes.{Bytes, bytes_eq}
use go_norn.Prelude.Lru.{unlimited}
use go_norn.Prelude.Outcome.{done}
use go_norn.Common.{Block, Transaction, set_bytes}
use go_norn.Common.Encodable.{IsEncodable}
use go_norn.BlockSync.{BlockSyncer, block_syncing, new_block_syncer, set_synced}
use go_norn.Node.Rounds.{PeerSet, run_tick}
use go_norn.Node.Rounds.Ascending.{Ascending, run_tick-Ascending}
use go_norn.TimeSync.{new_time_syncer, request, process_sync_respond}
use go_norn.Wire.Fixtures.{runtime}
use go_norn.Serializer.{
  bytes_of, serialize_time_sync_msg, serialize_transaction, deserialize_transaction,
}
use go_norn.Node.Streams.{PeerId}
use go_norn.Node.Broadcast.{
  new_p2p_manager, broadcast_transaction, transaction_udp, udp_buffer_size,
}
use go_norn.Node.Broadcast.Delivery.{Learned, broadcast_transaction-received}
use go_norn.Wire.Memory.{splice, slice}
use go_norn.Wire.{write_cells, copy_array, view_fixed, int64_of, view_slice}
use go_norn.Prelude.LittleEndian.{put_little_endian, little_endian}
use mathlib.Core.List.{Mem}
use go_norn.Node.Dispatch.{Desk, dispatch, time_sync_req, time_sync_rsp}
use go_norn.Node.Dispatch.Times.{dispatch-exchange, readings}
use go_norn.Vrf.{vrf_verify, challenge}
use go_norn.Vrf.Three.{twice, three, plus, multiple, marshal, unmarshal}
use go_norn.Peer.{Message, new_peer, new_message}
use go_norn.Chain.Fixtures.{chain_env, genesis, start, one, small, small-IsSendable}
use go_norn.Chain.Ledger.{find_height, Represents}
use go_norn.Node.{
  NodeEnv, Peer, Manager, mark_block, mark_peer_block, parse_block, verify_block_vrf,
}
use go_norn.Node.Handlers.{handle_new_block_msg, handle_sync_get_blocks_msg, request_sync_get_block}
use go_norn.Node.Gossip.{received, own, gossip_turn, gossip_block_subscribe}
use go_norn.Node.Duplicates.{handle_new_block_msg-again, gossip_block_subscribe-second_copy}
use go_norn.Node.Requests.{answers, request_sync_get_block-answered}

abbrev env : NodeEnv
env = record {
  chain_env = chain_env;
  curve = three;
  sha256 = λ msg. 1 ∷ [];
  known_lru = unlimited Unit;
  serialize_status_msg = λ m. [];
}

abbrev node : Manager env
node = record {
  known_block = env.known_lru.new;
  known_transaction = env.known_lru.new;
  block_broadcast_queue = [];
  tx_broadcast_queue = [];
  chain = start;
  buffer_chan = [];
  block_syncer = set_synced new_block_syncer;
  time_syncer = new_time_syncer true (int 0);
}

abbrev peer : Peer env
peer = record {
  known_blocks = env.known_lru.new;
  known_txs = env.known_lru.new;
  mark_synced = false;
  connection = new_peer;
}

-- A block at height 1 whose proof verifies, but whose output is too low.
abbrev next : Block
next = record genesis {
  header = record genesis.header {
    block_hash = replicate 32 2;
    prev_block_hash = replicate 32 1;
    height = int 1;
    public_key = 2 ∷ 1 ∷ replicate 31 0;
  };
}

next-IsEncodable : IsEncodable next
next-IsEncodable = (
  record {
    prev_block_hash = refl;
    block_hash = refl;
    merkle_root = refl;
    public_key = refl;
    timestamp = omega arith;
    height = omega arith;
    gas_limit = omega arith;
  },
  tt,
  omega arith,
)

abbrev payload : Bytes
payload = chain_env.serialize_block next

payload-parsed : parse_block env payload ≡ next
payload-parsed = chain_env.deserialize-serialize_block next next-IsEncodable

next-refused : verify_block_vrf env next ≡ done false
unfolding verify_block_vrf unmarshal bytes_eq multiple plus challenge marshal set_bytes
next-refused = refl

next-verified :
    vrf_verify three (λ msg. 1 ∷ []) (some twice) [] 1 2 (2 ∷ 1 ∷ replicate 31 0) ≡ done true
unfolding vrf_verify unmarshal bytes_eq multiple plus challenge marshal set_bytes
next-verified = refl

handled :
    handle_new_block_msg node payload peer ≡ done (mark_block node next, mark_peer_block peer next)
unfolding handle_new_block_msg unmarshal bytes_eq multiple plus challenge marshal set_bytes
handled = rw payload-parsed refl

handle_new_block_msg-again_example :
    handle_new_block_msg (mark_block node next) payload peer ≡ done (mark_block node next, peer)
handle_new_block_msg-again_example =
    handle_new_block_msg-again node (mark_block node next) payload peer (mark_peer_block peer next)
      peer handled

turned : gossip_turn node (received payload) ≡ done (mark_block node next, true)
unfolding gossip_turn unmarshal bytes_eq multiple plus challenge marshal set_bytes
turned = rw payload-parsed refl

gossip_block_subscribe-second_copy_example :
    gossip_block_subscribe node (received payload ∷ received payload ∷ own ∷ [])
    ≡ done (mark_block node next, false)
gossip_block_subscribe-second_copy_example =
    gossip_block_subscribe-second_copy node (mark_block node next) payload (own ∷ []) refl turned

abbrev holder : Manager env
holder = record node { chain = one.0 }

request_sync_get_block-answered_example :
    (q' : Peer env) × (request : Message) × (pm' : Manager env) × (p' : Peer env)
    × (request_sync_get_block (int 0) peer ≡ done q')
    × (q'.connection.send_queue ≡ request ∷ [])
    × (handle_sync_get_blocks_msg holder request.payload peer ≡ done (pm', p'))
    × Represents pm'.chain (genesis ∷ [])
    × (p'.connection.send_queue ≡ answers env (find_height (genesis ∷ []) (int 0)))
request_sync_get_block-answered_example =
    request_sync_get_block-answered (int 0) peer holder peer (genesis ∷ []) (omega arith)
      (omega arith) one.2 refl (omega arith)

asked_for_genesis : find_height (genesis ∷ []) (int 0) ≡ some genesis
unfolding find_height
asked_for_genesis = refl

-- Three peers, of which the second waits for an answer, and a node that knows of six blocks.
abbrev peers : PeerSet env
peers = record {
  peer_set = (1, peer) ∷ (2, record peer { mark_synced = true }) ∷ (3, peer) ∷ [];
  peer_req_time = λ id. some 0;
  status_msg = [];
}

abbrev behind : BlockSyncer
behind = record new_block_syncer { remote_height = int 5; status = block_syncing }

run_tick-Ascending_example : Ascending 9000 behind (int 0) (run_tick 9000 behind peers).2
run_tick-Ascending_example = run_tick-Ascending 9000 behind peers

asked : (run_tick 9000 behind peers).2 ≡ (int 0, 1) ∷ (int 1, 3) ∷ []
unfolding run_tick
asked = refl

abbrev desk : Desk env
desk = record { manager = node; peers = peers }

dispatch-exchange_example :
    (text answer : Bytes) × (serialize_time_sync_msg runtime (request (int 100) node.time_syncer)
      ≡ some text)
    × (dispatch runtime (int 140) (int 141) desk (new_message time_sync_req text) peer
        ≡ done (
          desk,
          record peer {
            connection = record peer.connection {
              send_queue = peer.connection.send_queue ++ new_message time_sync_rsp answer ∷ [];
            };
          },
        ))
    × (dispatch runtime (int 120) (int 120) desk (new_message time_sync_rsp answer) peer
        ≡ done (
          record desk {
            manager = record node {
              time_syncer = process_sync_respond node.time_syncer (
                  readings node.time_syncer node.time_syncer
                    (int 100)
                    (int 140)
                    (int 141)
                    (int 120));
            };
          },
          peer,
        ))
dispatch-exchange_example =
    dispatch-exchange runtime desk desk peer peer (int 100) (int 140) (int 141) (int 120) (int 120)
      (omega arith)

-- Two neighbours, of which every round draws the second.
abbrev neighbours : List (PeerId × ℕ)
neighbours = (1 ∷ [], 0) ∷ (2 ∷ [], 1) ∷ []

abbrev loaded : Manager env
loaded = record node { tx_broadcast_queue = small ∷ [] }

abbrev newcomer : Manager env
newcomer = new_p2p_manager start false (int 0)

small-fits_buffer : length (bytes_of (serialize_transaction runtime small)) ≤ udp_buffer_size
unfolding serialize_transaction splice put_little_endian write_cells
small-fits_buffer = omega arith

broadcast_transaction-received_example :
    (text : Bytes) × (receiver' : Manager env) × (serialize_transaction runtime small ≡ some text)
    × Mem (2 ∷ [], text) (broadcast_transaction runtime neighbours (λ i. 1) (λ p. true) loaded).1
    × (transaction_udp newcomer text ≡ done receiver')
    × Learned newcomer receiver' small
    × (transaction_udp receiver' text ≡ done receiver')
broadcast_transaction-received_example =
    broadcast_transaction-received runtime (λ text. refl) loaded newcomer neighbours (λ i. 1)
      (λ p. true) small [] 0 (2 ∷ [], 1) refl small-IsSendable small-fits_buffer (omega arith) refl
      refl refl (omega arith)

-- A signed transaction of 900 bytes of payload: what the buffer takes of its text is read without payload or signature.
abbrev large : Transaction
large = record small { body = record small.body { payload = replicate 900 1 } }

large-cut :
    deserialize_transaction runtime
      (take udp_buffer_size (bytes_of (serialize_transaction runtime large)))
    ≡ record small { body = record small.body { payload = []; signature = [] } }
unfolding serialize_transaction deserialize_transaction splice put_little_endian write_cells
    copy_array view_fixed little_endian slice int64_of view_slice
large-cut = refl
