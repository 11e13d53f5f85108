-- ===== src/Node/Production/Examples.antt =====
-- A turn in which a node makes a block.
use go_norn.Prelude.{
  ltb→lt, length, ◌<◌, ◌^◌, ◌%◌, ◌≡◌, ◌≢◌, refl, arith, Bool, true, false, Option, none, some, [],
  ◌∷◌, replicate,
}
use go_norn.Prelude.Int64.{int, quot, add64}
use go_norn.Prelude.Lru.{unlimited}
use go_norn.Prelude.Bytes.{Bytes, bytes_eq, encode_to_string, decode_string}
use go_norn.Prelude.Outcome.{Outcome, done, panicked, blocked, diverged}
use go_norn.Common.{Block, set_bytes}
use go_norn.BlockSync
use go_norn.BlockSync.{new_block_syncer, set_synced}
use go_norn.TimeSync.{new_time_syncer, synced}
use go_norn.Calculator.{calculator_initialization}
use go_norn.Buffer.{new_block_buffer, get_priority_leaf}
use go_norn.TxPool.{new_tx_pool}
use go_norn.Chain.{ChainEnv}
use go_norn.Wire.Fixtures.{runtime}
use go_norn.Wire.Memory.{splice}
use go_norn.Prelude.LittleEndian.{put_little_endian}
use go_norn.Serializer.{serialize_general_params, deserialize_general_params}
use go_norn.Serializer.Environments.{pack_env, deserialize-serialize_general_params}
use go_norn.Chain.Fixtures.{chain_env, genesis}
use go_norn.Chain.Packaging.{PackEnv, package_new_block}
use go_norn.Vrf.Three.{once, three, plus, multiple, marshal, unmarshal, marshal_length}
use go_norn.Vrf.{decode_private_key_from_hex_string}
use go_norn.Node.{NodeEnv, Manager, verify_block_vrf}
use go_norn.Node.Production.{Turn, package_block}
use go_norn.Node.Production.Tested.{IsReady}
use go_norn.Node.Production.Accepted.{package_block-accepted}

abbrev chain_env' : ChainEnv
chain_env' = record chain_env {
  buffer_env = record chain_env.buffer_env {
    deserialize_general_params = deserialize_general_params runtime;
  };
}

-- A hash that is small for the empty message.
hashed : Bytes → Bytes
hashed [] = 1 ∷ []
hashed (b ∷ bs) = replicate 32 7

hashed_nonzero : (msg : Bytes) → set_bytes 0 (hashed msg) % 3 ≢ 0
unfolding hashed set_bytes
hashed_nonzero [] e = absurd (omega (arith, e))
hashed_nonzero (b ∷ bs) e = absurd (omega (arith, e))

abbrev env : NodeEnv
env = record {
  chain_env = chain_env';
  curve = three;
  sha256 = hashed;
  known_lru = unlimited Unit;
  serialize_status_msg = λ m. [];
}

abbrev pack : PackEnv
pack = pack_env runtime (λ text. replicate 32 7)

abbrev public : Bytes
public = 2 ∷ 1 ∷ replicate 31 0

abbrev turn : Turn
turn = record {
  clock = int 4000;
  local_random = 1;
  random = 1;
  ranged = [];
  prv_hex = b'0' ∷ b'2' ∷ [];
  pub_hex = encode_to_string public;
}

abbrev node : Manager env
node = record {
  known_block = env.known_lru.new;
  known_transaction = env.known_lru.new;
  block_broadcast_queue = [];
  tx_broadcast_queue = [];
  chain = record {
    db = λ k. none;
    block_height_map = chain_env.height_lru.new;
    block_cache = chain_env.block_lru.new;
    tx_cache = chain_env.tx_lru.new;
    latest_block = some genesis;
    latest_height = int 0;
    buffer = some (new_block_buffer chain_env'.buffer_env genesis);
    block_chan = [];
    tasks = [];
    genesis_params = none;
    genesis_time = int 0;
    calculator = some (calculator_initialization 5 35 (int 2));
    pool = new_tx_pool;
  };
  buffer_chan = [];
  block_syncer = set_synced new_block_syncer;
  time_syncer = record (new_time_syncer true (int 0)) { status = synced };
}

node-IsReady : IsReady env pack turn (record { number = 2; public = multiple 2 once })
unfolding decode_private_key_from_hex_string decode_string set_bytes multiple plus unmarshal
    bytes_eq encode_to_string
node-IsReady = record {
  reads = deserialize-serialize_general_params runtime;
  compressed = marshal_length;
  private_key = refl;
  public_key = (public, refl, refl, refl);
  key_nonzero = λ e. absurd (omega (arith, e));
  random_nonzero = λ e. absurd (omega (arith, e));
  local_nonzero = λ e. absurd (omega (arith, e));
}

abbrev made : Outcome (Manager env × Option Block) → Block
made (done (pm, some block)) = block
made _ = genesis

abbrev left : Outcome (Manager env × Option Block) → Manager env
left (done (pm, o)) = pm
left _ = node

abbrev is_made : Outcome (Manager env × Option Block) → Bool
is_made (done (pm, some block)) = true
is_made _ = false

made_lem :
    (o : Outcome (Manager env × Option Block)) → is_made o ≡ true → o ≡ done (left o, some (made o))
made_lem (done (pm, some block)) e = refl
made_lem (done (pm, none)) e = cc e
made_lem panicked e = cc e
made_lem blocked e = cc e
made_lem diverged e = cc e

makes : is_made (package_block pack turn node) ≡ true
unfolding package_block package_new_block new_block_buffer get_priority_leaf encode_to_string hashed
    calculator_initialization decode_string set_bytes multiple plus marshal
makes = refl

made_small : length (made (package_block pack turn node)).header.params < 2 ^ 32
unfolding package_block package_new_block new_block_buffer get_priority_leaf encode_to_string hashed
    calculator_initialization decode_string set_bytes multiple plus marshal serialize_general_params
    splice put_little_endian
made_small = ltb→lt (length (made (package_block pack turn node)).header.params) (2 ^ 32) refl

package_block-accepted_example :
    (quot (add64 (int 4000) node.time_syncer.delta) 1000 % 2 ≡ 0)
    × (node.block_syncer.status ≡ BlockSync.synced)
    × (node.time_syncer.status ≡ synced)
    × (verify_block_vrf env (made (package_block pack turn node)) ≡ done true)
package_block-accepted_example =
    package_block-accepted pack turn (record { number = 2; public = multiple 2 once }) node-IsReady
      node (left (package_block pack turn node)) (made (package_block pack turn node))
      (made_lem (package_block pack turn node) makes) made_small
      (hashed_nonzero
        (chain_env'.buffer_env.deserialize_general_params
          (made (package_block pack turn node)).header.params).result)
