-- ===== src/Chain/Examples.antt =====
-- Runs on a small chain.
use go_norn.Prelude.{
  ℕ, ◌<◌, ◌≡◌, refl, arith, true, false, Option, none, some, List, [], ◌∷◌, replicate,
}
use go_norn.Prelude.Int64.{int}
use go_norn.Prelude.Bytes.{Bytes, encode_to_string, decode_string, bytes_eq}
use go_norn.Prelude.Outcome.{done}
use go_norn.Common.{Block, Transaction, GeneralParams, GenesisParams, is_genesis_block}
use go_norn.Buffer.{new_block_buffer, get_priority_leaf}
use go_norn.Buffer.Handlers.{is_orphan}
use go_norn.Buffer.Handlers.Gapless.{new_block_buffer-IsValid}
use go_norn.TxPool.{new_tx_pool}
use go_norn.Chain.{BlockChain, get_block_by_hash, get_block_by_height}
use go_norn.Chain.Fixtures.{
  chain_env, replicate-IsBytes, hash, block, block-IsMember, genesis, start, start-Represents, one,
}
use go_norn.Chain.Insert.{insert_block, append_block_task, new_blockchain}
use go_norn.Chain.Ledger.{find_hash, find_height, Represents, spec_insert}
use go_norn.Chain.Lookups.{get_block_by_hash-find_hash}
use go_norn.Chain.Heights.{get_block_by_height-find_height}
use go_norn.Chain.Insert.Growth.{insert_block-spec_insert, spec_insert_all}
use go_norn.Chain.Insert.Opening.{
  IsOpened, new_blockchain-IsOpened, append_block_task-forged_genesis,
}
use go_norn.Chain.Packaging.{PackEnv, package_new_block, new_genesis_block}
use go_norn.Chain.Packaging.Placement.{package_new_block-placed}
use go_norn.Chain.Packaging.Genesis.{new_genesis_block-first}

-- A block on the genesis block, and another with the hash of zeros before it.
abbrev second : Block
second = block 2 1 (int 1) []

abbrev forged : Block
forged = block 3 0 (int 5) []

insert_block-spec_insert_example :
    (after : BlockChain chain_env) × (insert_block start genesis ≡ done after)
    × Represents after (spec_insert [] genesis)
insert_block-spec_insert_example =
    insert_block-spec_insert start [] genesis start-Represents
      (block-IsMember 1 0 0 [] (omega arith) (omega arith) tt (omega arith))

left_out : spec_insert_all [] (genesis ∷ block 9 8 (int 1) [] ∷ second ∷ []) ≡ second ∷ genesis ∷ []
unfolding spec_insert find_hash is_genesis_block encode_to_string bytes_eq
left_out = refl

get_block_by_hash-find_hash_example :
    ((get_block_by_hash one.0 (hash 1)).1 ≡ find_hash (genesis ∷ []) (hash 1))
    × Represents (get_block_by_hash one.0 (hash 1)).0 (genesis ∷ [])
get_block_by_hash-find_hash_example =
    get_block_by_hash-find_hash one.0 (genesis ∷ []) (hash 1) one.2
      (refl, replicate-IsBytes 32 1 (omega arith))

get_block_by_height-find_height_example :
    (r : BlockChain chain_env × Option Block) × (get_block_by_height one.0 (int 0) ≡ done r)
    × (r.1 ≡ find_height (genesis ∷ []) (int 0))
    × Represents r.0 (genesis ∷ [])
get_block_by_height-find_height_example =
    get_block_by_height-find_height one.0 (genesis ∷ []) (int 0) one.2 (omega arith)

found :
    (find_hash (genesis ∷ []) (hash 1) ≡ some genesis)
    × (find_height (genesis ∷ []) (int 0) ≡ some genesis)
unfolding find_hash find_height bytes_eq
found = (refl, refl)

new_blockchain-IsOpened_example :
    (bc : BlockChain chain_env) × (new_blockchain one.0.db none new_tx_pool ≡ done bc)
    × IsOpened (genesis ∷ []) bc
new_blockchain-IsOpened_example =
    new_blockchain-IsOpened one.0.db (genesis ∷ []) none new_tx_pool one.2.stored

forged-flag : is_genesis_block forged ≡ true
unfolding is_genesis_block encode_to_string bytes_eq
forged-flag = refl

forged-unknown : find_hash (genesis ∷ []) (hash 3) ≡ none
unfolding find_hash bytes_eq
forged-unknown = refl

append_block_task-forged_genesis_example :
    (after : BlockChain chain_env) × (append_block_task one.0 forged ≡ done after)
    × Represents after (forged ∷ genesis ∷ [])
append_block_task-forged_genesis_example =
    append_block_task-forged_genesis one.0 (genesis ∷ []) forged one.2
      (block-IsMember 3 0 5 [] (omega arith) (omega arith) tt (omega arith)) forged-flag
      forged-unknown (omega arith)

first_byte : Bytes → ℕ
first_byte [] = 0
first_byte (b ∷ bs) = b

abbrev pack : PackEnv
pack = record {
  sha256 = λ text. hash 7;
  serialize_block_header = λ h. [];
  serialize_general_params = λ p. [];
  serialize_genesis_params = λ p. [];
}

abbrev buffered : BlockChain chain_env
buffered = record start { buffer = some (new_block_buffer chain_env.buffer_env genesis) }

abbrev params : GeneralParams
params = record { result = []; proof = []; random_number = []; s = []; t = [] }

abbrev key_hex : Bytes
key_hex = replicate 66 b'0'

abbrev packaged : Block
packaged = record {
  header = record {
    timestamp = int 4000;
    prev_block_hash = hash 1;
    block_hash = hash 7;
    merkle_root = hash 0;
    height = int 1;
    public_key = replicate 33 0;
    params = [];
    gas_limit = int 0;
  };
  transactions = [];
}

packaged_lem : package_new_block pack buffered [] (int 4000) params 2 key_hex ≡ done (some packaged)
unfolding package_new_block new_block_buffer get_priority_leaf decode_string
packaged_lem = refl

package_new_block-placed_example :
    (is_orphan (new_block_buffer chain_env.buffer_env genesis) packaged ≡ false)
    × (int 0 < int 1)
    × (◌≡◌ {A = List Transaction} [] [])
unfolding new_block_buffer get_priority_leaf
package_new_block-placed_example =
    package_new_block-placed pack buffered (new_block_buffer chain_env.buffer_env genesis) []
      (int 4000) params 2 key_hex packaged refl
      (new_block_buffer-IsValid chain_env.buffer_env genesis (omega arith)) (omega arith)
      (omega arith) packaged_lem

abbrev genesis_params : GenesisParams
genesis_params = record {
  order = 35 ∷ [];
  time_param = int 2;
  seed = 2 ∷ [];
  verify_param = 5 ∷ [];
}

key_hex-decoded : decode_string key_hex ≡ some (replicate 33 0)
unfolding decode_string
key_hex-decoded = refl

new_genesis_block-first_example :
    (after : BlockChain chain_env) × (g : Block) × (new_genesis_block pack start
        (int 9000)
        key_hex
        (some genesis_params)
      ≡ done after)
    × Represents after (g ∷ [])
    × (g.header.height ≡ int 0)
    × (is_genesis_block g ≡ true)
new_genesis_block-first_example =
    new_genesis_block-first pack start (int 9000) key_hex (replicate 33 0) genesis_params
      start-Represents (λ m. (refl, replicate-IsBytes 32 7 (omega arith))) key_hex-decoded
      (omega arith) (omega arith) (omega arith)
