-- ===== src/Chain.antt =====
-- core/blockchain.go: the blocks in the database with the caches before it, and what follows a block
-- that is inserted. The global calculator and the transaction pool are part of the state.
pub mod Insert
pub mod Keys
pub mod Ledger
pub mod Lookups
pub mod Heights
pub mod Storage
pub mod Unchanged
pub mod Packaging
pub mod Fixtures
mod Examples
use go_norn.Prelude.{
  ℕ, zero, suc, ◌+◌, ◌-◌, ◌*◌, ◌≤◌, ◌<◌, ◌≡◌, Bool, true, false, not, ◌&&◌, Option, none, some,
  List, [], ◌∷◌, ◌++◌, ltb, leb, ◌==◌, if◌then◌else◌, length, take,
}
use go_norn.Prelude.Int64.{Int64, int, minus, half}
use go_norn.Prelude.Bytes.{Bytes, bytes_eq, encode_to_string, decode_string}
use go_norn.Prelude.Decimal.{format_int}
use go_norn.Prelude.Outcome.{Outcome, done, panicked, ◌>>=◌}
use go_norn.Prelude.Lru.{Lru}
use go_norn.Common.{
  Block, Transaction, DataCommand, GenesisParams, GeneralParams, Hash, block_hash, set_bytes,
}
use go_norn.Common.Encodable.{IsEncodable, IsSendable}
use go_norn.Buffer.{Env, BlockBuffer, new_block_buffer}
use go_norn.Calculator.{Calculator, calculator_initialization}
use go_norn.TxPool.{TxPool}
use go_norn.DataProcessor.{DataTask, block_hash2_db_key, tx_hash2_db_key, data_address_key2_db_key}

-- What the chain takes from elsewhere: caches, and the encoding of structs, of which it relies on the round trip of
-- what can be encoded; Serializer/Environments fills it in.
pub record ChainEnv : Type 1 where
  pub buffer_env : Env
  pub block_lru : Lru Bytes Block
  pub height_lru : Lru Int64 Hash
  pub tx_lru : Lru Bytes Transaction
  pub serialize_block : Block → Bytes
  pub deserialize_block : Bytes → Block
  pub serialize_transaction : Transaction → Bytes
  pub deserialize_transaction : Bytes → Transaction
  pub deserialize_data_command : Bytes → DataCommand
  pub deserialize_genesis_params : Bytes → GenesisParams
  pub deserialize-serialize_block :
      (b : Block) → IsEncodable b → deserialize_block (serialize_block b) ≡ b
  pub deserialize-serialize_transaction :
      (tx : Transaction) → IsSendable tx → deserialize_transaction (serialize_transaction tx) ≡ tx

-- The database of utils/leveldb.go: goleveldb's Get, Put and Write of a batch.
abbrev pub Db : Type 0
Db = Bytes → Option Bytes

abbrev pub put : Db → Bytes → Bytes → Db
put db key value k = if bytes_eq key k then some value else db k

unfoldable pub batch_insert : Db → List (Bytes × Bytes) → Db
batch_insert db [] = db
batch_insert db (e ∷ es) = batch_insert (put db e.0 e.1) es

-- BlockHeight2DBKey
unfoldable pub block_height2_db_key : Int64 → Bytes
block_height2_db_key height = b'b' ∷ b'l' ∷ b'o' ∷ b'c' ∷ b'k' ∷ b'#' ∷ format_int height

abbrev pub latest_key : Bytes
latest_key = b'l' ∷ b'a' ∷ b't' ∷ b'e' ∷ b's' ∷ b't' ∷ []

-- common.Hash(x) of a slice, which panics if it is too short.
unfoldable pub to_hash : Bytes → Outcome Hash
to_hash value = if ltb (length value) 32 then panicked else done (take 32 value)

pub record BlockChain (env : ChainEnv) : Type 0 where
  pub db : Db
  pub block_height_map : env.height_lru.Cache
  pub block_cache : env.block_lru.Cache
  pub tx_cache : env.tx_lru.Cache
  pub latest_block : Option Block
  pub latest_height : Int64
  pub buffer : Option (BlockBuffer env.buffer_env)
  pub block_chan : List Block
  pub tasks : List DataTask
  pub genesis_params : Option GenesisParams
  pub genesis_time : Int64
  pub calculator : Option Calculator
  pub pool : TxPool

module _ {env : ChainEnv} where
  -- writeBlockCache and writeTxCache
  abbrev pub write_block_cache : BlockChain env → Block → BlockChain env
  write_block_cache bc block = record bc {
    block_height_map =
        env.height_lru.add bc.block_height_map block.header.height block.header.block_hash;
    block_cache = env.block_lru.add bc.block_cache (block_hash block) block;
  }

  abbrev pub write_tx_cache : BlockChain env → Transaction → BlockChain env
  write_tx_cache bc tx = record bc {
    tx_cache = env.tx_lru.add bc.tx_cache (encode_to_string tx.body.hash) tx;
  }

  block_from_db : BlockChain env → Option Bytes → BlockChain env × Option Block
  block_from_db bc none = (bc, none)
  block_from_db bc (some value) =
      (write_block_cache bc (env.deserialize_block value), some (env.deserialize_block value))

  block_from_cache : BlockChain env → Hash → Option Block → BlockChain env × Option Block
  unfolding block_from_db
  block_from_cache bc hash (some block) = (bc, some block)
  block_from_cache bc hash none = block_from_db bc (bc.db (block_hash2_db_key hash))

  -- GetBlockByHash; an error is none.
  unfoldable pub get_block_by_hash : BlockChain env → Hash → BlockChain env × Option Block
  unfolding block_from_cache
  get_block_by_hash bc hash =
      let key = encode_to_string hash in
      block_from_cache (record bc { block_cache = env.block_lru.touch bc.block_cache key }) hash
        (env.block_lru.find bc.block_cache key)

  height_from_db : BlockChain env → Option Bytes → Outcome (BlockChain env × Option Block)
  unfolding get_block_by_hash to_hash
  height_from_db bc none = done (bc, none)
  height_from_db bc (some value) = do hash ← to_hash value; done (get_block_by_hash bc hash)

  height_from_cache : BlockChain env → Int64 → Option Hash → Outcome (BlockChain env × Option Block)
  unfolding height_from_db block_height2_db_key
  height_from_cache bc height (some hash) = done (get_block_by_hash bc hash)
  height_from_cache bc height none = height_from_db bc (bc.db (block_height2_db_key height))

  -- GetBlockByHeight
  unfoldable pub get_block_by_height :
      BlockChain env → Int64 → Outcome (BlockChain env × Option Block)
  unfolding height_from_cache
  get_block_by_height bc height =
      if ltb bc.latest_height height && not (bc.latest_height == minus 1)
      then done (bc, none)
      else height_from_cache
          (record bc { block_height_map = env.height_lru.touch bc.block_height_map height }) height
          (env.height_lru.find bc.block_height_map height)

  set_latest : BlockChain env × Option Block → BlockChain env × Option Block
  set_latest (bc, none) = (bc, none)
  set_latest (bc, some block) =
      (record bc { latest_block = some block; latest_height = block.header.height }, some block)

  latest_from_db : BlockChain env → Option Bytes → Outcome (BlockChain env × Option Block)
  unfolding get_block_by_hash to_hash set_latest
  latest_from_db bc none = done (bc, none)
  latest_from_db bc (some value) = do
    hash ← to_hash value
    done (set_latest (get_block_by_hash bc hash))

  latest_or_db : BlockChain env → Option Block → Outcome (BlockChain env × Option Block)
  unfolding latest_from_db
  latest_or_db bc (some block) = done (bc, some block)
  latest_or_db bc none = latest_from_db bc (bc.db latest_key)

  -- GetLatestBlock
  unfoldable pub get_latest_block : BlockChain env → Outcome (BlockChain env × Option Block)
  unfolding latest_or_db
  get_latest_block bc = latest_or_db bc bc.latest_block

  tx_from_db : BlockChain env → Option Bytes → BlockChain env × Option Transaction
  tx_from_db bc none = (bc, none)
  tx_from_db bc (some value) = (
    write_tx_cache bc (env.deserialize_transaction value),
    some (env.deserialize_transaction value),
  )

  tx_from_cache : BlockChain env → Hash → Option Transaction → BlockChain env × Option Transaction
  unfolding tx_from_db
  tx_from_cache bc hash (some tx) = (bc, some tx)
  tx_from_cache bc hash none = tx_from_db bc (bc.db (tx_hash2_db_key hash))

  -- GetTransactionByHash
  unfoldable pub get_transaction_by_hash :
      BlockChain env → Hash → BlockChain env × Option Transaction
  unfolding tx_from_cache
  get_transaction_by_hash bc hash =
      let key = encode_to_string hash in
      tx_from_cache (record bc { tx_cache = env.tx_lru.touch bc.tx_cache key }) hash
        (env.tx_lru.find bc.tx_cache key)

  -- Height, BufferedHeight and BufferFull
  abbrev pub height : BlockChain env → Int64
  height bc = bc.latest_height

  abbrev pub buffered_height : BlockChain env → Int64
  buffered_height bc = elim bc.buffer [ none ↦ int 0 | some b ↦ b.buffered_height ]

  abbrev pub buffer_full : BlockChain env → Bool
  buffer_full bc = elim bc.buffer [ none ↦ false | some b ↦ b.buffer_full ]

  read_at : BlockChain env → Bytes → Option Bytes → Option Bytes
  unfolding data_address_key2_db_key
  read_at bc key none = none
  read_at bc key (some address) = bc.db (data_address_key2_db_key address key)

  -- ReadAddressData
  unfoldable pub read_address_data : BlockChain env → Bytes → Bytes → Option Bytes
  unfolding read_at decode_string
  read_address_data bc address key = read_at bc key (decode_string address)
