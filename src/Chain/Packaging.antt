-- ===== src/Chain/Packaging.antt =====
-- PackageNewBlock and NewGenesisBlock: the blocks that a node makes.
pub mod Arrays
pub mod Placement
pub mod Genesis
use go_norn.Prelude.{
  ℕ, ◌+◌, ◌≤◌, ◌<◌, ◌≡◌, refl, sym, ap, ◌∙◌, arith, Bool, true, false, not, ◌&&◌, Option, none,
  some, List, [], ◌∷◌, ltb, length, take, replicate, if◌then◌else◌, inl, inr, Bool-cases,
}
use go_norn.Prelude.Int64.{Int64, int, add64, sub64, quot, modulus}
use go_norn.Prelude.Bytes.{Bytes, bytes_eq, bytes_eq_refl, decode_string, encode_to_string}
use go_norn.Prelude.Outcome.{Outcome, done, panicked, ◌>>=◌, >>=-eq-done, done-injective}
use go_norn.Common.{
  Block, BlockHeader, Transaction, GeneralParams, GenesisParams, Hash, block_hash, prev_block_hash,
}
use go_norn.Merkle.{build_merkle_tree}
use go_norn.Buffer.{Env, BlockBuffer, get_priority_leaf}
use go_norn.Chain.{ChainEnv, BlockChain, get_block_by_height}
use go_norn.Chain.Insert.{append_block_task}

-- [n]byte(x) of a slice, which panics if it is too short.
unfoldable pub to_array : ℕ → Bytes → Outcome Bytes
to_array n value = if ltb (length value) n then panicked else done (take n value)

-- What packaging takes from outside: SHA-256, and the encodings by generated code over the karmem runtime.
pub record PackEnv : Type 0 where
  pub sha256 : Bytes → Bytes
  pub serialize_block_header : BlockHeader → Bytes
  pub serialize_general_params : GeneralParams → Bytes
  pub serialize_genesis_params : GenesisParams → Bytes

module _ (pack : PackEnv) where
  -- A block with the hash of its header, which is taken while the hash in the header is zero.
  unfoldable pub sealed : BlockHeader → List Transaction → Outcome Block
  unfolding to_array
  sealed header txs = do
    hash ← to_array 32 (pack.sha256 (pack.serialize_block_header header))
    done record { header = record header { block_hash = hash }; transactions = txs }

  header_on : Block → Int64 → Bytes → Bytes → Bytes → BlockHeader
  header_on best timestamp root public_key params = record {
    timestamp = timestamp;
    prev_block_hash = best.header.block_hash;
    block_hash = replicate 32 0;
    merkle_root = root;
    height = add64 best.header.height (int 1);
    public_key = public_key;
    params = params;
    gas_limit = int 0;
  }

  pack_on : Block → List Transaction → Int64 → GeneralParams → Option Bytes → Outcome (Option Block)
  unfolding sealed header_on to_array build_merkle_tree
  pack_on best txs timestamp params none = done none
  pack_on best txs timestamp params (some public_key) = do
    root ← to_array 32 (build_merkle_tree pack.sha256 txs)
    key ← to_array 33 public_key
    block ← sealed (header_on best timestamp root key (pack.serialize_general_params params)) txs
    done (some block)

  package_on :
      {env : Env}
      → Option (BlockBuffer env)
      → Int64
      → List Transaction
      → Int64
      → GeneralParams
      → Bytes
      → Outcome (Option Block)
  unfolding pack_on get_priority_leaf
  package_on none now txs timestamp params key_hex = panicked
  package_on (some buffer) now txs timestamp params key_hex =
      pack_on (get_priority_leaf buffer now) txs timestamp params (decode_string key_hex)

  genesis_header : Int64 → GenesisParams → Bytes → BlockHeader
  genesis_header timestamp params public_key = record {
    timestamp = timestamp;
    prev_block_hash = replicate 32 0;
    block_hash = replicate 32 0;
    merkle_root = replicate 32 0;
    height = int 0;
    public_key = public_key;
    params = pack.serialize_genesis_params params;
    gas_limit = int 0;
  }

  module _ {env : ChainEnv} where
    -- (timestamp - genesisTime) / 1000 / packageInterval + 1
    abbrev pub now_height : BlockChain env → Int64 → ℕ → Int64
    now_height bc timestamp interval =
        add64 (quot (quot (sub64 timestamp bc.genesis_time) 1000) interval) (int 1)

    -- PackageNewBlock; the configured public key is `key_hex`, and an error is none.
    unfoldable pub package_new_block :
        BlockChain env
        → List Transaction
        → Int64
        → GeneralParams
        → ℕ
        → Bytes
        → Outcome (Option Block)
    unfolding package_on
    package_new_block bc txs timestamp params interval key_hex =
        package_on bc.buffer (now_height bc timestamp interval) txs timestamp params key_hex

    genesis_with :
        BlockChain env → Int64 → Option Bytes → Option GenesisParams → Outcome (BlockChain env)
    unfolding sealed genesis_header to_array append_block_task
    genesis_with bc timestamp none params = done bc
    genesis_with bc timestamp (some public_key) none = done bc
    genesis_with bc timestamp (some public_key) (some params) = do
      key ← to_array 33 public_key
      block ← sealed (genesis_header timestamp params key) []
      append_block_task bc block

    genesis_on :
        BlockChain env × Option Block
        → Int64
        → Bytes
        → Option GenesisParams
        → Outcome (BlockChain env)
    unfolding genesis_with
    genesis_on (bc, some block) timestamp key_hex params = done bc
    genesis_on (bc, none) timestamp key_hex params =
        genesis_with bc timestamp (decode_string key_hex) params

    -- NewGenesisBlock, at the time `timestamp`, with the parameters that were generated.
    unfoldable pub new_genesis_block :
        BlockChain env → Int64 → Bytes → Option GenesisParams → Outcome (BlockChain env)
    unfolding genesis_on get_block_by_height
    new_genesis_block bc timestamp key_hex params = do
      r ← get_block_by_height bc (int 0)
      genesis_on r timestamp key_hex params
