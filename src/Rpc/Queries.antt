-- ===== src/Rpc/Queries.antt =====
-- rpc/blockchain.go: the questions about blocks, transactions and data. A field of a request that the client left out is
-- none; reading it is a panic, and so is the use of a block that is nil.
pub mod Blocks
pub mod Indexed
use go_norn.Prelude.{
  ℕ, ◌+◌, Bool, true, false, Option, none, some, List, [], get_elem?, length, leb, if◌then◌else◌,
}
use go_norn.Prelude.Int64.{Int64}
use go_norn.Prelude.Bytes.{Bytes, decode_string}
use go_norn.Prelude.Outcome.{Outcome, done, panicked, ◌>>=◌}
use go_norn.Common.{Block, Transaction}
use go_norn.Chain.{
  ChainEnv, BlockChain, to_hash, height, get_block_by_hash, get_block_by_height,
  get_transaction_by_hash, read_address_data,
}
use go_norn.Rpc.{
  RpcError, required, decode_failed, not_found, out_of_range, Reply, ok, error, to_uint64, to_int64,
  remove_prefix_if_exists, PbTransaction, PbBlock, karmem_transaction2_protobuf,
  karmem_block2_protobuf,
}

-- pb.GetBlockReq and pb.GetTransactionReq
pub record GetBlockReq : Type 0 where
  pub hash : Option Bytes
  pub number : Option ℕ
  pub full : Option Bool

pub record GetTransactionReq : Type 0 where
  pub hash : Option Bytes
  pub block_hash : Option Bytes
  pub block_number : Option ℕ
  pub index : Option ℕ

-- A response: the time and the body.
abbrev pub Stamped : Type 0 → Type 0
Stamped A = ℕ × A

-- What a handler leaves: the chain, whose caches it may have filled, and its reply.
abbrev pub Handled : ChainEnv → Type 0 → Type 0
Handled env A = Outcome (BlockChain env × Reply (Stamped A))

-- A flag that is left out counts as false.
abbrev or_false : Option Bool → Bool
or_false none = false
or_false (some full) = full

contract_data : Option Bytes → Option Bytes → Reply Bytes
contract_data none value = error decode_failed
contract_data (some address) none = ok []
contract_data (some address) (some value) = ok value

module _ {env : ChainEnv} (now : ℕ) where
  -- GetBlockNumber
  unfoldable pub get_block_number : BlockChain env → Stamped ℕ
  get_block_number bc = (now, to_uint64 (height bc))

  -- The end of GetBlockByHash and GetBlockByNumber, for a block and a flag that are not nil.
  abbrev pub print_block : BlockChain env → Block → Bool → Handled env PbBlock
  print_block bc block full = done (bc, ok (now, karmem_block2_protobuf now block full))

  abbrev pub print_transaction : BlockChain env → Transaction → Handled env PbTransaction
  print_transaction bc tx = done (bc, ok (now, karmem_transaction2_protobuf tx))

  print_found : Option Bool → BlockChain env × Option Block → Handled env PbBlock
  print_found none (bc, block) = panicked
  print_found (some full) (bc, none) = panicked
  print_found (some full) (bc, some block) = print_block bc block full

  block_of_bytes : Option Bool → BlockChain env → Option Bytes → Handled env PbBlock
  unfolding to_hash print_found get_block_by_hash
  block_of_bytes full bc none = done (bc, error decode_failed)
  block_of_bytes full bc (some byte_hash) = do
    hash ← to_hash byte_hash
    print_found full (get_block_by_hash bc hash)

  block_by_hash : Option Bool → BlockChain env → Option Bytes → Handled env PbBlock
  unfolding block_of_bytes remove_prefix_if_exists decode_string
  block_by_hash full bc none = done (bc, error required)
  block_by_hash full bc (some hash) = do
    str_hash ← remove_prefix_if_exists hash
    block_of_bytes full bc (decode_string str_hash)

  -- The service's GetBlockByHash
  unfoldable pub answer_block_by_hash : BlockChain env → GetBlockReq → Handled env PbBlock
  unfolding block_by_hash
  answer_block_by_hash bc req = block_by_hash req.full bc req.hash

  print_at_height : Bool → BlockChain env × Option Block → Handled env PbBlock
  print_at_height full (bc, none) = done (bc, error not_found)
  print_at_height full (bc, some block) = print_block bc block full

  block_by_number : Bool → BlockChain env → Option ℕ → Handled env PbBlock
  unfolding print_at_height get_block_by_height
  block_by_number full bc none = done (bc, error required)
  block_by_number full bc (some number) = do
    found ← get_block_by_height bc (to_int64 number)
    print_at_height full found

  -- The service's GetBlockByNumber
  unfoldable pub answer_block_by_number : BlockChain env → GetBlockReq → Handled env PbBlock
  unfolding block_by_number
  answer_block_by_number bc req = block_by_number (or_false req.full) bc req.number

  print_tx_found : BlockChain env × Option Transaction → Handled env PbTransaction
  print_tx_found (bc, none) = done (bc, error not_found)
  print_tx_found (bc, some tx) = print_transaction bc tx

  tx_of_bytes : BlockChain env → Option Bytes → Handled env PbTransaction
  unfolding to_hash print_tx_found get_transaction_by_hash
  tx_of_bytes bc none = done (bc, error decode_failed)
  tx_of_bytes bc (some byte_hash) = do
    hash ← to_hash byte_hash
    print_tx_found (get_transaction_by_hash bc hash)

  tx_by_hash : BlockChain env → Option Bytes → Handled env PbTransaction
  unfolding tx_of_bytes remove_prefix_if_exists decode_string
  tx_by_hash bc none = done (bc, error required)
  tx_by_hash bc (some tx_hash) = do
    str_hash ← remove_prefix_if_exists tx_hash
    tx_of_bytes bc (decode_string str_hash)

  -- The service's GetTransactionByHash
  unfoldable pub answer_transaction_by_hash :
      BlockChain env → GetTransactionReq → Handled env PbTransaction
  unfolding tx_by_hash
  answer_transaction_by_hash bc req = tx_by_hash bc req.hash

  -- The test of the index and the access to the slice.
  print_elem : BlockChain env → Option Transaction → Handled env PbTransaction
  print_elem bc none = panicked
  print_elem bc (some tx) = print_transaction bc tx

  unfoldable pub print_indexed : BlockChain env → Block → ℕ → Handled env PbTransaction
  unfolding print_elem
  print_indexed bc block index =
      if leb (length block.transactions) index
      then done (bc, error out_of_range)
      else print_elem bc (get_elem? block.transactions index)

  -- GetTransactionByBlockHashAndIndex logs that a block is missing and goes on.
  index_found : ℕ → BlockChain env × Option Block → Handled env PbTransaction
  unfolding print_indexed
  index_found index (bc, none) = panicked
  index_found index (bc, some block) = print_indexed bc block index

  index_of_bytes : ℕ → BlockChain env → Option Bytes → Handled env PbTransaction
  unfolding to_hash index_found get_block_by_hash
  index_of_bytes index bc none = done (bc, error decode_failed)
  index_of_bytes index bc (some byte_hash) = do
    hash ← to_hash byte_hash
    index_found index (get_block_by_hash bc hash)

  index_by_hash : BlockChain env → Option Bytes → Option ℕ → Handled env PbTransaction
  unfolding index_of_bytes decode_string
  index_by_hash bc none index = done (bc, error required)
  index_by_hash bc (some hash) none = done (bc, error required)
  index_by_hash bc (some hash) (some index) = index_of_bytes index bc (decode_string hash)

  -- The service's GetTransactionByBlockHashAndIndex
  unfoldable pub answer_transaction_by_block_hash_and_index :
      BlockChain env → GetTransactionReq → Handled env PbTransaction
  unfolding index_by_hash
  answer_transaction_by_block_hash_and_index bc req = index_by_hash bc req.block_hash req.index

  index_at_height : ℕ → BlockChain env × Option Block → Handled env PbTransaction
  unfolding print_indexed
  index_at_height index (bc, none) = done (bc, error not_found)
  index_at_height index (bc, some block) = print_indexed bc block index

  index_by_number : BlockChain env → Option ℕ → Option ℕ → Handled env PbTransaction
  unfolding index_at_height get_block_by_height
  index_by_number bc none index = done (bc, error required)
  index_by_number bc (some number) none = done (bc, error required)
  index_by_number bc (some number) (some index) = do
    found ← get_block_by_height bc (to_int64 number)
    index_at_height index found

  -- The service's GetTransactionByBlockNumberAndIndex
  unfoldable pub answer_transaction_by_block_number_and_index :
      BlockChain env → GetTransactionReq → Handled env PbTransaction
  unfolding index_by_number
  answer_transaction_by_block_number_and_index bc req =
      index_by_number bc req.block_number req.index

module _ {env : ChainEnv} where
  -- ReadContractAddress: an address that does not decode is the error of ReadAddressData, and data that is not there
  -- is the empty text.
  unfoldable pub read_contract_address :
      BlockChain env → Option Bytes → Option Bytes → Outcome (Reply Bytes)
  unfolding contract_data decode_string read_address_data
  read_contract_address bc none key = panicked
  read_contract_address bc (some address) none = panicked
  read_contract_address bc (some address) (some key) =
      done (contract_data (decode_string address) (read_address_data bc address key))
