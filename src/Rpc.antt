-- ===== src/Rpc.antt =====
-- rpc/blockchain.go, rpc/transaction.go and utils/km_pb.go: what a client of the node asks for. A panic in a handler
-- ends the node, since the server has no recovery. The clock, the key and the randomness are arguments.
pub mod Queries
pub mod Submission
mod Examples
use go_norn.Prelude.{
  ℕ, suc, ◌+◌, ◌%◌, ◌^◌, ◌<◌, ◌≡◌, Bool, true, false, Option, none, some, List, [], ◌∷◌, ◌++◌,
  if◌then◌else◌, length, drop, take, ltb,
}
use go_norn.Prelude.Int64.{Int64, half, modulus}
use go_norn.Prelude.Bytes.{Bytes, bytes_eq, encode_to_string, decode_string}
use go_norn.Prelude.Outcome.{Outcome, done, panicked}
use go_norn.Common.{Block, Transaction, Hash, DataCommand, block_hash, prev_block_hash}
use go_norn.Node.{NodeEnv}
use go_norn.Signing.{Signatures}

-- What the services take besides the node's environment. What write_data_command writes is read back from a text of fewer
-- than 2 ^ 32 bytes; Serializer/Environments fills this in.
pub record RpcEnv : Type 1 where
  pub node_env : NodeEnv
  pub signatures : Signatures node_env.curve node_env.sha256
  pub write_data_command : DataCommand → Bytes
  pub read-write_data_command :
      (x : DataCommand)
      → length (write_data_command x) < 2 ^ 32
      → node_env.chain_env.deserialize_data_command (write_data_command x) ≡ x
  pub length-marshal_compressed :
      (p : node_env.curve.Point) (text : Bytes)
      → node_env.curve.marshal_compressed p ≡ some text
      → length text ≡ 33

-- The errors that the handlers return.
pub data RpcError : Type 0 where
  required : RpcError
  decode_failed : RpcError
  not_found : RpcError
  out_of_range : RpcError
  type_error : RpcError
  sign_failed : RpcError

pub data Reply (A : Type 0) : Type 0 where
  ok : A → Reply A
  error : RpcError → Reply A

-- uint64(x) of an int64, and int64(x) of a uint64.
abbrev pub to_uint64 : Int64 → ℕ
to_uint64 a = (a + half) % modulus

abbrev pub to_int64 : ℕ → Int64
to_int64 n = (n + half) % modulus

-- removePrefixIfExists; a text of less than two bytes panics.
unfoldable pub remove_prefix_if_exists : Bytes → Outcome Bytes
remove_prefix_if_exists text =
    if ltb (length text) 2
    then panicked
    else if bytes_eq (take 2 text) (b'0' ∷ b'x' ∷ [])
    then done (drop 2 text)
    else done text

-- "0x" + hex.EncodeToString
abbrev pub hex_text : Bytes → Bytes
hex_text text = b'0' ∷ b'x' ∷ encode_to_string text

-- pb.Transaction, pb.BlockHeader and pb.Block; the transactions are nil in a block that is not full.
pub record PbTransaction : Type 0 where
  pub hash : Bytes
  pub address : Bytes
  pub receiver : Bytes
  pub gas : ℕ
  pub nonce : ℕ
  pub event : Bytes
  pub opt : Bytes
  pub state : Bytes
  pub payload : Bytes
  pub expire : ℕ
  pub timestamp : ℕ
  pub public : Bytes
  pub signature : Bytes
  pub height : ℕ
  pub block_hash : Bytes
  pub index : ℕ

pub record PbBlockHeader : Type 0 where
  pub timestamp : ℕ
  pub prev_block_hash : Bytes
  pub block_hash : Bytes
  pub merkle_root : Bytes
  pub height : ℕ
  pub public : Bytes
  pub params : Bytes
  pub gas_limit : ℕ

pub record PbBlock : Type 0 where
  pub header : PbBlockHeader
  pub transactions : Option (List PbTransaction)

-- KarmemTransaction2Protobuf
unfoldable pub karmem_transaction2_protobuf : Transaction → PbTransaction
karmem_transaction2_protobuf tx = record {
  hash = hex_text tx.body.hash;
  address = hex_text tx.body.address;
  receiver = hex_text tx.body.receiver;
  gas = to_uint64 tx.body.gas;
  nonce = to_uint64 tx.body.nonce;
  event = hex_text tx.body.event;
  opt = hex_text tx.body.opt;
  state = hex_text tx.body.state;
  payload = hex_text tx.body.payload;
  expire = to_uint64 tx.body.expire;
  timestamp = to_uint64 tx.body.timestamp;
  public = hex_text tx.body.public;
  signature = hex_text tx.body.signature;
  height = to_uint64 tx.body.height;
  block_hash = hex_text tx.body.block_hash;
  index = to_uint64 tx.body.index;
}

-- The copy of a transaction that is printed with its place in the block.
abbrev pub placed : Block → ℕ → Transaction → Transaction
placed block index tx = record {
  body = record tx.body {
    block_hash = block.header.block_hash;
    index = to_int64 index;
    height = block.header.height;
  };
}

unfoldable pub print_all : Block → ℕ → List Transaction → List PbTransaction
unfolding karmem_transaction2_protobuf
print_all block idx [] = []
print_all block idx (tx ∷ txs) =
    karmem_transaction2_protobuf (placed block idx tx) ∷ print_all block (idx + 1) txs

-- KarmemBlock2Protobuf at the Unix time `now`.
unfoldable pub karmem_block2_protobuf : ℕ → Block → Bool → PbBlock
unfolding print_all
karmem_block2_protobuf now block full = record {
  header = record {
    timestamp = now;
    prev_block_hash = b'0' ∷ b'x' ∷ prev_block_hash block;
    block_hash = b'0' ∷ b'x' ∷ block_hash block;
    merkle_root = hex_text block.header.merkle_root;
    height = to_uint64 block.header.height;
    public = hex_text block.header.public_key;
    params = hex_text block.header.params;
    gas_limit = 0;
  };
  transactions = if full then some (print_all block 0 block.transactions) else none;
}
