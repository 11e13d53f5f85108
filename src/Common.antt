-- ===== src/Common.antt =====
-- The data that all parts share: common/common_km.go (the structs), common/types.go and
-- common/block.go. A fixed-size array is a byte string; its length is a hypothesis where it matters.
pub mod Encodable
use go_norn.Prelude.{ℕ, Bool, true, false, List, [], ◌∷◌, ◌+◌, ◌*◌, if◌then◌else◌, replicate}
use go_norn.Prelude.Int64.{Int64}
use go_norn.Prelude.Bytes.{Bytes, bytes_eq, encode_to_string}

abbrev pub Hash : Type 0
Hash = Bytes

pub record TransactionBody : Type 0 where
  pub hash : Hash
  pub address : Bytes
  pub receiver : Bytes
  pub gas : Int64
  pub nonce : Int64
  pub event : Bytes
  pub opt : Bytes
  pub state : Bytes
  pub payload : Bytes
  pub expire : Int64
  pub height : Int64
  pub index : Int64
  pub block_hash : Hash
  pub timestamp : Int64
  pub public : Bytes
  pub signature : Bytes

pub record Transaction : Type 0 where
  pub body : TransactionBody

pub record GenesisParams : Type 0 where
  pub order : Bytes
  pub time_param : Int64
  pub seed : Bytes
  pub verify_param : Bytes

pub record GeneralParams : Type 0 where
  pub result : Bytes
  pub proof : Bytes
  pub random_number : Bytes
  pub s : Bytes
  pub t : Bytes

pub record BlockHeader : Type 0 where
  pub timestamp : Int64
  pub prev_block_hash : Hash
  pub block_hash : Hash
  pub merkle_root : Bytes
  pub height : Int64
  pub public_key : Bytes
  pub params : Bytes
  pub gas_limit : Int64

pub record Block : Type 0 where
  pub header : BlockHeader
  pub transactions : List Transaction

pub record DataCommand : Type 0 where
  pub opt : Bytes
  pub key : Bytes
  pub value : Bytes

-- BlockHash and PrevBlockHash: the hashes in hexadecimal.
abbrev pub block_hash : Block → Bytes
block_hash b = encode_to_string b.header.block_hash

abbrev pub prev_block_hash : Block → Bytes
prev_block_hash b = encode_to_string b.header.prev_block_hash

-- IsGenesisBlock compares with a text of 64 zeros.
unfoldable pub is_genesis_block : Block → Bool
is_genesis_block b = if bytes_eq (prev_block_hash b) (replicate 64 b'0') then true else false

-- big.Int.SetBytes: a big-endian natural number.
unfoldable pub set_bytes : ℕ → Bytes → ℕ
set_bytes acc [] = acc
set_bytes acc (b ∷ bs) = set_bytes (acc * 256 + b) bs
