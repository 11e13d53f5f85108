-- ===== src/Common/Encodable.antt =====
-- Structs as Go has them: arrays of their lengths, int64 numbers, and few enough bytes for the offsets of 32 bits that
-- common/common_km.go writes.
use go_norn.Prelude.{◌+◌, ◌*◌, ◌^◌, ◌<◌, ◌≤◌, ◌≡◌, ℕ, List, [], ◌∷◌, length}
use go_norn.Prelude.Int64.{InRange}
use go_norn.Common.{BlockHeader, TransactionBody, Transaction, GeneralParams, Block}

-- What the accessor of a signature reads, which is declared as fewer than 74 bytes in karmem/core.km.
abbrev pub max_signature : ℕ
max_signature = 73

-- Arrays of the declared lengths, proper numbers, and a signature that is read whole.
pub record IsHeader (x : BlockHeader) : Type 0 where
  pub prev_block_hash : length x.prev_block_hash ≡ 32
  pub block_hash : length x.block_hash ≡ 32
  pub merkle_root : length x.merkle_root ≡ 32
  pub public_key : length x.public_key ≡ 33
  pub timestamp : InRange x.timestamp
  pub height : InRange x.height
  pub gas_limit : InRange x.gas_limit

pub record IsBody (x : TransactionBody) : Type 0 where
  pub hash : length x.hash ≡ 32
  pub address : length x.address ≡ 20
  pub receiver : length x.receiver ≡ 20
  pub block_hash : length x.block_hash ≡ 32
  pub public : length x.public ≡ 33
  pub gas : InRange x.gas
  pub nonce : InRange x.nonce
  pub expire : InRange x.expire
  pub height : InRange x.height
  pub index : InRange x.index
  pub timestamp : InRange x.timestamp
  pub signature : length x.signature ≤ max_signature

-- The bytes of the five slices of a body.
abbrev pub slices : TransactionBody → ℕ
slices x =
    length x.event + (length x.opt + (length x.state + (length x.payload + length x.signature)))

-- The bytes of the transactions after their pointers.
abbrev pub bodies : List Transaction → ℕ
bodies [] = 0
bodies (tx ∷ txs) = 256 + slices tx.body + bodies txs

abbrev pub AllBodies : List Transaction → Type 0
AllBodies [] = Unit
AllBodies (tx ∷ txs) = IsBody tx.body × AllBodies txs

-- The size of a struct as WriteAsRoot writes it on a new writer, and when it can be read back.
abbrev pub IsFit : TransactionBody → Type 0
IsFit x = IsBody x × (256 + slices x < 2 ^ 32)

abbrev pub IsSendable : Transaction → Type 0
IsSendable tx = IsBody tx.body × (8 + (256 + slices tx.body) < 2 ^ 32)

abbrev pub IsEncodable : Block → Type 0
IsEncodable b =
    IsHeader b.header
    × AllBodies b.transactions
    × (200 + length b.header.params + 8 * length b.transactions + bodies b.transactions < 2 ^ 32)

abbrev pub params_size : GeneralParams → ℕ
params_size x = 88 + (length x.result + (length x.proof + (length x.s + length x.t)))
