-- ===== src/Wire/Examples.antt =====
-- Structs written and read over a simple memory.
use go_norn.Prelude.{◌≡◌, refl, arith, some, [], ◌∷◌, replicate}
use go_norn.Prelude.Int64.{int, minus}
use go_norn.Prelude.Bytes.{Bytes}
use go_norn.Common.{BlockHeader, TransactionBody, Block}
use go_norn.Chain.Fixtures.{hash}
use go_norn.Common.Encodable.{IsHeader, IsBody}
use go_norn.Wire.{new_viewer}
use go_norn.Wire.Fixtures.{runtime}
use go_norn.Wire.Blocks.{write_block, read_block}
use go_norn.Wire.Blocks.Restored.{read-write_block}
use go_norn.Wire.Headers.{
  write_transaction_body, read_transaction_body, read-write_transaction_body,
}

abbrev header : BlockHeader
header = record {
  timestamp = int 1000;
  prev_block_hash = hash 1;
  block_hash = hash 2;
  merkle_root = hash 3;
  height = minus 1;
  public_key = replicate 33 4;
  params = 5 ∷ 6 ∷ [];
  gas_limit = int 0;
}

header-IsHeader : IsHeader header
header-IsHeader = record {
  prev_block_hash = refl;
  block_hash = refl;
  merkle_root = refl;
  public_key = refl;
  timestamp = omega arith;
  height = omega arith;
  gas_limit = omega arith;
}

abbrev body : TransactionBody
body = record {
  hash = hash 1;
  address = replicate 20 2;
  receiver = replicate 20 3;
  gas = int 4;
  nonce = int 5;
  event = 6 ∷ [];
  opt = [];
  state = 7 ∷ 8 ∷ [];
  payload = 9 ∷ [];
  expire = int 10;
  height = minus 1;
  index = int 0;
  block_hash = hash 11;
  timestamp = int 12;
  public = replicate 33 13;
  signature = 14 ∷ 15 ∷ 16 ∷ [];
}

body-IsBody : IsBody body
body-IsBody = record {
  hash = refl;
  address = refl;
  receiver = refl;
  block_hash = refl;
  public = refl;
  gas = omega arith;
  nonce = omega arith;
  expire = omega arith;
  height = omega arith;
  index = omega arith;
  timestamp = omega arith;
  signature = omega arith;
}

read-write_transaction_body_example :
    (m : Bytes) × (write_transaction_body runtime body ≡ some m)
    × (read_transaction_body runtime m (new_viewer runtime m 0) ≡ body)
read-write_transaction_body_example =
    read-write_transaction_body runtime body body-IsBody (omega arith)

abbrev two_bodies : Block
two_bodies = record {
  header = header;
  transactions = record { body = body } ∷ record { body = body } ∷ [];
}

read-write_block_example :
    (m : Bytes) × (write_block runtime two_bodies ≡ some m)
    × (read_block runtime m (new_viewer runtime m 0) ≡ two_bodies)
read-write_block_example =
    read-write_block runtime two_bodies header-IsHeader (body-IsBody, (body-IsBody, tt))
      (omega arith)
