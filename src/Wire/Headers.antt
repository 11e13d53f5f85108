-- ===== src/Wire/Headers.antt =====
-- common/common_km.go: BlockHeader and TransactionBody as bytes.
use go_norn.Prelude.{
  ℕ, ◌+◌, ◌<◌, ◌≡◌, refl, arith, Option, some, List, [], ◌∷◌, length, ◌^◌, take, take-short,
}
use go_norn.Prelude.Bytes.{Bytes}
use go_norn.Prelude.LittleEndian.{length-put_little_endian}
use go_norn.Common.{BlockHeader, TransactionBody}
use go_norn.Common.Encodable.{max_signature, IsHeader, IsBody, slices}
use go_norn.Wire.{
  Runtime, Cell, fixed, slice_of, int64_bytes, write_as_root, new_viewer, view_fixed, view_slice,
  copy_array, int64_of,
}
use go_norn.Wire.Cells.{Laid}
use go_norn.Wire.Root.{AllViewed}
use go_norn.Wire.Fields.{array_back, int64_back, read-write}

-- The fields that Write writes, in its order.
unfoldable pub block_header_cells : BlockHeader → List Cell
block_header_cells x =
    fixed 4 (int64_bytes x.timestamp)
    ∷ fixed 12 x.prev_block_hash
    ∷ fixed 44 x.block_hash
    ∷ fixed 76 x.merkle_root
    ∷ fixed 108 (int64_bytes x.height)
    ∷ fixed 116 x.public_key
    ∷ slice_of 149 x.params
    ∷ fixed 161 (int64_bytes x.gas_limit)
    ∷ []

unfoldable pub transaction_body_cells : TransactionBody → List Cell
transaction_body_cells x =
    fixed 4 x.hash
    ∷ fixed 36 x.address
    ∷ fixed 56 x.receiver
    ∷ fixed 76 (int64_bytes x.gas)
    ∷ fixed 84 (int64_bytes x.nonce)
    ∷ slice_of 92 x.event
    ∷ slice_of 104 x.opt
    ∷ slice_of 116 x.state
    ∷ slice_of 128 x.payload
    ∷ fixed 140 (int64_bytes x.expire)
    ∷ fixed 148 (int64_bytes x.height)
    ∷ fixed 156 (int64_bytes x.index)
    ∷ fixed 164 x.block_hash
    ∷ fixed 196 (int64_bytes x.timestamp)
    ∷ fixed 204 x.public
    ∷ slice_of 237 x.signature
    ∷ []

module _ (k : Runtime) where
  -- WriteAsRoot
  unfoldable pub write_block_header : BlockHeader → Option Bytes
  unfolding block_header_cells write_as_root
  write_block_header x = write_as_root k 176 169 (block_header_cells x)

  unfoldable pub write_transaction_body : TransactionBody → Option Bytes
  unfolding transaction_body_cells write_as_root
  write_transaction_body x = write_as_root k 256 249 (transaction_body_cells x)

  -- The accessors of the viewers. That of the signature gives at most 73 bytes.
  unfoldable pub view_block_header : Bytes → Option ℕ → BlockHeader
  view_block_header m v = record {
    timestamp = int64_of (view_fixed k m v 4 8);
    prev_block_hash = view_fixed k m v 12 32;
    block_hash = view_fixed k m v 44 32;
    merkle_root = view_fixed k m v 76 32;
    height = int64_of (view_fixed k m v 108 8);
    public_key = view_fixed k m v 116 33;
    params = view_slice k m v 149;
    gas_limit = int64_of (view_fixed k m v 161 8);
  }

  unfoldable pub view_transaction_body : Bytes → Option ℕ → TransactionBody
  view_transaction_body m v = record {
    hash = view_fixed k m v 4 32;
    address = view_fixed k m v 36 20;
    receiver = view_fixed k m v 56 20;
    gas = int64_of (view_fixed k m v 76 8);
    nonce = int64_of (view_fixed k m v 84 8);
    event = view_slice k m v 92;
    opt = view_slice k m v 104;
    state = view_slice k m v 116;
    payload = view_slice k m v 128;
    expire = int64_of (view_fixed k m v 140 8);
    height = int64_of (view_fixed k m v 148 8);
    index = int64_of (view_fixed k m v 156 8);
    block_hash = view_fixed k m v 164 32;
    timestamp = int64_of (view_fixed k m v 196 8);
    public = view_fixed k m v 204 33;
    signature = take max_signature (view_slice k m v 237);
  }

  -- Read; a slice of the struct becomes the accessor's, an array takes its bytes.
  unfoldable pub read_block_header : Bytes → Option ℕ → BlockHeader
  unfolding view_block_header
  read_block_header m v =
      let seen = view_block_header m v in
      record seen {
        prev_block_hash = copy_array 32 seen.prev_block_hash;
        block_hash = copy_array 32 seen.block_hash;
        merkle_root = copy_array 32 seen.merkle_root;
        public_key = copy_array 33 seen.public_key;
      }

  unfoldable pub read_transaction_body : Bytes → Option ℕ → TransactionBody
  unfolding view_transaction_body
  read_transaction_body m v =
      let seen = view_transaction_body m v in
      record seen {
        hash = copy_array 32 seen.hash;
        address = copy_array 20 seen.address;
        receiver = copy_array 20 seen.receiver;
        block_hash = copy_array 32 seen.block_hash;
        public = copy_array 33 seen.public;
      }

module _ (k : Runtime) where
  -- The fields follow one another, and what the accessors see is read as the struct.
  pub block_header-Laid : (x : BlockHeader) → IsHeader x → Laid 4 169 (block_header_cells x)
  unfolding block_header_cells
  block_header-Laid x p =
      (omega (
        arith, p.prev_block_hash, p.block_hash, p.merkle_root, p.public_key,
        length-put_little_endian,
      ))

  pub block_header-seen :
      (m : Bytes) (base : ℕ) (x : BlockHeader)
      → IsHeader x
      → AllViewed k m base (block_header_cells x)
      → read_block_header k m (some base) ≡ x
  unfolding read_block_header block_header_cells
  block_header-seen m base x p seen =
      rw
        (
          int64_back k m (some base) 4 x.timestamp p.timestamp (seen.0),
          array_back k m (some base) 12 32 x.prev_block_hash p.prev_block_hash (seen.1.0),
          array_back k m (some base) 44 32 x.block_hash p.block_hash (seen.1.1.0),
          array_back k m (some base) 76 32 x.merkle_root p.merkle_root (seen.1.1.1.0),
          int64_back k m (some base) 108 x.height p.height (seen.1.1.1.1.0),
          array_back k m (some base) 116 33 x.public_key p.public_key (seen.1.1.1.1.1.0),
          (seen.1.1.1.1.1.1.0),
          int64_back k m (some base) 161 x.gas_limit p.gas_limit (seen.1.1.1.1.1.1.1.0),
        )
        refl

  pub transaction_body-Laid :
      (x : TransactionBody) → IsBody x → Laid 4 249 (transaction_body_cells x)
  unfolding transaction_body_cells
  transaction_body-Laid x p =
      (omega
        (arith, p.hash, p.address, p.receiver, p.block_hash, p.public, length-put_little_endian))

  pub transaction_body-seen :
      (m : Bytes) (base : ℕ) (x : TransactionBody)
      → IsBody x
      → AllViewed k m base (transaction_body_cells x)
      → read_transaction_body k m (some base) ≡ x
  unfolding read_transaction_body transaction_body_cells
  transaction_body-seen m base x p seen =
      rw
        (
          array_back k m (some base) 4 32 x.hash p.hash (seen.0),
          array_back k m (some base) 36 20 x.address p.address (seen.1.0),
          array_back k m (some base) 56 20 x.receiver p.receiver (seen.1.1.0),
          int64_back k m (some base) 76 x.gas p.gas (seen.1.1.1.0),
          int64_back k m (some base) 84 x.nonce p.nonce (seen.1.1.1.1.0),
          (seen.1.1.1.1.1.0),
          (seen.1.1.1.1.1.1.0),
          (seen.1.1.1.1.1.1.1.0),
          (seen.1.1.1.1.1.1.1.1.0),
          int64_back k m (some base) 140 x.expire p.expire (seen.1.1.1.1.1.1.1.1.1.0),
          int64_back k m (some base) 148 x.height p.height (seen.1.1.1.1.1.1.1.1.1.1.0),
          int64_back k m (some base) 156 x.index p.index (seen.1.1.1.1.1.1.1.1.1.1.1.0),
          array_back k m (some base) 164 32 x.block_hash p.block_hash
              (seen.1.1.1.1.1.1.1.1.1.1.1.1.0),
          int64_back k m (some base) 196 x.timestamp p.timestamp (seen.1.1.1.1.1.1.1.1.1.1.1.1.1.0),
          array_back k m (some base) 204 33 x.public p.public (seen.1.1.1.1.1.1.1.1.1.1.1.1.1.1.0),
          (seen.1.1.1.1.1.1.1.1.1.1.1.1.1.1.1.0),
          take-short max_signature x.signature p.signature,
        )
        refl

  -- A block header whose arrays have their lengths and whose numbers are int64s is read back from the bytes that
  -- WriteAsRoot makes of it on a new writer, if these are fewer than 2 ^ 32; writing has no error.
  pub read-write_block_header :
      (x : BlockHeader)
      → IsHeader x
      → 176 + length x.params < 2 ^ 32
      → (m : Bytes) × (write_block_header k x ≡ some m)
        × (read_block_header k m (new_viewer k m 0) ≡ x)
  unfolding write_block_header read_block_header
  read-write_block_header x p small =
      read-write k (λ m v. read_block_header k m v) x 176 169 (block_header_cells x)
        (block_header-Laid x p) (omega arith) (omega arith) (omega (arith, small))
        (λ m seen. block_header-seen m 0 x p seen)

  -- The body of a transaction whose arrays have their lengths, whose numbers are int64s and whose signature has at most 73
  -- bytes is read back from the bytes
  -- that WriteAsRoot makes of it on a new writer, if these are fewer than 2 ^ 32; writing has no error.
  pub read-write_transaction_body :
      (x : TransactionBody)
      → IsBody x
      → 256 + slices x < 2 ^ 32
      → (m : Bytes) × (write_transaction_body k x ≡ some m)
        × (read_transaction_body k m (new_viewer k m 0) ≡ x)
  unfolding write_transaction_body read_transaction_body
  read-write_transaction_body x p small =
      read-write k (λ m v. read_transaction_body k m v) x 256 249 (transaction_body_cells x)
        (transaction_body-Laid x p) (omega arith) (omega arith) (omega (arith, small))
        (λ m seen. transaction_body-seen m 0 x p seen)
