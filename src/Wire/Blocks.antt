-- ===== src/Wire/Blocks.antt =====
-- common/common_km.go: Transaction and Block as bytes. A transaction is a pointer to the table of its body, a block is a
-- table with a pointer to its header and a slice of such pointers.
pub mod Pointers
pub mod Written
pub mod Restored
use go_norn.Prelude.{
  ℕ, zero, suc, ◌+◌, ◌*◌, ◌/◌, Option, none, some, List, [], ◌∷◌, length, ltb, if◌then◌else◌,
}
use go_norn.Prelude.Bytes.{Bytes}
use go_norn.Prelude.LittleEndian.{little_endian}
use go_norn.Common.{Transaction, BlockHeader, Block}
use go_norn.Wire.Memory.{slice}
use go_norn.Wire.{Runtime, write4_at, write_table, viewer_size, new_viewer}
use go_norn.Wire.Headers.{
  block_header_cells, transaction_body_cells, read_block_header, read_transaction_body,
}

module _ (k : Runtime) where
  infixl 5 ◌>>=◌
  abbrev ◌>>=◌ {ℓ} : {A B : Type ℓ} → Option A → (A → Option B) → Option B
  none >>= f = none
  some a >>= f = f a

  -- Transaction.Write at a place that has been allocated.
  unfoldable pub write_pointer : ℕ → k.Writer → Transaction → Option k.Writer
  unfolding transaction_body_cells
  write_pointer start w tx = do
    (pointer, w') ← k.alloc w 256
    write_table k pointer 249 (write4_at k w' start pointer) (transaction_body_cells tx.body)

  -- The loop of Block.Write.
  unfoldable pub write_pointers : ℕ → k.Writer → List Transaction → Option k.Writer
  unfolding write_pointer
  write_pointers start w [] = some w
  write_pointers start w (tx ∷ txs) = do
    w' ← write_pointer start w tx
    write_pointers (start + 8) w' txs

  -- Transaction.WriteAsRoot on a new writer, and the writer's Bytes.
  unfoldable pub write_transaction : Transaction → Option Bytes
  unfolding write_pointer
  write_transaction tx = do
    (offset, w) ← k.alloc k.new_writer 8
    w' ← write_pointer offset w tx
    some (k.bytes w')

  -- The header of a block, at the place that is allocated for it.
  unfoldable pub write_header : ℕ → k.Writer → BlockHeader → Option k.Writer
  unfolding block_header_cells
  write_header offset w header = do
    (pointer, w') ← k.alloc w 176
    write_table k pointer 169 (write4_at k w' (offset + 4) pointer) (block_header_cells header)

  -- The slice of transactions.
  unfoldable pub write_transactions : ℕ → k.Writer → List Transaction → Option k.Writer
  unfolding write_pointers
  write_transactions offset w txs = do
    (pointer, w') ← k.alloc w (8 * length txs)
    write_pointers pointer
        (write4_at k
          (write4_at k (write4_at k w' (offset + 8) pointer) (offset + 8 + 4) (8 * length txs))
          (offset + 8 + 4 + 4) 8)
        txs

  -- Block.WriteAsRoot on a new writer, and the writer's Bytes.
  unfoldable pub write_block : Block → Option Bytes
  unfolding write_header write_transactions
  write_block b = do
    (offset, w) ← k.alloc k.new_writer 24
    w' ← write_header offset (write4_at k w offset 20) b.header
    w'' ← write_transactions offset w' b.transactions
    some (k.bytes w'')

  -- NewTransactionViewer
  unfoldable pub transaction_viewer : Bytes → ℕ → Option ℕ
  transaction_viewer m offset = if k.is_valid_offset m offset 8 then some offset else none

  -- TransactionViewer.Body; the viewer of zeros has a pointer to 0.
  unfoldable pub view_body : Bytes → Option ℕ → Option ℕ
  unfolding new_viewer
  view_body m none = new_viewer k m 0
  view_body m (some base) = new_viewer k m (little_endian (slice m base 4))

  -- Transaction.Read
  unfoldable pub read_transaction : Bytes → Option ℕ → Transaction
  unfolding view_body read_transaction_body
  read_transaction m v = record { body = read_transaction_body k m (view_body m v) }

  unfoldable pub read_transactions : Bytes → ℕ → ℕ → List Transaction
  unfolding read_transaction
  read_transactions m zero base = []
  read_transactions m (suc n) base =
      read_transaction m (some base) ∷ read_transactions m n (base + 8)

  -- BlockViewer.Header
  unfoldable pub view_header : Bytes → Option ℕ → Option ℕ
  unfolding new_viewer viewer_size
  view_header m none = none
  view_header m (some base) =
      if ltb (viewer_size k m (some base)) (4 + 4)
      then none
      else new_viewer k m (little_endian (slice m (base + 4) 4))

  -- BlockViewer.Transactions, each read.
  unfoldable pub view_transactions : Bytes → Option ℕ → List Transaction
  unfolding viewer_size read_transactions
  view_transactions m none = []
  view_transactions m (some base) =
      let pointer = little_endian (slice m (base + 8) 4) in
      let size = little_endian (slice m (base + 8 + 4) 4) in
      if ltb (viewer_size k m (some base)) (8 + 12)
      then []
      else if k.is_valid_offset m pointer size
      then read_transactions m (size / 8) pointer
      else []

  -- Block.Read
  unfoldable pub read_block : Bytes → Option ℕ → Block
  unfolding view_header view_transactions read_block_header
  read_block m v = record {
    header = read_block_header k m (view_header m v);
    transactions = view_transactions m v;
  }
