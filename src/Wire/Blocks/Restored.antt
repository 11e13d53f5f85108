-- ===== src/Wire/Blocks/Restored.antt =====
-- common/common_km.go: what WriteAsRoot of Transaction and Block writes, Read reads.
use go_norn.Prelude.{◌+◌, ◌*◌, ◌/◌, ◌<◌, ◌≡◌, refl, ap, ◌∙◌, arith, true, some, length, ◌^◌, le→leb}
use go_norn.Prelude.Bytes.{Bytes}
use go_norn.Prelude.LittleEndian.{little_endian}
use go_norn.Common.{Transaction, Block}
use go_norn.Common.Encodable.{IsBody, IsHeader, slices, bodies, AllBodies}
use go_norn.Wire.Memory.{slice}
use go_norn.Wire.{Runtime, viewer_size, new_viewer}
use go_norn.Wire.Root.{IsTable-AllViewed, little_endian-four}
use go_norn.Wire.Headers.{block_header_cells, read_block_header, block_header-seen}
use go_norn.Wire.Blocks.{
  write_transaction, write_block, transaction_viewer, read_transaction, view_header,
  view_transactions, read_block,
}
use go_norn.Wire.Blocks.Pointers.{
  write_pointer-PointerWritten, read_transaction-back, read_transactions-back,
}
use go_norn.Wire.Blocks.Written.{BlockLaid, new_table, write_block-BlockLaid}

module _ (k : Runtime) where
  -- A transaction whose body has arrays of their lengths and int64 numbers is read back from the bytes that WriteAsRoot
  -- makes of it on a new writer, if these are fewer than 2 ^ 32; writing has no error.
  pub read-write_transaction :
      (tx : Transaction)
      → IsBody tx.body
      → 8 + (256 + slices tx.body) < 2 ^ 32
      → (m : Bytes) × (write_transaction k tx ≡ some m)
        × (read_transaction k m (transaction_viewer k m 0) ≡ tx)
  unfolding write_transaction transaction_viewer
  read-write_transaction tx own small =
      let start = new_table k 8 in
      let p =
        write_pointer-PointerWritten k 8 0 start.0 tx own (omega arith) (omega (arith, start.2)) in
      let m = k.bytes p.next in
      let valid : k.is_valid_offset m 0 8 ≡ true =
        k.is_valid_offset_lem m 0 8 ∙ le→leb _ _ (omega (arith, p.length_eq, start.2)) in
      (
        m,
        rw start.1 (rw p.runs refl),
        rw valid (
            read_transaction-back k 8 0 m tx own (omega (arith, p.length_eq, start.2, small))
              p.points),
      )

  read_block-back :
      (b : Block) (m : Bytes)
      → IsHeader b.header
      → AllBodies b.transactions
      → BlockLaid k b m
      → length m < 2 ^ 32
      → read_block k m (new_viewer k m 0) ≡ b
  unfolding read_block new_viewer viewer_size view_header view_transactions
  read_block-back b m own txs_own t small =
      let count = 8 * length b.transactions in
      let sized : viewer_size k m (some 0) ≡ 20 =
        ap little_endian t.size ∙ little_endian-four 20 (omega arith) in
      let eight : k.is_valid_offset m 0 8 ≡ true =
        k.is_valid_offset_lem m 0 8 ∙ le→leb _ _ (omega (arith, t.long)) in
      let all : k.is_valid_offset m 0 20 ≡ true =
        k.is_valid_offset_lem m 0 20 ∙ le→leb _ _ (omega (arith, t.long)) in
      let to_header : little_endian (slice m 4 4) ≡ t.header_pointer =
        ap little_endian t.header_at
        ∙ little_endian-four t.header_pointer (omega (arith, t.header_table.fits, small)) in
      let seen =
        IsTable-AllViewed k t.header_pointer 169 (block_header_cells b.header) m t.header_table
          small in
      let to_txs : little_endian (slice m 8 4) ≡ t.start =
        ap little_endian t.start_at ∙ little_endian-four t.start (omega (arith, t.inside, small)) in
      let size : little_endian (slice m 12 4) ≡ count =
        ap little_endian t.amount ∙ little_endian-four count (omega (arith, t.inside, small)) in
      let valid : k.is_valid_offset m t.start count ≡ true =
        k.is_valid_offset_lem m t.start count ∙ le→leb _ _ t.inside in
      let many : count / 8 ≡ length b.transactions = omega arith in
      let header : read_block_header k m (view_header k m (some 0)) ≡ b.header =
        rw (sized, to_header, seen.0)
          (block_header-seen k m t.header_pointer b.header own seen.1) in
      let txs : view_transactions k m (some 0) ≡ b.transactions =
        rw (sized, to_txs, size, valid, many)
          (read_transactions-back k (t.start + count) t.start m b.transactions txs_own small
            t.point) in
      rw (eight, sized, all) (rw (header, txs) refl)

  -- A block whose header and transactions have arrays of their lengths and int64 numbers is read back from the bytes that
  -- WriteAsRoot makes of it on a new writer, transactions in their order, if these are fewer than 2 ^ 32; writing has no
  -- error.
  pub read-write_block :
      (b : Block)
      → IsHeader b.header
      → AllBodies b.transactions
      → 200 + length b.header.params + 8 * length b.transactions + bodies b.transactions < 2 ^ 32
      → (m : Bytes) × (write_block k b ≡ some m) × (read_block k m (new_viewer k m 0) ≡ b)
  read-write_block b own txs_own small =
      let written = write_block-BlockLaid k b own txs_own in
      (
        written.0,
        written.1,
        read_block-back b written.0 own txs_own written.2 (omega (arith, written.3, small)),
      )
