-- ===== src/Wire/Blocks/Pointers.antt =====
-- common/common_km.go: Transaction as bytes, and the transactions of a block one after the other.
use go_norn.Prelude.{
  ℕ, ◌+◌, ◌*◌, ◌<◌, ◌≤◌, ◌≡◌, refl, ap, ◌∙◌, arith, some, List, [], ◌∷◌, length, ◌^◌,
}
use go_norn.Prelude.Bytes.{Bytes}
use go_norn.Prelude.LittleEndian.{little_endian}
use go_norn.Common.{Transaction}
use go_norn.Common.Encodable.{IsBody, slices, AllBodies, bodies}
use go_norn.Wire.Memory.{slice}
use go_norn.Wire.{Runtime, new_viewer}
use go_norn.Wire.Cells.{four, Keeps, extras}
use go_norn.Wire.Root.{IsTable, IsTable-AllViewed, little_endian-four}
use go_norn.Wire.Fours.{Keeps-then, Keeps-within}
use go_norn.Wire.Nested.{IsTable-later, write_nested}
use go_norn.Wire.Headers.{
  transaction_body_cells, read_transaction_body, transaction_body-Laid, transaction_body-seen,
}
use go_norn.Wire.Blocks.{
  write_pointer, write_pointers, view_body, read_transaction, read_transactions,
}

extras-slices : (tx : Transaction) → extras (transaction_body_cells tx.body) ≡ slices tx.body
unfolding transaction_body_cells
extras-slices tx = omega arith

module _ (k : Runtime) where
  -- A pointer to the table of a transaction's body, which lies after the pointers.
  pub record Points (after start : ℕ) (m : Bytes) (tx : Transaction) : Type 0 where
    pub pointer : ℕ
    pub at : slice m start 4 ≡ four pointer
    pub above : after ≤ pointer
    pub table : IsTable k pointer 249 (transaction_body_cells tx.body) m

  abbrev pub AllPoint : ℕ → ℕ → Bytes → List Transaction → Type 0
  AllPoint after start m [] = Unit
  AllPoint after start m (tx ∷ txs) = Points after start m tx × AllPoint after (start + 8) m txs

  Points-later :
      (after start from : ℕ) (m m' : Bytes) (tx : Transaction)
      → start + 4 ≤ from
      → Keeps from after m m'
      → Points after start m tx
      → Points after start m' tx
  Points-later after start from m m' tx h keep p = record {
    pointer = p.pointer;
    at = keep.lower start 4 h ∙ p.at;
    above = p.above;
    table =
        IsTable-later k p.pointer 249 after from (transaction_body_cells tx.body) m m' p.above keep
          p.table;
  }

  pub record PointerWritten (after start : ℕ) (w : k.Writer) (tx : Transaction) : Type 0 where
    pub next : k.Writer
    pub runs : write_pointer k start w tx ≡ some next
    pub points : Points after start (k.bytes next) tx
    pub keeps : Keeps start after (k.bytes w) (k.bytes next)
    pub length_eq : length (k.bytes next) ≡ length (k.bytes w) + (256 + slices tx.body)

  pub write_pointer-PointerWritten :
      (after start : ℕ) (w : k.Writer) (tx : Transaction)
      → IsBody tx.body
      → start + 8 ≤ after
      → after ≤ length (k.bytes w)
      → PointerWritten after start w tx
  unfolding write_pointer
  write_pointer-PointerWritten after start w tx own h room =
      let n =
        write_nested k start 256 249 w (transaction_body_cells tx.body)
          (transaction_body-Laid k tx.body own) (omega arith) (omega arith)
          (omega (arith, h, room)) in
      record {
        next = n.next;
        runs = rw n.allocates n.runs;
        points = record {
          pointer = length (k.bytes w);
          at = n.points;
          above = room;
          table = n.table;
        };
        keeps =
            Keeps-within start start after (start + 4) (k.bytes w) (k.bytes n.next) (omega arith)
              (omega (arith, h)) n.keeps;
        length_eq = omega (arith, n.length_eq, extras-slices tx);
      }

  pub record PointersWritten (after start : ℕ) (w : k.Writer) (txs : List Transaction)
      : Type 0 where
    pub next : k.Writer
    pub runs : write_pointers k start w txs ≡ some next
    pub point : AllPoint after start (k.bytes next) txs
    pub keeps : Keeps start after (k.bytes w) (k.bytes next)
    pub length_eq : length (k.bytes next) ≡ length (k.bytes w) + bodies txs

  pub write_pointers-PointersWritten :
      (after start : ℕ) (w : k.Writer) (txs : List Transaction)
      → AllBodies txs
      → start + 8 * length txs ≤ after
      → after ≤ length (k.bytes w)
      → PointersWritten after start w txs
  unfolding write_pointers
  write_pointers-PointersWritten after start w [] own h room = record {
    next = w;
    runs = refl;
    point = tt;
    keeps = record { lower = λ p n l. refl; upper = λ p n l u. refl; grows = omega arith };
    length_eq = omega arith;
  }
  write_pointers-PointersWritten after start w (tx ∷ txs) own h room =
      let first = write_pointer-PointerWritten after start w tx own.0 (omega (arith, h)) room in
      let rest =
        write_pointers-PointersWritten after (start + 8) first.next txs own.1 (omega (arith, h))
          (omega (arith, room, first.length_eq)) in
      record {
        next = rest.next;
        runs = rw first.runs rest.runs;
        point = (
          Points-later after start (start + 8) (k.bytes first.next) (k.bytes rest.next) tx
              (omega arith) rest.keeps first.points,
          rest.point,
        );
        keeps =
            Keeps-then start after (k.bytes w) (k.bytes first.next) (k.bytes rest.next) first.keeps
              (Keeps-within start (start + 8) after after (k.bytes first.next) (k.bytes rest.next)
                (omega arith) (omega arith) rest.keeps);
        length_eq = omega (arith, first.length_eq, rest.length_eq);
      }

  pub read_transaction-back :
      (after start : ℕ) (m : Bytes) (tx : Transaction)
      → IsBody tx.body
      → length m < 2 ^ 32
      → Points after start m tx
      → read_transaction k m (some start) ≡ tx
  unfolding read_transaction view_body
  read_transaction-back after start m tx own small p =
      let at : little_endian (slice m start 4) ≡ p.pointer =
        ap little_endian p.at ∙ little_endian-four p.pointer (omega (arith, p.table.fits, small)) in
      let seen =
        IsTable-AllViewed k p.pointer 249 (transaction_body_cells tx.body) m p.table small in
      let body : read_transaction_body k m (new_viewer k m (little_endian (slice m start 4)))
          ≡ tx.body =
        rw (at, seen.0) (transaction_body-seen k m p.pointer tx.body own seen.1) in
      rw body refl

  pub read_transactions-back :
      (after start : ℕ) (m : Bytes) (txs : List Transaction)
      → AllBodies txs
      → length m < 2 ^ 32
      → AllPoint after start m txs
      → read_transactions k m (length txs) start ≡ txs
  unfolding read_transactions
  read_transactions-back after start m [] own small p = refl
  read_transactions-back after start m (tx ∷ txs) own small p =
      rw
        (
          read_transaction-back after start m tx own.0 small p.0,
          read_transactions-back after (start + 8) m txs own.1 small p.1,
        )
        refl
