-- ===== src/Wire/Blocks/Written.antt =====
-- common/common_km.go: what WriteAsRoot of Block leaves in the memory.
use go_norn.Prelude.{ℕ, ◌+◌, ◌*◌, ◌≤◌, ◌≡◌, refl, ap, ◌∙◌, arith, some, length}
use go_norn.Prelude.Bytes.{Bytes}
use go_norn.Common.{BlockHeader, Block}
use go_norn.Common.Encodable.{IsHeader, bodies, AllBodies}
use go_norn.Wire.Memory.{slice}
use go_norn.Wire.{Runtime, write4_at}
use go_norn.Wire.Cells.{four, Keeps, extras}
use go_norn.Wire.Root.{IsTable}
use go_norn.Wire.Fours.{FourWritten, alloc-Allocated, write4_at-FourWritten}
use go_norn.Wire.Nested.{NestedWritten, IsTable-later, write_nested}
use go_norn.Wire.Headers.{block_header_cells, block_header-Laid}
use go_norn.Wire.Blocks.{write_header, write_transactions, write_block}
use go_norn.Wire.Blocks.Pointers.{AllPoint, PointersWritten, write_pointers-PointersWritten}

module _ (k : Runtime) where
  -- The allocation of the pointers and the entry of their slice, at `slot`.
  record Opened (slot amount : ℕ) (w : k.Writer) : Type 0 where
    grown : k.Writer
    allocates : k.alloc w amount ≡ some (length (k.bytes w), grown)
    next : k.Writer
    writes :
        write4_at k
          (write4_at k (write4_at k grown slot (length (k.bytes w))) (slot + 4) amount)
          (slot + 4 + 4)
          8
        ≡ next
    at : slice (k.bytes next) slot 4 ≡ four (length (k.bytes w))
    long : slice (k.bytes next) (slot + 4) 4 ≡ four amount
    keeps : Keeps slot (slot + 12) (k.bytes w) (k.bytes next)
    length_eq : length (k.bytes next) ≡ length (k.bytes w) + amount

  open_slice :
      (slot amount : ℕ) (w : k.Writer) → slot + 12 ≤ length (k.bytes w) → Opened slot amount w
  open_slice slot amount w room =
      let p = length (k.bytes w) in
      let a = alloc-Allocated k amount w in
      let w1 = write4_at k a.grown slot p in
      let f1 = write4_at-FourWritten k a.grown slot p (omega (arith, room, a.length_eq)) in
      let w2 = write4_at k w1 (slot + 4) amount in
      let f2 =
        write4_at-FourWritten k w1 (slot + 4) amount
          (omega (arith, room, a.length_eq, f1.length_eq)) in
      let w3 = write4_at k w2 (slot + 4 + 4) 8 in
      let f3 =
        write4_at-FourWritten k w2 (slot + 4 + 4) 8
          (omega (arith, room, a.length_eq, f1.length_eq, f2.length_eq)) in
      record {
        grown = a.grown;
        allocates = a.allocates;
        next = w3;
        writes = refl;
        at = f3.keeps.lower slot 4 (omega arith) ∙ f2.keeps.lower slot 4 (omega arith) ∙ f1.at;
        long = f3.keeps.lower (slot + 4) 4 (omega arith) ∙ f2.at;
        keeps = record {
          lower = λ q n l.
              f3.keeps.lower q n (omega (arith, l))
              ∙ f2.keeps.lower q n (omega (arith, l))
              ∙ f1.keeps.lower q n l
              ∙ (a.keeps slot (slot + 12) (omega (arith, room))).lower q n l;
          upper = λ q n l u.
              f3.keeps.upper q n (omega (arith, l))
                (omega (arith, u, a.length_eq, f1.length_eq, f2.length_eq))
              ∙ f2.keeps.upper q n (omega (arith, l)) (omega (arith, u, a.length_eq, f1.length_eq))
              ∙ f1.keeps.upper q n (omega (arith, l)) (omega (arith, u, a.length_eq))
              ∙ (a.keeps slot (slot + 12) (omega (arith, room))).upper q n l u;
          grows = omega (arith, a.length_eq, f1.length_eq, f2.length_eq, f3.length_eq);
        };
        length_eq = omega (arith, a.length_eq, f1.length_eq, f2.length_eq, f3.length_eq);
      }

  -- The first table of a new writer: it starts at 0.
  pub new_table :
      (n : ℕ) → (w : k.Writer) × (k.alloc k.new_writer n ≡ some (0, w)) × (length (k.bytes w) ≡ n)
  new_table n =
      let a = alloc-Allocated k n k.new_writer in
      let start : length (k.bytes k.new_writer) ≡ 0 = ap length k.bytes-new in
      (
        a.grown,
        a.allocates ∙ ap (λ (o : ℕ). some (o, a.grown)) start,
        omega (arith, a.length_eq, start),
      )

  extras-params : (x : BlockHeader) → extras (block_header_cells x) ≡ length x.params
  unfolding block_header_cells
  extras-params x = omega arith

  -- What the memory of a block holds: its table, the table of the header, and the pointers of the transactions.
  pub record BlockLaid (b : Block) (m : Bytes) : Type 0 where
    pub size : slice m 0 4 ≡ four 20
    pub header_pointer : ℕ
    pub header_at : slice m 4 4 ≡ four header_pointer
    pub header_table : IsTable k header_pointer 169 (block_header_cells b.header) m
    pub start : ℕ
    pub start_at : slice m 8 4 ≡ four start
    pub amount : slice m 12 4 ≡ four (8 * length b.transactions)
    pub inside : start + 8 * length b.transactions ≤ length m
    pub point : AllPoint k (start + 8 * length b.transactions) start m b.transactions
    pub long : 24 ≤ length m

  -- The writers of WriteAsRoot of a block, one after the other: the table of the block and its size, the header, the slice of
  -- the pointers, and the transactions.
  record Stages (b : Block) : Type 0 where
    first : k.Writer
    allocates : k.alloc k.new_writer 24 ≡ some (0, first)
    sized : FourWritten k 0 20 first (write4_at k first 0 20)
    first_length : length (k.bytes first) ≡ 24
    header : NestedWritten k 4 176 169 (write4_at k first 0 20) (block_header_cells b.header)
    header_length : length (k.bytes header.next) ≡ 200 + length b.header.params
    opened : Opened 8 (8 * length b.transactions) header.next
    pointers :
        PointersWritten k
          (length (k.bytes header.next) + 8 * length b.transactions)
          (length (k.bytes header.next))
          opened.next
          b.transactions

  write_block-Stages : (b : Block) → IsHeader b.header → AllBodies b.transactions → Stages b
  write_block-Stages b own txs_own =
      let start = new_table 24 in
      let sized = write4_at-FourWritten k start.0 0 20 (omega (arith, start.2)) in
      let header =
        write_nested k 4 176 169 (write4_at k start.0 0 20) (block_header_cells b.header)
          (block_header-Laid k b.header own) (omega arith) (omega arith)
          (omega (arith, sized.length_eq, start.2)) in
      let size : length (k.bytes header.next) ≡ 200 + length b.header.params =
        omega (arith, header.length_eq, sized.length_eq, start.2, extras-params b.header) in
      let opened = open_slice 8 (8 * length b.transactions) header.next (omega (arith, size)) in
      record {
        first = start.0;
        allocates = start.1;
        sized = sized;
        first_length = start.2;
        header = header;
        header_length = size;
        opened = opened;
        pointers =
            write_pointers-PointersWritten k
              (length (k.bytes header.next) + 8 * length b.transactions)
              (length (k.bytes header.next)) opened.next b.transactions txs_own (omega arith)
              (omega (arith, opened.length_eq));
      }

  Stages-runs : (b : Block) (s : Stages b) → write_block k b ≡ some (k.bytes s.pointers.next)
  unfolding write_block write_header write_transactions
  Stages-runs b s = rw s.allocates (
      rw s.header.allocates
        (rw s.header.runs (rw s.opened.allocates (rw s.opened.writes (rw s.pointers.runs refl)))))

  Stages-BlockLaid : (b : Block) (s : Stages b) → BlockLaid b (k.bytes s.pointers.next)
  Stages-BlockLaid b s =
      let m = k.bytes s.pointers.next in
      let later : (q i : ℕ) → q + i ≤ 8 → slice m q i ≡ slice (k.bytes s.header.next) q i = λ q i l.
        s.pointers.keeps.lower q i (omega (arith, l, s.header_length))
        ∙ s.opened.keeps.lower q i l in
      let kept : Keeps 8 20 (k.bytes s.header.next) m = record {
        lower = later;
        upper = λ q i l u. s.pointers.keeps.lower q i u ∙ s.opened.keeps.upper q i l u;
        grows = omega (arith, s.opened.length_eq, s.pointers.length_eq);
      } in
      let table = length (k.bytes (write4_at k s.first 0 20)) in
      record {
        size = later 0 4 (omega arith) ∙ s.header.keeps.lower 0 4 (omega arith) ∙ s.sized.at;
        header_pointer = table;
        header_at = later 4 4 (omega arith) ∙ s.header.points;
        header_table =
            IsTable-later k table 169 20 8 (block_header_cells b.header) (k.bytes s.header.next) m
              (omega (arith, s.sized.length_eq, s.first_length)) kept s.header.table;
        start = length (k.bytes s.header.next);
        start_at = s.pointers.keeps.lower 8 4 (omega (arith, s.header_length)) ∙ s.opened.at;
        amount = s.pointers.keeps.lower 12 4 (omega (arith, s.header_length)) ∙ s.opened.long;
        inside = omega (arith, s.opened.length_eq, s.pointers.length_eq);
        point = s.pointers.point;
        long = omega (arith, s.opened.length_eq, s.pointers.length_eq, s.header_length);
      }

  pub write_block-BlockLaid :
      (b : Block)
      → IsHeader b.header
      → AllBodies b.transactions
      → (m : Bytes) × (write_block k b ≡ some m)
        × BlockLaid b m
        × (length m
            ≡ 200 + length b.header.params + 8 * length b.transactions + bodies b.transactions)
  write_block-BlockLaid b own txs_own =
      let s = write_block-Stages b own txs_own in
      (
        k.bytes s.pointers.next,
        Stages-runs b s,
        Stages-BlockLaid b s,
        omega (arith, s.opened.length_eq, s.pointers.length_eq, s.header_length),
      )
