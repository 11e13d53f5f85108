-- ===== src/Wire/Nested.antt =====
-- The generated Write of a struct inside another: a pointer is written, and the table that it points to.
use go_norn.Prelude.{ℕ, ◌+◌, ◌≤◌, ◌≡◌, ◌∙◌, arith, some, List, [], ◌∷◌, length}
use go_norn.Prelude.Bytes.{Bytes}
use go_norn.Wire.Memory.{slice}
use go_norn.Wire.{Runtime, Cell, fixed, slice_of, write4_at, write_table}
use go_norn.Wire.Cells.{four, place, width, extras, Keeps, Laid, Laid-end, Readable, AllReadable}
use go_norn.Wire.Fours.{Keeps-then, alloc-Allocated, write4_at-FourWritten}
use go_norn.Wire.Root.{IsTable, write_table-TableWritten}

Readable-later :
    (base size after from : ℕ) (m m' : Bytes) (c : Cell)
    → place c + width c ≤ size
    → base + size ≤ length m
    → after ≤ base
    → Keeps from after m m'
    → Readable base size m c
    → Readable base size m' c
Readable-later base size after from m m' (fixed offset text) h fits below keep r =
    keep.upper (base + offset) (length text) (omega (arith, below)) (omega (arith, h, fits)) ∙ r
Readable-later base size after from m m' (slice_of offset text) h fits below keep r = record {
  pointer = r.pointer;
  at = keep.upper (base + offset) 4 (omega (arith, below)) (omega (arith, h, fits)) ∙ r.at;
  long = keep.upper (base + offset + 4) 4 (omega (arith, below)) (omega (arith, h, fits)) ∙ r.long;
  above = r.above;
  inside = omega (arith, r.inside, keep.grows);
  there = keep.upper r.pointer (length text) (omega (arith, below, r.above)) r.inside ∙ r.there;
}

all-later :
    (base size after from low : ℕ) (m m' : Bytes) (cs : List Cell)
    → Laid low size cs
    → base + size ≤ length m
    → after ≤ base
    → Keeps from after m m'
    → AllReadable base size m cs
    → AllReadable base size m' cs
all-later base size after from low m m' [] laid fits below keep r = tt
all-later base size after from low m m' (c ∷ cs) laid fits below keep r = (
  Readable-later base size after from m m' c (Laid-end (place c + width c) size cs laid.1) fits
      below keep r.0,
  all-later base size after from (place c + width c) m m' cs laid.1 fits below keep r.1,
)

module _ (k : Runtime) where
  -- A table stays when only what is before it is written.
  pub IsTable-later :
      (base size after from : ℕ) (cs : List Cell) (m m' : Bytes)
      → after ≤ base
      → Keeps from after m m'
      → IsTable k base size cs m
      → IsTable k base size cs m'
  IsTable-later base size after from cs m m' below keep t = record {
    laid = t.laid;
    head = keep.upper base 4 below (omega (arith, t.eight)) ∙ t.head;
    reads = all-later base size after from 4 m m' cs t.laid t.fits below keep t.reads;
    fits = omega (arith, t.fits, keep.grows);
    eight = omega (arith, t.eight, keep.grows);
  }

  -- A table of its own is allocated and written, and the pointer to it at `slot`.
  pub record NestedWritten (slot allocated size : ℕ) (w : k.Writer) (cs : List Cell) : Type 0 where
    pub grown : k.Writer
    pub allocates : k.alloc w allocated ≡ some (length (k.bytes w), grown)
    pub next : k.Writer
    pub runs :
        write_table k (length (k.bytes w)) size (write4_at k grown slot (length (k.bytes w))) cs
        ≡ some next
    pub points : slice (k.bytes next) slot 4 ≡ four (length (k.bytes w))
    pub table : IsTable k (length (k.bytes w)) size cs (k.bytes next)
    pub keeps : Keeps slot (slot + 4) (k.bytes w) (k.bytes next)
    pub length_eq : length (k.bytes next) ≡ length (k.bytes w) + allocated + extras cs

  pub write_nested :
      (slot allocated size : ℕ) (w : k.Writer) (cs : List Cell)
      → Laid 4 size cs
      → size ≤ allocated
      → 8 ≤ allocated
      → slot + 4 ≤ length (k.bytes w)
      → NestedWritten slot allocated size w cs
  write_nested slot allocated size w cs laid fits eight room =
      let p = length (k.bytes w) in
      let a = alloc-Allocated k allocated w in
      let f = write4_at-FourWritten k a.grown slot p (omega (arith, room, a.length_eq)) in
      let w1 = write4_at k a.grown slot p in
      let filled =
        write_table-TableWritten k p size w1 cs laid (omega (arith, fits, a.length_eq, f.length_eq))
          (omega (arith, eight, a.length_eq, f.length_eq)) in
      let before : Keeps slot (slot + 4) (k.bytes w) (k.bytes w1) =
        Keeps-then slot (slot + 4) (k.bytes w) (k.bytes a.grown) (k.bytes w1)
          (a.keeps slot (slot + 4) (omega (arith, room))) f.keeps in
      record {
        grown = a.grown;
        allocates = a.allocates;
        next = filled.next;
        runs = filled.runs;
        points = filled.keeps.lower slot 4 (omega (arith, room)) ∙ f.at;
        table = filled.table;
        keeps = record {
          lower = λ q n l. filled.keeps.lower q n (omega (arith, l, room)) ∙ before.lower q n l;
          upper = λ q n l u. filled.keeps.lower q n u ∙ before.upper q n l u;
          grows = omega (arith, before.grows, filled.length_eq);
        };
        length_eq = omega (arith, a.length_eq, f.length_eq, filled.length_eq);
      }
