-- ===== src/Wire/Root.antt =====
-- The generated WriteAsRoot, and the viewers: what was written is read.
use go_norn.Prelude.{
  ℕ, ◌+◌, ◌≤◌, ◌<◌, ◌≡◌, refl, ap, ◌∙◌, arith, true, false, some, List, [], ◌∷◌, ◌++◌, length, ltb,
  ◌%◌, ◌^◌, le→leb,
}
use go_norn.Prelude.Bytes.{Bytes}
use go_norn.Prelude.LittleEndian.{little_endian, little_endian-put}
use go_norn.Wire.Memory.{slice, splice, length-splice, slice-splice_before, slice-splice_after}
use go_norn.Wire.{
  Runtime, Cell, fixed, slice_of, write4_at, write_table, write_cell, write_cells, write_as_root,
  viewer_size, new_viewer, view_fixed, view_slice,
}
use go_norn.Wire.Cells.{
  four, place, Keeps, width, extras, Laid, Laid-end, Readable, AllReadable, four_there, length-four,
}
use go_norn.Wire.Writing.{write_all}

-- Four bytes give a number below 2 ^ 32 back.
pub little_endian-four : (n : ℕ) → n < 2 ^ 32 → little_endian (four n) ≡ n
little_endian-four n h = little_endian-put 4 (n % 2 ^ 32) (omega arith) ∙ omega (arith, h)

module _ (k : Runtime) where
  -- A field of the table at a place is seen by its accessor.
  abbrev pub Viewed : Bytes → ℕ → Cell → Type 0
  Viewed m base (fixed offset text) = view_fixed k m (some base) offset (length text) ≡ text
  Viewed m base (slice_of offset text) = view_slice k m (some base) offset ≡ text

  abbrev pub AllViewed : Bytes → ℕ → List Cell → Type 0
  AllViewed m base [] = Unit
  AllViewed m base (c ∷ cs) = Viewed m base c × AllViewed m base cs

  Readable-Viewed :
      (base size : ℕ) (m : Bytes) (c : Cell)
      → place c + width c ≤ size
      → viewer_size k m (some base) ≡ size
      → length m < 2 ^ 32
      → Readable base size m c
      → Viewed m base c
  unfolding view_fixed view_slice
  Readable-Viewed base size m (fixed offset text) h e small r =
      let enough : ltb (viewer_size k m (some base)) (offset + length text) ≡ false =
        ground (arith, h, e) in
      rw enough r
  Readable-Viewed base size m (slice_of offset text) h e small r =
      let enough : ltb (viewer_size k m (some base)) (offset + 12) ≡ false = ground (arith, h, e) in
      let p : little_endian (slice m (base + offset) 4) ≡ r.pointer =
        ap little_endian r.at ∙ little_endian-four r.pointer (omega (arith, r.inside, small)) in
      let n : little_endian (slice m (base + offset + 4) 4) ≡ length text =
        ap little_endian r.long
        ∙ little_endian-four (length text) (omega (arith, r.inside, small)) in
      let valid : k.is_valid_offset m r.pointer (length text) ≡ true =
        k.is_valid_offset_lem m r.pointer (length text) ∙ le→leb _ _ r.inside in
      rw (enough, p, n, valid) r.there

  all-Viewed :
      (base from size : ℕ) (m : Bytes) (cs : List Cell)
      → Laid from size cs
      → viewer_size k m (some base) ≡ size
      → length m < 2 ^ 32
      → AllReadable base size m cs
      → AllViewed m base cs
  all-Viewed base from size m [] h e small r = tt
  all-Viewed base from size m (c ∷ cs) h e small r = (
    Readable-Viewed base size m c (Laid-end (place c + width c) size cs h.1) e small r.0,
    all-Viewed base (place c + width c) size m cs h.1 e small r.1,
  )

  -- A table at `base` in memory: its used size stands first and its fields can be read.
  pub record IsTable (base size : ℕ) (cs : List Cell) (m : Bytes) : Type 0 where
    pub laid : Laid 4 size cs
    pub head : slice m base 4 ≡ four size
    pub reads : AllReadable base size m cs
    pub fits : base + size ≤ length m
    pub eight : base + 8 ≤ length m

  -- The viewer at a table sees every field.
  pub IsTable-AllViewed :
      (base size : ℕ) (cs : List Cell) (m : Bytes)
      → IsTable base size cs m
      → length m < 2 ^ 32
      → (new_viewer k m base ≡ some base) × AllViewed m base cs
  unfolding new_viewer viewer_size
  IsTable-AllViewed base size cs m t small =
      let sized : viewer_size k m (some base) ≡ size =
        ap little_endian t.head ∙ little_endian-four size (omega (arith, t.fits, small)) in
      let eight_valid : k.is_valid_offset m base 8 ≡ true =
        k.is_valid_offset_lem m base 8 ∙ le→leb _ _ t.eight in
      let size_valid : k.is_valid_offset m base (viewer_size k m (some base)) ≡ true =
        k.is_valid_offset_lem m base (viewer_size k m (some base))
        ∙ le→leb _ _ (omega (arith, sized, t.fits)) in
      (rw (eight_valid, size_valid) refl, all-Viewed base 4 size m cs t.laid sized small t.reads)

  -- The table is written at a place that is allocated: what comes before and after it stays.
  pub record TableWritten (base size : ℕ) (w : k.Writer) (cs : List Cell) : Type 0 where
    pub next : k.Writer
    pub runs : write_table k base size w cs ≡ some next
    pub table : IsTable base size cs (k.bytes next)
    pub keeps : Keeps base (base + size) (k.bytes w) (k.bytes next)
    pub length_eq : length (k.bytes next) ≡ length (k.bytes w) + extras cs

  pub write_table-TableWritten :
      (base size : ℕ) (w : k.Writer) (cs : List Cell)
      → Laid 4 size cs
      → base + size ≤ length (k.bytes w)
      → base + 8 ≤ length (k.bytes w)
      → TableWritten base size w cs
  write_table-TableWritten base size w cs laid fits eight =
      let w' = write4_at k w base size in
      let e : k.bytes w' ≡ splice (k.bytes w) base (four size) =
        k.write_at-bytes w base (four size) (omega (arith, eight, length-four size)) in
      let long : length (k.bytes w') ≡ length (k.bytes w) =
        ap length e ∙ length-splice (k.bytes w) base (four size) in
      let four_in : 4 ≤ size = Laid-end 4 size cs laid in
      let all = write_all k base 4 size w' cs laid (omega (arith, fits, long)) in
      record {
        next = all.next;
        runs = all.runs;
        table = record {
          laid = laid;
          head =
              all.keeps.lower base 4 (omega arith)
              ∙ ap (λ (b : Bytes). slice b base 4) e
              ∙ four_there (k.bytes w) base size (omega (arith, eight));
          reads = all.reads;
          fits = omega (arith, fits, long, all.length_eq);
          eight = omega (arith, eight, long, all.length_eq);
        };
        keeps = record {
          lower = λ p n l.
              all.keeps.lower p n (omega (arith, l))
              ∙ ap (λ (b : Bytes). slice b p n) e
              ∙ slice-splice_before (k.bytes w) base (four size) p n l;
          upper = λ p n l u.
              all.keeps.upper p n l (omega (arith, u, long))
              ∙ ap (λ (b : Bytes). slice b p n) e
              ∙ slice-splice_after (k.bytes w) base (four size) p n
                  (omega (arith, l, four_in, length-four size));
          grows = omega (arith, long, all.length_eq);
        };
        length_eq = omega (arith, long, all.length_eq);
      }

  -- WriteAsRoot leaves the table of the struct at the start, and as many bytes as the table and the slices take.
  pub write_as_root-IsTable :
      (allocated size : ℕ) (cs : List Cell)
      → Laid 4 size cs
      → size ≤ allocated
      → 8 ≤ allocated
      → (m : Bytes) × (write_as_root k allocated size cs ≡ some m)
        × IsTable 0 size cs m
        × (length m ≡ allocated + extras cs)
  unfolding write_as_root
  write_as_root-IsTable allocated size cs laid fits eight =
      let grown = k.alloc-grows k.new_writer allocated in
      let start : length (k.bytes k.new_writer) ≡ 0 = ap length k.bytes-new in
      let long : length (k.bytes grown.0) ≡ allocated =
        ap length grown.3 ∙ ap (λ (b : Bytes). length (b ++ grown.1)) k.bytes-new ∙ grown.4 in
      let all =
        write_table-TableWritten 0 size grown.0 cs laid (omega (arith, fits, long))
          (omega (arith, eight, long)) in
      (
        k.bytes all.next,
        rw (grown.2, start) (rw all.runs refl),
        all.table,
        omega (arith, all.length_eq, long),
      )

  -- A struct that was written by WriteAsRoot is seen by a viewer, every field as it was written, if the fields follow one
  -- another in the table after its size, and the text is shorter than 2 ^ 32.
  pub write_as_root-AllViewed :
      (allocated size : ℕ) (cs : List Cell)
      → Laid 4 size cs
      → size ≤ allocated
      → 8 ≤ allocated
      → allocated + extras cs < 2 ^ 32
      → (m : Bytes) × (write_as_root k allocated size cs ≡ some m)
        × (new_viewer k m 0 ≡ some 0)
        × AllViewed m 0 cs
  write_as_root-AllViewed allocated size cs laid fits eight small =
      let written = write_as_root-IsTable allocated size cs laid fits eight in
      let seen =
        IsTable-AllViewed 0 size cs written.0 written.2 (omega (arith, written.3, small)) in
      (written.0, written.1, seen.0, seen.1)

  -- Writing has no error, whatever the fields hold: the runtime's writer grows.
  write_cells-runs :
      (base : ℕ) (w : k.Writer) (cs : List Cell)
      → (w' : k.Writer) × (write_cells k base w cs ≡ some w')
  unfolding write_cells write_cell
  write_cells-runs base w [] = (w, refl)
  write_cells-runs base w (fixed offset text ∷ cs) =
      write_cells-runs base (k.write_at w (base + offset) text) cs
  write_cells-runs base w (slice_of offset text ∷ cs) =
      let grown = k.alloc-grows w (length text) in
      let p = length (k.bytes w) in
      let rest =
        write_cells-runs base
          (k.write_at
            (write4_at k
              (write4_at k (write4_at k grown.0 (base + offset) p) (base + offset + 4)
                (length text))
              (base + offset + 4 + 4) 1)
            p text)
          cs in
      (rest.0, rw grown.2 rest.1)

  pub write_as_root-runs :
      (allocated size : ℕ) (cs : List Cell)
      → (m : Bytes) × (write_as_root k allocated size cs ≡ some m)
  unfolding write_as_root
  write_as_root-runs allocated size cs =
      let grown = k.alloc-grows k.new_writer allocated in
      let p = length (k.bytes k.new_writer) in
      let rest = write_cells-runs p (write4_at k grown.0 p size) cs in
      (k.bytes rest.0, rw grown.2 (rw rest.1 refl))
