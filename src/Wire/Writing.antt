-- ===== src/Wire/Writing.antt =====
-- The generated Write: after it, every field of the table can be read.
use go_norn.Prelude.{
  ℕ, ◌+◌, ◌≤◌, ◌≡◌, refl, sym, ap, ◌∙◌, subst, arith, some, List, [], ◌∷◌, ◌++◌, length, inl, inr,
  length-append,
}
use go_norn.Prelude.Bytes.{Bytes}
use go_norn.Wire.Memory.{
  slice, splice, length-splice, slice-splice_self, slice-splice_before, slice-splice_after,
  slice-append,
}
use go_norn.Wire.{Runtime, Cell, fixed, slice_of, write4_at, write_cell, write_cells}
use go_norn.Wire.Cells.{
  four, place, width, extra, extras, Laid, Pointed, Readable, AllReadable, Keeps, Readable-Keeps,
  entry, length-four, length-entry, entry_other, entry-Pointed, Laid-end,
}

module _ (k : Runtime) where
  -- One field is written: it can be read, what comes before it stays, and so does what comes after the table.
  record Written (base size : ℕ) (w : k.Writer) (c : Cell) : Type 0 where
    next : k.Writer
    runs : write_cell k base w c ≡ some next
    reads : Readable base size (k.bytes next) c
    keeps : Keeps (base + place c) (base + size) (k.bytes w) (k.bytes next)
    length_eq : length (k.bytes next) ≡ length (k.bytes w) + extra c

  write_fixed :
      (base size : ℕ) (w : k.Writer) (offset : ℕ) (text : Bytes)
      → offset + length text ≤ size
      → base + size ≤ length (k.bytes w)
      → Written base size w (fixed offset text)
  unfolding write_cell
  write_fixed base size w offset text h room =
      let m = k.bytes w in
      let after = k.write_at-bytes w (base + offset) text (omega (arith, h, room)) in
      record {
        next = k.write_at w (base + offset) text;
        runs = refl;
        reads =
            ap (λ (x : Bytes). slice x (base + offset) (length text)) after
            ∙ slice-splice_self m (base + offset) text (omega (arith, h, room));
        keeps = record {
          lower = λ p n l.
              ap (λ (x : Bytes). slice x p n) after
              ∙ slice-splice_before m (base + offset) text p n l;
          upper = λ p n l u.
              ap (λ (x : Bytes). slice x p n) after
              ∙ slice-splice_after m (base + offset) text p n (omega (arith, h, l));
          grows = omega (arith, ap length after, length-splice m (base + offset) text);
        };
        length_eq = omega (arith, ap length after, length-splice m (base + offset) text);
      }

  written_at :
      (w : k.Writer) (m : Bytes) (o : ℕ) (text : Bytes)
      → k.bytes w ≡ m
      → o + length text ≤ length m
      → k.bytes (k.write_at w o text) ≡ splice m o text
  written_at w m o text e h =
      k.write_at-bytes w o text (omega (arith, h, ap length e))
      ∙ ap (λ (x : Bytes). splice x o text) e

  -- The four writes of a slice.
  written_entry :
      (w : k.Writer) (m : Bytes) (o p : ℕ) (text : Bytes)
      → k.bytes w ≡ m
      → o + 12 ≤ length m
      → p + length text ≤ length m
      → k.bytes (
          k.write_at
            (write4_at k (write4_at k (write4_at k w o p) (o + 4) (length text)) (o + 4 + 4) 1)
            p
            text)
        ≡ entry m o p text
  written_entry w m o p text e h l =
      let m1 = splice m o (four p) in
      let m2 = splice m1 (o + 4) (four (length text)) in
      let m3 = splice m2 (o + 4 + 4) (four 1) in
      let l1 = length-splice m o (four p) in
      let l2 = length-splice m1 (o + 4) (four (length text)) in
      let l3 = length-splice m2 (o + 4 + 4) (four 1) in
      written_at _ m3 p text
        (written_at _ m2 (o + 4 + 4) (four 1)
          (written_at _ m1 (o + 4) (four (length text))
            (written_at w m o (four p) e (omega (arith, h, length-four p)))
            (omega (arith, h, l1, length-four (length text))))
          (omega (arith, h, l1, l2, length-four 1)))
        (omega (arith, l, l1, l2, l3))

  write_slice :
      (base size : ℕ) (w : k.Writer) (offset : ℕ) (text : Bytes)
      → offset + 12 ≤ size
      → base + size ≤ length (k.bytes w)
      → Written base size w (slice_of offset text)
  unfolding write_cell
  write_slice base size w offset text h room =
      let m = k.bytes w in
      let o = base + offset in
      let p = length m in
      let grown = k.alloc-grows w (length text) in
      let m' : Bytes = m ++ grown.1 in
      let total : length m' ≡ length m + length text =
        length-append m grown.1 ∙ ap (λ (n : ℕ). length m + n) grown.4 in
      let last =
        k.write_at
          (write4_at k (write4_at k (write4_at k grown.0 o p) (o + 4) (length text)) (o + 4 + 4) 1)
          p text in
      let e4 : k.bytes last ≡ entry m' o p text =
        written_entry grown.0 m' o p text grown.3 (omega (arith, h, room, total))
          (omega (arith, total)) in
      record {
        next = last;
        runs = rw grown.2 refl;
        reads =
            subst (λ (x : Bytes). Pointed base size x offset text) (sym e4)
              (entry-Pointed base size offset m' p text h room (omega (arith, total)));
        keeps = record {
          lower = λ q n l.
              ap (λ (x : Bytes). slice x q n) e4
              ∙ entry_other m' o p text q n (omega (arith, l, h, room)) (inl l)
              ∙ slice-append m grown.1 q n (omega (arith, l, h, room));
          upper = λ q n l u.
              ap (λ (x : Bytes). slice x q n) e4
              ∙ entry_other m' o p text q n u (inr (omega (arith, l, h)))
              ∙ slice-append m grown.1 q n u;
          grows = omega (arith, ap length e4, length-entry m' o p text, total);
        };
        length_eq = ap length e4 ∙ length-entry m' o p text ∙ total;
      }

  write_one :
      (base size : ℕ) (w : k.Writer) (c : Cell)
      → place c + width c ≤ size
      → base + size ≤ length (k.bytes w)
      → Written base size w c
  write_one base size w (fixed offset text) h room = write_fixed base size w offset text h room
  write_one base size w (slice_of offset text) h room = write_slice base size w offset text h room

  -- Fields that follow one another in the table can all be read after they were written.
  pub record AllWritten (base from size : ℕ) (w : k.Writer) (cs : List Cell) : Type 0 where
    pub next : k.Writer
    pub runs : write_cells k base w cs ≡ some next
    pub reads : AllReadable base size (k.bytes next) cs
    pub keeps : Keeps (base + from) (base + size) (k.bytes w) (k.bytes next)
    pub length_eq : length (k.bytes next) ≡ length (k.bytes w) + extras cs

  Keeps-trans :
      (from after : ℕ) (m m' m'' : Bytes)
      → Keeps from after m m'
      → Keeps from after m' m''
      → Keeps from after m m''
  Keeps-trans from after m m' m'' a b = record {
    lower = λ p n l. b.lower p n l ∙ a.lower p n l;
    upper = λ p n l u. b.upper p n l (omega (arith, u, a.grows)) ∙ a.upper p n l u;
    grows = omega (arith, a.grows, b.grows);
  }

  Keeps-weaken :
      (from from' after : ℕ) (m m' : Bytes)
      → from ≤ from'
      → Keeps from' after m m'
      → Keeps from after m m'
  Keeps-weaken from from' after m m' h a = record {
    lower = λ p n l. a.lower p n (omega (arith, l, h));
    upper = a.upper;
    grows = a.grows;
  }

  pub write_all :
      (base from size : ℕ) (w : k.Writer) (cs : List Cell)
      → Laid from size cs
      → base + size ≤ length (k.bytes w)
      → AllWritten base from size w cs
  unfolding write_cells
  write_all base from size w [] h room = record {
    next = w;
    runs = refl;
    reads = tt;
    keeps = record { lower = λ p n l. refl; upper = λ p n l u. refl; grows = omega arith };
    length_eq = omega arith;
  }
  write_all base from size w (c ∷ cs) h room =
      let ends = Laid-end (place c + width c) size cs h.1 in
      let first = write_one base size w c ends room in
      let rest =
        write_all base (place c + width c) size first.next cs h.1
          (omega (arith, room, first.keeps.grows)) in
      record {
        next = rest.next;
        runs = rw first.runs rest.runs;
        reads = (
          Readable-Keeps base size (k.bytes first.next) (k.bytes rest.next) c ends rest.keeps
              first.reads,
          rest.reads,
        );
        keeps =
            Keeps-trans (base + from) (base + size) (k.bytes w) (k.bytes first.next)
              (k.bytes rest.next)
              (Keeps-weaken (base + from) (base + place c) (base + size) (k.bytes w)
                (k.bytes first.next) (omega (arith, h.0)) first.keeps)
              (Keeps-weaken (base + from) (base + (place c + width c)) (base + size)
                (k.bytes first.next) (k.bytes rest.next) (omega (arith, h.0)) rest.keeps);
        length_eq = omega (arith, first.length_eq, rest.length_eq);
      }
