-- ===== src/Wire/Fours.antt =====
-- The steps of the generated Write outside a table: an allocation, and a number of four bytes that is written at its place.
use go_norn.Prelude.{ℕ, ◌+◌, ◌≤◌, ◌≡◌, ap, ◌∙◌, arith, some, length, length-append}
use go_norn.Prelude.Bytes.{Bytes}
use go_norn.Wire.Memory.{
  slice, splice, length-splice, slice-splice_before, slice-splice_after, slice-append,
}
use go_norn.Wire.{Runtime, write4_at}
use go_norn.Wire.Cells.{four, Keeps, four_there, length-four}

pub Keeps-then :
    (from after : ℕ) (m m' m'' : Bytes)
    → Keeps from after m m'
    → Keeps from after m' m''
    → Keeps from after m m''
Keeps-then from after m m' m'' a b = record {
  lower = λ p n l. b.lower p n l ∙ a.lower p n l;
  upper = λ p n l u. b.upper p n l (omega (arith, u, a.grows)) ∙ a.upper p n l u;
  grows = omega (arith, a.grows, b.grows);
}

pub Keeps-within :
    (from from' after after' : ℕ) (m m' : Bytes)
    → from ≤ from'
    → after' ≤ after
    → Keeps from' after' m m'
    → Keeps from after m m'
Keeps-within from from' after after' m m' h h' a = record {
  lower = λ p n l. a.lower p n (omega (arith, l, h));
  upper = λ p n l u. a.upper p n (omega (arith, l, h')) u;
  grows = a.grows;
}

module _ (k : Runtime) where
  -- Memory that was allocated: it starts where the old memory ended, which stays.
  pub record Allocated (amount : ℕ) (w : k.Writer) : Type 0 where
    pub grown : k.Writer
    pub allocates : k.alloc w amount ≡ some (length (k.bytes w), grown)
    pub keeps :
        (from after : ℕ) → from ≤ length (k.bytes w) → Keeps from after (k.bytes w) (k.bytes grown)
    pub length_eq : length (k.bytes grown) ≡ length (k.bytes w) + amount

  pub alloc-Allocated : (amount : ℕ) (w : k.Writer) → Allocated amount w
  alloc-Allocated amount w =
      let m = k.bytes w in
      let alloced = k.alloc-grows w amount in
      let size : length (k.bytes alloced.0) ≡ length m + amount =
        ap length alloced.3 ∙ length-append m alloced.1 ∙ ap (λ (n : ℕ). length m + n) alloced.4 in
      let same = λ (q n : ℕ). ap (λ (b : Bytes). slice b q n) alloced.3 in
      record {
        grown = alloced.0;
        allocates = alloced.2;
        keeps = λ from after h. record {
          lower = λ q n l. same q n ∙ slice-append m alloced.1 q n (omega (arith, l, h));
          upper = λ q n l u. same q n ∙ slice-append m alloced.1 q n u;
          grows = omega (arith, size);
        };
        length_eq = size;
      }

  -- A number that was written: it stands at its place, and all else stays.
  pub record FourWritten (o n : ℕ) (w w' : k.Writer) : Type 0 where
    pub at : slice (k.bytes w') o 4 ≡ four n
    pub keeps : Keeps o (o + 4) (k.bytes w) (k.bytes w')
    pub length_eq : length (k.bytes w') ≡ length (k.bytes w)

  pub write4_at-FourWritten :
      (w : k.Writer) (o n : ℕ) → o + 4 ≤ length (k.bytes w) → FourWritten o n w (write4_at k w o n)
  write4_at-FourWritten w o n h =
      let m = k.bytes w in
      let e : k.bytes (write4_at k w o n) ≡ splice m o (four n) =
        k.write_at-bytes w o (four n) (omega (arith, h, length-four n)) in
      let same = λ (q i : ℕ). ap (λ (b : Bytes). slice b q i) e in
      let size = ap length e ∙ length-splice m o (four n) in
      record {
        at = same o 4 ∙ four_there m o n h;
        keeps = record {
          lower = λ q i l. same q i ∙ slice-splice_before m o (four n) q i l;
          upper = λ q i l u.
              same q i ∙ slice-splice_after m o (four n) q i (omega (arith, l, length-four n));
          grows = omega (arith, size);
        };
        length_eq = size;
      }
