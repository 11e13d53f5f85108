-- ===== src/Wire/Cells.antt =====
-- The fields of a table in memory, as the generated Write leaves them.
use go_norn.Prelude.{
  ℕ, ◌+◌, ◌≤◌, ◌≡◌, ◌∙◌, subst, arith, List, [], ◌∷◌, length, ◌⊎◌, inl, inr, ◌%◌, ◌^◌,
}
use go_norn.Prelude.Bytes.{Bytes}
use go_norn.Prelude.LittleEndian.{put_little_endian, length-put_little_endian}
use go_norn.Wire.Memory.{
  slice, splice, length-splice, slice-splice_self, slice-splice_before, slice-splice_after,
}
use go_norn.Wire.{Cell, fixed, slice_of}

abbrev pub four : ℕ → Bytes
four n = put_little_endian 4 (n % 2 ^ 32)

abbrev pub place : Cell → ℕ
place (fixed offset text) = offset
place (slice_of offset text) = offset

abbrev pub width : Cell → ℕ
width (fixed offset text) = length text
width (slice_of offset text) = 12

-- The bytes that come after the table.
abbrev pub extra : Cell → ℕ
extra (fixed offset text) = 0
extra (slice_of offset text) = length text

abbrev pub extras : List Cell → ℕ
extras [] = 0
extras (c ∷ cs) = extra c + extras cs

-- The fields follow one another from `from` on and end by `size`.
abbrev pub Laid : ℕ → ℕ → List Cell → Type 0
Laid from size [] = from ≤ size
Laid from size (c ∷ cs) = (from ≤ place c) × Laid (place c + width c) size cs

-- A slice that the table at `base` describes, whose bytes lie after the table.
pub record Pointed (base size : ℕ) (m : Bytes) (offset : ℕ) (text : Bytes) : Type 0 where
  pub pointer : ℕ
  pub at : slice m (base + offset) 4 ≡ four pointer
  pub long : slice m (base + offset + 4) 4 ≡ four (length text)
  pub above : base + size ≤ pointer
  pub inside : pointer + length text ≤ length m
  pub there : slice m pointer (length text) ≡ text

abbrev pub Readable : ℕ → ℕ → Bytes → Cell → Type 0
Readable base size m (fixed offset text) = slice m (base + offset) (length text) ≡ text
Readable base size m (slice_of offset text) = Pointed base size m offset text

abbrev pub AllReadable : ℕ → ℕ → Bytes → List Cell → Type 0
AllReadable base size m [] = Unit
AllReadable base size m (c ∷ cs) = Readable base size m c × AllReadable base size m cs

-- What is before `from` and what is after the table stays.
pub record Keeps (from after : ℕ) (m m' : Bytes) : Type 0 where
  pub lower : (p n : ℕ) → p + n ≤ from → slice m' p n ≡ slice m p n
  pub upper : (p n : ℕ) → after ≤ p → p + n ≤ length m → slice m' p n ≡ slice m p n
  pub grows : length m ≤ length m'

pub Readable-Keeps :
    (base size : ℕ) (m m' : Bytes) (c : Cell)
    → place c + width c ≤ size
    → Keeps (base + (place c + width c)) (base + size) m m'
    → Readable base size m c
    → Readable base size m' c
Readable-Keeps base size m m' (fixed offset text) h k r =
    k.lower (base + offset) (length text) (omega arith) ∙ r
Readable-Keeps base size m m' (slice_of offset text) h k r = record {
  pointer = r.pointer;
  at = k.lower (base + offset) 4 (omega arith) ∙ r.at;
  long = k.lower (base + offset + 4) 4 (omega arith) ∙ r.long;
  above = r.above;
  inside = omega (arith, r.inside, k.grows);
  there = k.upper r.pointer (length text) r.above r.inside ∙ r.there;
}

-- The memory after the entry of a slice was written at the place `o` and its bytes at the place p.
abbrev pub entry : Bytes → ℕ → ℕ → Bytes → Bytes
entry m o p text =
    splice (splice (splice (splice m o (four p)) (o + 4) (four (length text))) (o + 4 + 4) (four 1))
      p text

pub length-four : (n : ℕ) → length (four n) ≡ 4
length-four n = length-put_little_endian 4 (n % 2 ^ 32)

pub length-entry : (m : Bytes) (o p : ℕ) (text : Bytes) → length (entry m o p text) ≡ length m
length-entry m o p text =
    length-splice _ p text
    ∙ length-splice _ (o + 4 + 4) (four 1)
    ∙ length-splice _ (o + 4) (four (length text))
    ∙ length-splice m o (four p)

-- A range that meets neither the entry nor the bytes.
pub entry_other :
    (m : Bytes) (o p : ℕ) (text : Bytes) (q n : ℕ)
    → q + n ≤ p
    → (q + n ≤ o) ⊎ (o + 12 ≤ q)
    → slice (entry m o p text) q n ≡ slice m q n
entry_other m o p text q n below (inl h) =
    slice-splice_before _ p text q n below
    ∙ slice-splice_before _ (o + 4 + 4) (four 1) q n (omega (arith, h))
    ∙ slice-splice_before _ (o + 4) (four (length text)) q n (omega (arith, h))
    ∙ slice-splice_before m o (four p) q n h
entry_other m o p text q n below (inr h) =
    slice-splice_before _ p text q n below
    ∙ slice-splice_after _ (o + 4 + 4) (four 1) q n (omega (arith, h, length-four 1))
    ∙ slice-splice_after _ (o + 4) (four (length text)) q n
        (omega (arith, h, length-four (length text)))
    ∙ slice-splice_after m o (four p) q n (omega (arith, h, length-four p))

pub four_there : (m : Bytes) (o x : ℕ) → o + 4 ≤ length m → slice (splice m o (four x)) o 4 ≡ four x
four_there m o x =
    subst (λ (n : ℕ). o + n ≤ length m → slice (splice m o (four x)) o n ≡ four x) (length-four x)
      (slice-splice_self m o (four x))

pub entry-Pointed :
    (base size offset : ℕ) (m : Bytes) (p : ℕ) (text : Bytes)
    → offset + 12 ≤ size
    → base + size ≤ p
    → p + length text ≤ length m
    → Pointed base size (entry m (base + offset) p text) offset text
entry-Pointed base size offset m p text h above inside = record {
  pointer = p;
  at =
      slice-splice_before _ p text (base + offset) 4 (omega (arith, h, above))
      ∙ slice-splice_before _ (base + offset + 4 + 4) (four 1) (base + offset) 4 (omega arith)
      ∙ slice-splice_before _ (base + offset + 4) (four (length text)) (base + offset) 4
          (omega arith)
      ∙ four_there m (base + offset) p (omega (arith, h, above, inside));
  long =
      slice-splice_before _ p text (base + offset + 4) 4 (omega (arith, h, above))
      ∙ slice-splice_before _ (base + offset + 4 + 4) (four 1) (base + offset + 4) 4 (omega arith)
      ∙ four_there _ (base + offset + 4) (length text)
          (omega (arith, h, above, inside, length-splice m (base + offset) (four p)));
  above = above;
  inside = omega (arith, inside, length-entry m (base + offset) p text);
  there = slice-splice_self _ p text (
      omega (
        arith,
        inside,
        length-splice m (base + offset) (four p),
        length-splice (splice m (base + offset) (four p)) (base + offset + 4) (four (length text)),
        length-splice
            (splice (splice m (base + offset) (four p)) (base + offset + 4) (four (length text)))
            (base + offset + 4 + 4) (four 1),
      ));
}

pub Laid-end : (from size : ℕ) (cs : List Cell) → Laid from size cs → from ≤ size
Laid-end from size [] h = h
Laid-end from size (c ∷ cs) h = omega (arith, h.0, Laid-end (place c + width c) size cs h.1)
