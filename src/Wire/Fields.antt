-- ===== src/Wire/Fields.antt =====
-- One field of a struct, written and read.
use go_norn.Prelude.{
  ℕ, ◌+◌, ◌≤◌, ◌<◌, ◌≡◌, refl, sym, ap, ◌∙◌, arith, Option, some, List, [], ◌∷◌, ◌++◌, length, take,
  replicate, ◌%◌, ◌^◌,
}
use go_norn.Prelude.Int64.{Int64, InRange, half, modulus}
use go_norn.Prelude.Bytes.{Bytes}
use go_norn.Prelude.LittleEndian.{
  put_little_endian, little_endian, little_endian-put, length-put_little_endian,
}
use go_norn.Wire.{
  Runtime, Cell, int64_bytes, write_as_root, new_viewer, view_fixed, copy_array, int64_of,
}
use go_norn.Wire.Cells.{Laid, extras}
use go_norn.Wire.Root.{AllViewed, write_as_root-AllViewed}

take_append : (m fill : Bytes) → take (length m) (m ++ fill) ≡ m
take_append [] fill = refl
take_append (b ∷ m) fill = ap (b ∷◌) (take_append m fill)

copy_array-whole : (n : ℕ) (text : Bytes) → length text ≡ n → copy_array n text ≡ text
unfolding copy_array
copy_array-whole n text e =
    ap (λ (l : ℕ). take l (text ++ replicate n 0)) (sym e) ∙ take_append text (replicate n 0)

int64_of-bytes : (a : Int64) → InRange a → int64_of (int64_bytes a) ≡ a
unfolding int64_of
int64_of-bytes a h = omega (arith, h, little_endian-put 8 ((a + half) % modulus) (omega arith))

module _ (k : Runtime) (m : Bytes) (v : Option ℕ) (offset : ℕ) where
  -- An array of n bytes, a number of eight bytes and a number of n bytes.
  pub array_back :
      (n : ℕ) (x : Bytes)
      → length x ≡ n
      → view_fixed k m v offset (length x) ≡ x
      → copy_array n (view_fixed k m v offset n) ≡ x
  array_back n x e h =
      ap (λ (l : ℕ). copy_array n (view_fixed k m v offset l)) (sym e)
      ∙ ap (copy_array n) h
      ∙ copy_array-whole n x e

  pub number_back :
      (n x : ℕ)
      → x < 256 ^ n
      → view_fixed k m v offset (length (put_little_endian n x)) ≡ put_little_endian n x
      → little_endian (view_fixed k m v offset n) ≡ x
  number_back n x small h =
      ap (λ (l : ℕ). little_endian (view_fixed k m v offset l)) (sym (length-put_little_endian n x))
      ∙ ap little_endian h
      ∙ little_endian-put n x small

  pub int64_back :
      (a : Int64)
      → InRange a
      → view_fixed k m v offset (length (int64_bytes a)) ≡ int64_bytes a
      → int64_of (view_fixed k m v offset 8) ≡ a
  int64_back a small h =
      ap (λ (l : ℕ). int64_of (view_fixed k m v offset l))
        (sym (length-put_little_endian 8 ((a + half) % modulus)))
      ∙ ap int64_of h
      ∙ int64_of-bytes a small

-- A struct whose reading follows from what its accessors see is read as it was written.
pub read-write :
    {X : Type 0} (k : Runtime) (read : Bytes → Option ℕ → X) (x : X) (allocated size : ℕ)
    (cs : List Cell)
    → Laid 4 size cs
    → size ≤ allocated
    → 8 ≤ allocated
    → allocated + extras cs < 2 ^ 32
    → ((m : Bytes) → AllViewed k m 0 cs → read m (some 0) ≡ x)
    → (m : Bytes) × (write_as_root k allocated size cs ≡ some m) × (read m (new_viewer k m 0) ≡ x)
read-write k read x allocated size cs laid fits eight small seen =
    let written = write_as_root-AllViewed k allocated size cs laid fits eight small in
    (written.0, written.1, ap (read written.0) written.2 ∙ seen written.0 written.3)
