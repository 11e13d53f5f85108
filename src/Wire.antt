-- ===== src/Wire.antt =====
-- The structs as bytes: what the generated code of common/common_km.go and p2p/message_km.go has in common. Each struct is a
-- table of fields at fixed places, in which a slice is an offset, a size and the number 1; its bytes come after the table. The
-- karmem runtime is a parameter.
pub mod Memory
pub mod Cells
pub mod Writing
pub mod Root
pub mod Fields
pub mod Params
pub mod Headers
pub mod Messages
pub mod Clocks
pub mod Fours
pub mod Nested
pub mod Blocks
pub mod Fixtures
mod Examples
use go_norn.Prelude.{
  ℕ, zero, suc, ◌+◌, ◌≤◌, ◌≡◌, Bool, true, false, ◌&&◌, Option, none, some, List, [], ◌∷◌, ◌++◌,
  ltb, leb, if◌then◌else◌, length, ◌%◌, ◌^◌, take, replicate,
}
use go_norn.Prelude.Int64.{Int64, half, modulus}
use go_norn.Prelude.Bytes.{Bytes}
use go_norn.Prelude.LittleEndian.{put_little_endian, little_endian}
use go_norn.Wire.Memory.{slice, splice}

-- karmem.org/golang: a Writer that grows, whose bytes can be extended and written over; on a Reader, whether a range lies
-- in the memory.
pub record Runtime : Type 1 where
  pub Writer : Type 0
  pub new_writer : Writer
  pub bytes : Writer → Bytes
  pub alloc : Writer → ℕ → Option (ℕ × Writer)
  pub write_at : Writer → ℕ → Bytes → Writer
  pub is_valid_offset : Bytes → ℕ → ℕ → Bool
  pub bytes-new : bytes new_writer ≡ []
  pub alloc-grows :
      (w : Writer) (n : ℕ)
      → (w' : Writer) × (fill : Bytes) × (alloc w n ≡ some (length (bytes w), w'))
        × (bytes w' ≡ bytes w ++ fill)
        × (length fill ≡ n)
  pub write_at-bytes :
      (w : Writer) (offset : ℕ) (text : Bytes)
      → offset + length text ≤ length (bytes w)
      → bytes (write_at w offset text) ≡ splice (bytes w) offset text
  pub is_valid_offset_lem :
      (m : Bytes) (offset n : ℕ) → is_valid_offset m offset n ≡ leb (offset + n) (length m)

-- A field at its place in the table: an array or a number, or a slice.
pub data Cell : Type 0 where
  fixed : ℕ → Bytes → Cell
  slice_of : ℕ → Bytes → Cell

-- An int64 as eight bytes: the bits of its two's complement.
abbrev pub int64_bytes : Int64 → Bytes
int64_bytes a = put_little_endian 8 ((a + half) % modulus)

module _ (k : Runtime) where
  infixl 5 ◌>>=◌
  abbrev ◌>>=◌ {ℓ} : {A B : Type ℓ} → Option A → (A → Option B) → Option B
  none >>= f = none
  some a >>= f = f a

  -- Write4At
  abbrev pub write4_at : k.Writer → ℕ → ℕ → k.Writer
  write4_at w offset n = k.write_at w offset (put_little_endian 4 (n % 2 ^ 32))

  -- What Write does for one field.
  unfoldable pub write_cell : ℕ → k.Writer → Cell → Option k.Writer
  write_cell base w (fixed offset text) = some (k.write_at w (base + offset) text)
  write_cell base w (slice_of offset text) = do
    (pointer, w') ← k.alloc w (length text)
    some (
        k.write_at
          (write4_at
            (write4_at (write4_at w' (base + offset) pointer) (base + offset + 4) (length text))
            (base + offset + 4 + 4) 1)
          pointer text)

  unfoldable pub write_cells : ℕ → k.Writer → List Cell → Option k.Writer
  unfolding write_cell
  write_cells base w [] = some w
  write_cells base w (c ∷ cs) = do w' ← write_cell base w c; write_cells base w' cs

  -- Write at a place that has been allocated: the used size stands first.
  abbrev pub write_table : ℕ → ℕ → k.Writer → List Cell → Option k.Writer
  write_table base size w cells = write_cells base (write4_at w base size) cells

  -- WriteAsRoot on a new writer, and the writer's Bytes: the table is allocated first.
  unfoldable pub write_as_root : ℕ → ℕ → List Cell → Option Bytes
  unfolding write_cells
  write_as_root allocated size cells = do
    (offset, w) ← k.alloc k.new_writer allocated
    w' ← write_table offset size w cells
    some (k.bytes w')

  -- A viewer: the place of the table, or none for the viewer of zeros.
  abbrev pub Viewer : Type 0
  Viewer = Option ℕ

  unfoldable pub viewer_size : Bytes → Option ℕ → ℕ
  viewer_size m none = 0
  viewer_size m (some base) = little_endian (slice m base 4)

  -- New…Viewer
  unfoldable pub new_viewer : Bytes → ℕ → Option ℕ
  unfolding viewer_size
  new_viewer m offset =
      if k.is_valid_offset m offset 8 && k.is_valid_offset m offset (viewer_size m (some offset))
      then some offset
      else none

  -- The accessor of an array or a number of n bytes: empty if the table ends before it.
  unfoldable pub view_fixed : Bytes → Option ℕ → ℕ → ℕ → Bytes
  unfolding viewer_size
  view_fixed m none offset n = []
  view_fixed m (some base) offset n =
      if ltb (viewer_size m (some base)) (offset + n) then [] else slice m (base + offset) n

  -- The accessor of a slice of bytes.
  unfoldable pub view_slice : Bytes → Option ℕ → ℕ → Bytes
  unfolding viewer_size
  view_slice m none offset = []
  view_slice m (some base) offset =
      let pointer = little_endian (slice m (base + offset) 4) in
      let n = little_endian (slice m (base + offset + 4) 4) in
      if ltb (viewer_size m (some base)) (offset + 12)
      then []
      else if k.is_valid_offset m pointer n
      then slice m pointer n
      else []

-- copy into an array of n bytes, with zeros after a text that is shorter.
unfoldable pub copy_array : ℕ → Bytes → Bytes
copy_array n text = take n (text ++ replicate n 0)

-- The number of an accessor's eight bytes, 0 if there are none.
unfoldable pub int64_of : Bytes → Int64
int64_of text = (little_endian text + half) % modulus
