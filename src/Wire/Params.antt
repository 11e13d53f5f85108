-- ===== src/Wire/Params.antt =====
-- common/common_km.go: DataCommand, GenesisParams and GeneralParams as bytes.
use go_norn.Prelude.{ℕ, ◌+◌, ◌<◌, ◌≡◌, refl, arith, Option, some, List, [], ◌∷◌, length, ◌^◌}
use go_norn.Prelude.Int64.{InRange}
use go_norn.Prelude.Bytes.{Bytes}
use go_norn.Prelude.LittleEndian.{length-put_little_endian}
use go_norn.Common.{DataCommand, GenesisParams, GeneralParams}
use go_norn.Wire.{
  Runtime, Cell, fixed, slice_of, int64_bytes, write_as_root, new_viewer, view_fixed, view_slice,
  copy_array, int64_of,
}
use go_norn.Wire.Fields.{array_back, int64_back, read-write}

-- DataCommand.Write: the fields; the table has 48 bytes, of which 40 are used.
unfoldable pub data_command_cells : DataCommand → List Cell
data_command_cells x = slice_of 4 x.opt ∷ slice_of 16 x.key ∷ slice_of 28 x.value ∷ []

unfoldable pub genesis_params_cells : GenesisParams → List Cell
genesis_params_cells x =
    fixed 4 x.order
    ∷ fixed 132 (int64_bytes x.time_param)
    ∷ fixed 140 x.seed
    ∷ fixed 172 x.verify_param
    ∷ []

unfoldable pub general_params_cells : GeneralParams → List Cell
general_params_cells x =
    slice_of 4 x.result
    ∷ slice_of 16 x.proof
    ∷ fixed 28 x.random_number
    ∷ slice_of 61 x.s
    ∷ slice_of 73 x.t
    ∷ []

module _ (k : Runtime) where
  -- WriteAsRoot
  unfoldable pub write_data_command : DataCommand → Option Bytes
  unfolding data_command_cells write_as_root
  write_data_command x = write_as_root k 48 40 (data_command_cells x)

  unfoldable pub write_genesis_params : GenesisParams → Option Bytes
  unfolding genesis_params_cells write_as_root
  write_genesis_params x = write_as_root k 208 204 (genesis_params_cells x)

  unfoldable pub write_general_params : GeneralParams → Option Bytes
  unfolding general_params_cells write_as_root
  write_general_params x = write_as_root k 88 85 (general_params_cells x)

  -- The accessors of the viewers.
  unfoldable pub view_data_command : Bytes → Option ℕ → DataCommand
  view_data_command m v = record {
    opt = view_slice k m v 4;
    key = view_slice k m v 16;
    value = view_slice k m v 28;
  }

  unfoldable pub view_genesis_params : Bytes → Option ℕ → GenesisParams
  view_genesis_params m v = record {
    order = view_fixed k m v 4 128;
    time_param = int64_of (view_fixed k m v 132 8);
    seed = view_fixed k m v 140 32;
    verify_param = view_fixed k m v 172 32;
  }

  unfoldable pub view_general_params : Bytes → Option ℕ → GeneralParams
  view_general_params m v = record {
    result = view_slice k m v 4;
    proof = view_slice k m v 16;
    random_number = view_fixed k m v 28 33;
    s = view_slice k m v 61;
    t = view_slice k m v 73;
  }

  -- Read; a slice of the struct becomes the accessor's, an array takes its bytes.
  unfoldable pub read_data_command : Bytes → Option ℕ → DataCommand
  unfolding view_data_command
  read_data_command m v = view_data_command m v

  unfoldable pub read_genesis_params : Bytes → Option ℕ → GenesisParams
  unfolding view_genesis_params
  read_genesis_params m v =
      let seen = view_genesis_params m v in
      record {
        order = copy_array 128 seen.order;
        time_param = seen.time_param;
        seed = copy_array 32 seen.seed;
        verify_param = copy_array 32 seen.verify_param;
      }

  unfoldable pub read_general_params : Bytes → Option ℕ → GeneralParams
  unfolding view_general_params
  read_general_params m v =
      let seen = view_general_params m v in
      record {
        result = seen.result;
        proof = seen.proof;
        random_number = copy_array 33 seen.random_number;
        s = seen.s;
        t = seen.t;
      }

  -- A command is read back from the bytes that WriteAsRoot makes of it on a new writer, if these are fewer
  -- than 2 ^ 32; writing has no error.
  pub read-write_data_command :
      (x : DataCommand)
      → 48 + (length x.opt + (length x.key + length x.value)) < 2 ^ 32
      → (m : Bytes) × (write_data_command x ≡ some m) × (read_data_command m (new_viewer k m 0) ≡ x)
  unfolding write_data_command read_data_command
  read-write_data_command x small =
      read-write k (λ m v. read_data_command m v) x 48 40 (data_command_cells x) (omega arith)
        (omega arith) (omega arith) (omega (arith, small))
        (λ m seen. rw ((seen.0), (seen.1.0), (seen.1.1.0)) refl)

  pub read-write_general_params :
      (x : GeneralParams)
      → length x.random_number ≡ 33
      → 88 + (length x.result + (length x.proof + (length x.s + length x.t))) < 2 ^ 32
      → (m : Bytes) × (write_general_params x ≡ some m)
        × (read_general_params m (new_viewer k m 0) ≡ x)
  unfolding write_general_params read_general_params
  read-write_general_params x own small =
      read-write k (λ m v. read_general_params m v) x 88 85 (general_params_cells x)
        (omega (arith, own)) (omega arith) (omega arith) (omega (arith, small))
        (λ m seen.
          rw
            (
              (seen.0),
              (seen.1.0),
              array_back k m (some 0) 28 33 x.random_number own (seen.1.1.0),
              (seen.1.1.1.0),
              (seen.1.1.1.1.0),
            )
            refl)

  pub read-write_genesis_params :
      (x : GenesisParams)
      → length x.order ≡ 128
      → length x.seed ≡ 32
      → length x.verify_param ≡ 32
      → InRange x.time_param
      → (m : Bytes) × (write_genesis_params x ≡ some m)
        × (read_genesis_params m (new_viewer k m 0) ≡ x)
  unfolding write_genesis_params read_genesis_params
  read-write_genesis_params x o s p t =
      read-write k (λ m v. read_genesis_params m v) x 208 204 (genesis_params_cells x)
        (omega (arith, o, s, p, length-put_little_endian)) (omega arith) (omega arith) (omega arith)
        (λ m seen.
          rw
            (
              array_back k m (some 0) 4 128 x.order o (seen.0),
              int64_back k m (some 0) 132 x.time_param t (seen.1.0),
              array_back k m (some 0) 140 32 x.seed s (seen.1.1.0),
              array_back k m (some 0) 172 32 x.verify_param p (seen.1.1.1.0),
            )
            refl)
