-- ===== src/Wire/Messages.antt =====
-- p2p/message_km.go: Message and SyncStatusMsg as bytes.
use go_norn.Prelude.{ℕ, ◌+◌, ◌<◌, ◌≡◌, refl, arith, Option, some, List, [], ◌∷◌, length, ◌^◌}
use go_norn.Prelude.Int64.{InRange}
use go_norn.Prelude.Bytes.{Bytes}
use go_norn.Prelude.LittleEndian.{put_little_endian, little_endian, length-put_little_endian}
use go_norn.Node.{SyncStatusMsg}
use go_norn.Peer.{Message}
use go_norn.Wire.{
  Runtime, Cell, fixed, slice_of, int64_bytes, write_as_root, new_viewer, view_fixed, view_slice,
  copy_array, int64_of,
}
use go_norn.Wire.Fields.{array_back, int64_back, number_back, read-write}

unfoldable pub sync_status_msg_cells : SyncStatusMsg → List Cell
sync_status_msg_cells x =
    fixed 4 (int64_bytes x.latest_height)
    ∷ fixed 12 x.latest_hash
    ∷ fixed 44 (int64_bytes x.buffered_start_height)
    ∷ fixed 52 (int64_bytes x.buffered_end_height)
    ∷ []

-- The code is one byte and the size four.
unfoldable pub message_cells : Message → List Cell
message_cells x =
    fixed 4 (put_little_endian 1 x.code)
    ∷ fixed 5 (put_little_endian 4 x.size)
    ∷ slice_of 9 x.payload
    ∷ fixed 21 (int64_bytes x.receive_at)
    ∷ []

module _ (k : Runtime) where
  unfoldable pub write_sync_status_msg : SyncStatusMsg → Option Bytes
  unfolding sync_status_msg_cells write_as_root
  write_sync_status_msg x = write_as_root k 64 60 (sync_status_msg_cells x)

  unfoldable pub write_message : Message → Option Bytes
  unfolding message_cells write_as_root
  write_message x = write_as_root k 32 29 (message_cells x)

  -- The accessors of the viewers.
  unfoldable pub view_sync_status_msg : Bytes → Option ℕ → SyncStatusMsg
  view_sync_status_msg m v = record {
    latest_height = int64_of (view_fixed k m v 4 8);
    latest_hash = view_fixed k m v 12 32;
    buffered_start_height = int64_of (view_fixed k m v 44 8);
    buffered_end_height = int64_of (view_fixed k m v 52 8);
  }

  unfoldable pub view_message : Bytes → Option ℕ → Message
  view_message m v = record {
    code = little_endian (view_fixed k m v 4 1);
    size = little_endian (view_fixed k m v 5 4);
    payload = view_slice k m v 9;
    receive_at = int64_of (view_fixed k m v 21 8);
  }

  -- Read
  unfoldable pub read_sync_status_msg : Bytes → Option ℕ → SyncStatusMsg
  unfolding view_sync_status_msg
  read_sync_status_msg m v =
      let seen = view_sync_status_msg m v in
      record seen { latest_hash = copy_array 32 seen.latest_hash }

  unfoldable pub read_message : Bytes → Option ℕ → Message
  unfolding view_message
  read_message m v = view_message m v

  pub read-write_sync_status_msg :
      (x : SyncStatusMsg)
      → length x.latest_hash ≡ 32
      → InRange x.latest_height
      → InRange x.buffered_start_height
      → InRange x.buffered_end_height
      → (m : Bytes) × (write_sync_status_msg x ≡ some m)
        × (read_sync_status_msg m (new_viewer k m 0) ≡ x)
  unfolding write_sync_status_msg read_sync_status_msg
  read-write_sync_status_msg x own h s e =
      read-write k (λ m v. read_sync_status_msg m v) x 64 60 (sync_status_msg_cells x)
        (omega (arith, own, length-put_little_endian)) (omega arith) (omega arith) (omega arith)
        (λ m seen.
          rw
            (
              int64_back k m (some 0) 4 x.latest_height h (seen.0),
              array_back k m (some 0) 12 32 x.latest_hash own (seen.1.0),
              int64_back k m (some 0) 44 x.buffered_start_height s (seen.1.1.0),
              int64_back k m (some 0) 52 x.buffered_end_height e (seen.1.1.1.0),
            )
            refl)

  -- A message with a code of one byte, a size of four and a proper time is read back from the bytes that WriteAsRoot makes of
  -- it on a new writer, if these are fewer than 2 ^ 32; writing has no error.
  pub read-write_message :
      (x : Message)
      → x.code < 256
      → x.size < 2 ^ 32
      → InRange x.receive_at
      → 32 + length x.payload < 2 ^ 32
      → (m : Bytes) × (write_message x ≡ some m) × (read_message m (new_viewer k m 0) ≡ x)
  unfolding write_message read_message
  read-write_message x code size at small =
      read-write k (λ m v. read_message m v) x 32 29 (message_cells x)
        (omega (arith, length-put_little_endian)) (omega arith) (omega arith) (omega (arith, small))
        (λ m seen.
          rw
            (
              number_back k m (some 0) 4 1 x.code (omega (arith, code)) (seen.0),
              number_back k m (some 0) 5 4 x.size (omega (arith, size)) (seen.1.0),
              (seen.1.1.0),
              int64_back k m (some 0) 21 x.receive_at at (seen.1.1.1.0),
            )
            refl)
