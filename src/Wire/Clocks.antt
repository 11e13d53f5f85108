-- ===== src/Wire/Clocks.antt =====
-- p2p/message_km.go: TimeSyncMsg and BroadcastMessage as bytes.
use go_norn.Prelude.{
  ℕ, ◌+◌, ◌-◌, ◌<◌, ◌≤◌, ◌≡◌, refl, arith, Option, some, List, [], ◌∷◌, length, ◌^◌, ◌%◌, ltb,
  if◌then◌else◌,
}
use go_norn.Prelude.Int64.{Int64, InRange, half, int}
use go_norn.Prelude.Bytes.{Bytes}
use go_norn.Prelude.LittleEndian.{put_little_endian, little_endian, length-put_little_endian}
use go_norn.TimeSync.{TimeSyncMsg}
use go_norn.Wire.{
  Runtime, Cell, fixed, slice_of, int64_bytes, write_as_root, new_viewer, view_fixed, view_slice,
  int64_of,
}
use go_norn.Wire.Fields.{int64_back, number_back, read-write}

-- BroadcastMessage
pub record BroadcastMessage : Type 0 where
  pub id : Bytes
  pub payload : Bytes

-- An int8 as one byte, and back.
unfoldable pub int8_bits : Int64 → ℕ
int8_bits a = (a + half) % 256

unfoldable pub int8_of : ℕ → Int64
int8_of b = if ltb b 128 then int b else half + b - 256

unfoldable pub time_sync_msg_cells : TimeSyncMsg → List Cell
time_sync_msg_cells x =
    fixed 4 (put_little_endian 1 (int8_bits x.code))
    ∷ fixed 5 (int64_bytes x.req_time)
    ∷ fixed 13 (int64_bytes x.rec_req_time)
    ∷ fixed 21 (int64_bytes x.rsp_time)
    ∷ fixed 29 (int64_bytes x.rec_rsp_time)
    ∷ []

unfoldable pub broadcast_message_cells : BroadcastMessage → List Cell
broadcast_message_cells x = slice_of 4 x.id ∷ slice_of 16 x.payload ∷ []

-- An int8: from -128 to 127.
pub record IsInt8 (a : Int64) : Type 0 where
  pub low : half ≤ a + 128
  pub high : a < half + 128

int8_of-bits : (a : Int64) → IsInt8 a → int8_of (int8_bits a) ≡ a
unfolding int8_of int8_bits
int8_of-bits a h = let l = h.low in let u = h.high in ground (arith, l, u)

module _ (k : Runtime) where
  unfoldable pub write_time_sync_msg : TimeSyncMsg → Option Bytes
  unfolding time_sync_msg_cells write_as_root
  write_time_sync_msg x = write_as_root k 40 37 (time_sync_msg_cells x)

  unfoldable pub write_broadcast_message : BroadcastMessage → Option Bytes
  unfolding broadcast_message_cells write_as_root
  write_broadcast_message x = write_as_root k 32 28 (broadcast_message_cells x)

  -- The accessors of the viewers.
  unfoldable pub view_time_sync_msg : Bytes → Option ℕ → TimeSyncMsg
  view_time_sync_msg m v = record {
    code = int8_of (little_endian (view_fixed k m v 4 1));
    req_time = int64_of (view_fixed k m v 5 8);
    rec_req_time = int64_of (view_fixed k m v 13 8);
    rsp_time = int64_of (view_fixed k m v 21 8);
    rec_rsp_time = int64_of (view_fixed k m v 29 8);
  }

  unfoldable pub view_broadcast_message : Bytes → Option ℕ → BroadcastMessage
  view_broadcast_message m v = record { id = view_slice k m v 4; payload = view_slice k m v 16 }

  -- Read
  unfoldable pub read_time_sync_msg : Bytes → Option ℕ → TimeSyncMsg
  unfolding view_time_sync_msg
  read_time_sync_msg m v = view_time_sync_msg m v

  unfoldable pub read_broadcast_message : Bytes → Option ℕ → BroadcastMessage
  unfolding view_broadcast_message
  read_broadcast_message m v = view_broadcast_message m v

  -- A message of the clock whose code is an int8 and whose times are int64s is read back from the bytes that WriteAsRoot
  -- makes of it on a new writer; writing has no error.
  pub read-write_time_sync_msg :
      (x : TimeSyncMsg)
      → IsInt8 x.code
      → InRange x.req_time
      → InRange x.rec_req_time
      → InRange x.rsp_time
      → InRange x.rec_rsp_time
      → (m : Bytes) × (write_time_sync_msg x ≡ some m)
        × (read_time_sync_msg m (new_viewer k m 0) ≡ x)
  unfolding write_time_sync_msg read_time_sync_msg
  read-write_time_sync_msg x code a b c d =
      let bits : int8_bits x.code < 256 ^ 1 = unfold int8_bits in omega arith in
      read-write k (λ m v. read_time_sync_msg m v) x 40 37 (time_sync_msg_cells x)
        (omega (arith, length-put_little_endian)) (omega arith) (omega arith) (omega arith)
        (λ m seen.
          rw
            (
              number_back k m (some 0) 4 1 (int8_bits x.code) bits (seen.0),
              int8_of-bits x.code code,
              int64_back k m (some 0) 5 x.req_time a (seen.1.0),
              int64_back k m (some 0) 13 x.rec_req_time b (seen.1.1.0),
              int64_back k m (some 0) 21 x.rsp_time c (seen.1.1.1.0),
              int64_back k m (some 0) 29 x.rec_rsp_time d (seen.1.1.1.1.0),
            )
            refl)

  -- A broadcast message is read back from the bytes that WriteAsRoot makes of it on a new writer, if these are fewer
  -- than 2 ^ 32; writing has no error.
  pub read-write_broadcast_message :
      (x : BroadcastMessage)
      → 32 + (length x.id + length x.payload) < 2 ^ 32
      → (m : Bytes) × (write_broadcast_message x ≡ some m)
        × (read_broadcast_message m (new_viewer k m 0) ≡ x)
  unfolding write_broadcast_message read_broadcast_message
  read-write_broadcast_message x small =
      read-write k (λ m v. read_broadcast_message m v) x 32 28 (broadcast_message_cells x)
        (omega arith) (omega arith) (omega arith) (omega (arith, small))
        (λ m seen. rw (seen.0, seen.1.0) refl)
