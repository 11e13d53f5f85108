-- ===== src/TimeSync.antt =====
-- node/time_syncer.go: the logical clock of a node, brought near the clocks of its peers, with the
-- handlers of node/handler_funcs.go that feed it. Reading the physical clock gives an argument.
pub mod Tolerance
pub mod Progress
pub mod Settling
mod Examples
use go_norn.Prelude.{
  ℕ, ◌+◌, Bool, true, false, not, ◌&&◌, Option, none, some, List, [], ◌∷◌, ltb, ◌==◌, if◌then◌else◌,
}
use go_norn.Prelude.Int64.{Int64, int, half, add64, sub64, neg, quot}

abbrev pub confirm_threshold : ℕ
confirm_threshold = 5

abbrev pub available_threshold : ℕ
available_threshold = 1000

-- p2p.TimeSyncMsg
pub record TimeSyncMsg : Type 0 where
  pub code : Int64
  pub req_time : Int64
  pub rec_req_time : Int64
  pub rsp_time : Int64
  pub rec_rsp_time : Int64

pub data SyncStatus : Type 0 where
  initial : SyncStatus
  synced : SyncStatus
  confirming : SyncStatus

abbrev pub is_initial : SyncStatus → Bool
is_initial initial = true
is_initial synced = false
is_initial confirming = false

abbrev pub is_synced : SyncStatus → Bool
is_synced initial = false
is_synced synced = true
is_synced confirming = false

abbrev pub is_confirming : SyncStatus → Bool
is_confirming initial = false
is_confirming synced = false
is_confirming confirming = true

pub record TimeSyncer : Type 0 where
  pub genesis : Bool
  pub status : SyncStatus
  pub delta : Int64
  pub confirm_times : ℕ

-- NewTimeSyncer
abbrev pub new_time_syncer : Bool → Int64 → TimeSyncer
new_time_syncer genesis delta = record {
  genesis = genesis;
  status = initial;
  delta = delta;
  confirm_times = 0;
}

-- Start, without the routine that it starts.
abbrev pub start : TimeSyncer → TimeSyncer
start ts = if not ts.genesis then ts else record ts { status = synced }

-- GetLogicClock, at the physical time `now`.
abbrev pub get_logic_clock : Int64 → TimeSyncer → Int64
get_logic_clock now ts = add64 now ts.delta

-- The request that syncRoutine sends.
abbrev pub request : Int64 → TimeSyncer → TimeSyncMsg
request now ts = record {
  code = int 0;
  req_time = get_logic_clock now ts;
  rec_req_time = int 0;
  rsp_time = int 0;
  rec_rsp_time = int 0;
}

-- ProcessSyncRequest: the answer it sends.
abbrev pub process_sync_request : Int64 → TimeSyncer → TimeSyncMsg → TimeSyncMsg
process_sync_request now ts msg = record msg { rsp_time = get_logic_clock now ts }

-- The difference to the peer's clock that a response measures.
abbrev pub measured : TimeSyncMsg → Int64
measured msg =
    add64 (quot (sub64 msg.rsp_time msg.rec_rsp_time) 2)
      (quot (sub64 msg.rec_req_time msg.req_time) 2)

abbrev pub abs : Int64 → Int64
abs x = if ltb x half then neg x else x

-- The adjustment within the tolerance, or the reset.
abbrev pub adjust : Int64 → TimeSyncer → TimeSyncer
adjust d ts =
    if ltb (abs d) (int available_threshold)
    then record ts {
      delta = add64 ts.delta d;
      confirm_times = if is_confirming ts.status then ts.confirm_times + 1 else ts.confirm_times;
    }
    else record ts { confirm_times = 0 }

-- The end of the confirmation.
abbrev pub settle : TimeSyncer → TimeSyncer
settle ts =
    if is_confirming ts.status && (ts.confirm_times == confirm_threshold)
    then record ts { status = synced }
    else ts

-- ProcessSyncRespond
unfoldable pub process_sync_respond : TimeSyncer → TimeSyncMsg → TimeSyncer
process_sync_respond ts msg =
    if not (msg.code == int 0)
    then ts
    else if is_initial ts.status
    then record ts { status = confirming; delta = add64 ts.delta (measured msg) }
    else settle (adjust (measured msg) ts)

-- handleTimeSyncReq and handleTimeSyncRsp, on the message that the generated deserialiser returns; it
-- never returns an error.
unfoldable pub handle_time_sync_req : Int64 → Int64 → TimeSyncer → TimeSyncMsg → TimeSyncMsg
handle_time_sync_req arrival now ts msg =
    process_sync_request now ts (record msg { rec_req_time = get_logic_clock arrival ts })

unfoldable pub handle_time_sync_rsp : Int64 → TimeSyncer → TimeSyncMsg → TimeSyncer
unfolding process_sync_respond
handle_time_sync_rsp arrival ts msg =
    process_sync_respond ts (record msg { rec_rsp_time = get_logic_clock arrival ts })

-- The responses that a node processes, one after the other.
unfoldable pub process_all : TimeSyncer → List TimeSyncMsg → TimeSyncer
unfolding process_sync_respond
process_all ts [] = ts
process_all ts (msg ∷ msgs) = process_all (process_sync_respond ts msg) msgs
