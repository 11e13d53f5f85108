-- ===== src/Node/Dispatch.antt =====
-- node/peer.go: Peer.Handle takes a message out of the queue and hands it to the handler of its code, with the handlers of
-- node/handler_funcs.go that decode their payload with the generated readers. A handler runs in a routine of its own; here
-- it runs at once. A desk is what the handlers change: the manager and the peers of its block syncer.
pub mod Times
use go_norn.Prelude.{
  ℕ, ◌+◌, Bool, true, false, Option, none, some, List, [], ◌∷◌, ◌==◌, if◌then◌else◌,
}
use go_norn.Prelude.Int64.{Int64}
use go_norn.Prelude.Bytes.{Bytes}
use go_norn.Prelude.Outcome.{Outcome, done, ◌>>=◌}
use go_norn.TimeSync.{TimeSyncMsg, TimeSyncer, request, handle_time_sync_req, handle_time_sync_rsp}
use go_norn.Chain.{height}
use go_norn.Peer.{Message, send}
use go_norn.Node.{
  NodeEnv, Manager, Peer, SyncStatusMsg, put_height, read_height, sync_status_msg,
  sync_get_blocks_msg, sync_blocks_msg,
}
use go_norn.Node.Handlers.{
  handle_block_msg, handle_sync_status_req, handle_sync_get_blocks_msg, handle_sync_block_msg,
}
use go_norn.Node.Rounds.{PeerSet, append_status_msg}
use go_norn.Wire.{Runtime}
use go_norn.Serializer.{serialize_time_sync_msg, deserialize_time_sync_msg, deserialize_status_msg}

-- StatusCodeStatusMsg, StatusCodeBlockBodiesMsg, StatusCodeSyncStatusReq, StatusCodeTimeSyncReq and StatusCodeTimeSyncRsp
abbrev pub status_msg : ℕ
status_msg = 2

abbrev pub block_bodies_msg : ℕ
block_bodies_msg = 8

abbrev pub sync_status_req : ℕ
sync_status_req = 17

abbrev pub time_sync_req : ℕ
time_sync_req = 23

abbrev pub time_sync_rsp : ℕ
time_sync_rsp = 24

-- The manager and the peers of its block syncer.
pub record Desk (env : NodeEnv) : Type 0 where
  pub manager : Manager env
  pub peers : PeerSet env

module _ (k : Runtime) {env : NodeEnv} where
  -- The send of a message of the clock, which a failure of the encoder prevents.
  send_time : ℕ → Option Bytes → Peer env → Outcome (Peer env)
  unfolding send
  send_time code none p = done p
  send_time code (some text) p = do
    connection ← send p.connection code text
    done (record p { connection = connection })

  -- requestTimeSync and respondTimeSync
  unfoldable pub request_time_sync : TimeSyncMsg → Peer env → Outcome (Peer env)
  unfolding send_time serialize_time_sync_msg
  request_time_sync msg p = send_time time_sync_req (serialize_time_sync_msg k msg) p

  unfoldable pub respond_time_sync : TimeSyncMsg → Peer env → Outcome (Peer env)
  unfolding send_time serialize_time_sync_msg
  respond_time_sync msg p = send_time time_sync_rsp (serialize_time_sync_msg k msg) p

  -- handleTimeSyncReq: the clock is read on arrival and again for the answer.
  unfoldable pub answer_time : Int64 → Int64 → Manager env → Bytes → Peer env → Outcome (Peer env)
  unfolding handle_time_sync_req respond_time_sync
  answer_time arrival now pm payload p =
      respond_time_sync
        (handle_time_sync_req arrival now pm.time_syncer (deserialize_time_sync_msg k payload)) p

  -- handleTimeSyncRsp
  unfoldable pub take_time : Int64 → Manager env → Bytes → Manager env
  unfolding handle_time_sync_rsp
  take_time arrival pm payload = record pm {
    time_syncer = handle_time_sync_rsp arrival pm.time_syncer (deserialize_time_sync_msg k payload);
  }

  -- handleStatusMsg, which reads a height and logs it.
  handle_status_msg : Desk env → Bytes → Peer env → Outcome (Desk env × Peer env)
  unfolding read_height
  handle_status_msg d payload p = do h ← read_height payload; done (d, p)

  -- handleSyncStatusMsg
  unfoldable pub handle_sync_status_msg : PeerSet env → Bytes → Outcome (PeerSet env)
  unfolding append_status_msg deserialize_status_msg
  handle_sync_status_msg peers payload = append_status_msg peers (deserialize_status_msg k payload)

  on_manager : PeerSet env → Outcome (Manager env × Peer env) → Outcome (Desk env × Peer env)
  on_manager peers o = do (pm, p) ← o; done (record { manager = pm; peers = peers }, p)

  -- handlerMap: the handler of a code, if it has one.
  unfoldable pub dispatch :
      Int64 → Int64 → Desk env → Message → Peer env → Outcome (Desk env × Peer env)
  unfolding on_manager handle_status_msg handle_block_msg handle_sync_status_req
      handle_sync_status_msg handle_sync_get_blocks_msg handle_sync_block_msg answer_time take_time
  dispatch arrival now d msg p =
      let pm = d.manager in
      let queue_status = do
        peers ← handle_sync_status_msg d.peers msg.payload
        done (record d { peers = peers }, p)
      in let answer = do p' ← answer_time arrival now pm msg.payload p; done (d, p')
        in if msg.code == status_msg
          then handle_status_msg d msg.payload p
          else if msg.code == block_bodies_msg
          then on_manager d.peers (handle_block_msg pm msg.payload p)
          else if msg.code == sync_status_req
          then on_manager d.peers (handle_sync_status_req pm p)
          else if msg.code == sync_status_msg
          then queue_status
          else if msg.code == sync_get_blocks_msg
          then on_manager d.peers (handle_sync_get_blocks_msg pm msg.payload p)
          else if msg.code == sync_blocks_msg
          then on_manager d.peers (done (handle_sync_block_msg pm msg.payload p))
          else if msg.code == time_sync_req
          then answer
          else if msg.code == time_sync_rsp
          then done (record d { manager = take_time arrival pm msg.payload }, p)
          else done (d, p)

  take_message : Int64 → Int64 → Desk env → Peer env → List Message → Outcome (Desk env × Peer env)
  unfolding dispatch
  take_message arrival now d p [] = done (d, p)
  take_message arrival now d p (msg ∷ rest) =
      dispatch arrival now d msg
        (record p { connection = record p.connection { msg_queue = rest } })

  -- Handle, for one turn: with an empty queue it waits.
  unfoldable pub handle_turn : Int64 → Int64 → Desk env → Peer env → Outcome (Desk env × Peer env)
  unfolding take_message
  handle_turn arrival now d p =
      let turn = take_message arrival now d p p.connection.msg_queue in
      if p.connection.stopped then done (d, p) else turn

module _ {env : NodeEnv} where
  -- requestSyncStatusMsg, and one tick of sendStatus.
  unfoldable pub request_sync_status_msg : Int64 → Peer env → Outcome (Peer env)
  unfolding send put_height
  request_sync_status_msg h p = do
    connection ← send p.connection sync_status_req (put_height h)
    done (record p { connection = connection })

  unfoldable pub send_status : Manager env → Peer env → Outcome (Peer env)
  unfolding request_sync_status_msg
  send_status pm p = request_sync_status_msg (height pm.chain) p
