-- ===== src/Node/Dispatch/Times.antt =====
-- node/time_syncer.go over the wire: a request of one node, the answer of another, and what the first makes of it.
use go_norn.Prelude.{◌<◌, ◌≡◌, refl, arith, true, some, [], ◌∷◌, ◌++◌, length, ltb}
use go_norn.Prelude.Int64.{Int64, InRange, int, add64}
use go_norn.Prelude.Bytes.{Bytes}
use go_norn.Prelude.Outcome.{done}
use go_norn.TimeSync.{
  TimeSyncMsg, TimeSyncer, request, handle_time_sync_req, handle_time_sync_rsp,
  process_sync_respond,
}
use go_norn.Peer.{new_message, send, message_queue_cap}
use go_norn.Node.{NodeEnv, Peer}
use go_norn.Wire.{Runtime}
use go_norn.Wire.Clocks.{IsInt8, read-write_time_sync_msg}
use go_norn.Serializer.{serialize_time_sync_msg, deserialize_time_sync_msg}
use go_norn.Node.Dispatch.{
  Desk, time_sync_req, time_sync_rsp, send_time, respond_time_sync, answer_time, take_time,
  dispatch,
}

-- A message of a node's own: its code is 0 and its times are int64s.
record IsTimed (msg : TimeSyncMsg) : Type 0 where
  code : IsInt8 msg.code
  req_time : InRange msg.req_time
  rec_req_time : InRange msg.rec_req_time
  rsp_time : InRange msg.rsp_time
  rec_rsp_time : InRange msg.rec_rsp_time

request-IsTimed : (now : Int64) (ts : TimeSyncer) → IsTimed (request now ts)
request-IsTimed now ts = record {
  code = record { low = omega arith; high = omega arith };
  req_time = omega arith;
  rec_req_time = omega arith;
  rsp_time = omega arith;
  rec_rsp_time = omega arith;
}

handle_time_sync_req-IsTimed :
    (arrival now : Int64) (ts : TimeSyncer) (msg : TimeSyncMsg)
    → IsTimed msg
    → IsTimed (handle_time_sync_req arrival now ts msg)
unfolding handle_time_sync_req
handle_time_sync_req-IsTimed arrival now ts msg h = record {
  code = h.code;
  req_time = h.req_time;
  rec_req_time = omega arith;
  rsp_time = omega arith;
  rec_rsp_time = h.rec_rsp_time;
}

time_back :
    (k : Runtime) (msg : TimeSyncMsg)
    → IsTimed msg
    → (text : Bytes) × (serialize_time_sync_msg k msg ≡ some text)
      × (deserialize_time_sync_msg k text ≡ msg)
unfolding serialize_time_sync_msg deserialize_time_sync_msg
time_back k msg h =
    read-write_time_sync_msg k msg h.code h.req_time h.rec_req_time h.rsp_time h.rec_rsp_time

-- The four readings of the two logical clocks, each the physical time with the node's own difference.
abbrev pub readings : TimeSyncer → TimeSyncer → (start arrival now back : Int64) → TimeSyncMsg
readings asking asked start arrival now back = record {
  code = int 0;
  req_time = add64 start asking.delta;
  rec_req_time = add64 arrival asked.delta;
  rsp_time = add64 now asked.delta;
  rec_rsp_time = add64 back asking.delta;
}

module _ (k : Runtime) {env : NodeEnv} where
  -- A request for the time that a node sends, handed to the other node's handlers, is answered with one message, if its
  -- queue has room; that answer, handed to the handlers of the first node, changes the first node's time syncer as
  -- ProcessSyncRespond does for a message without an error that holds four readings of the logical clocks: the first's on
  -- asking, the other's on arrival and on answering, and the first's on return. Nothing else of the two nodes changes.
  pub dispatch-exchange :
      (d e : Desk env) (p q : Peer env) (start arrival now back later : Int64)
      → length p.connection.send_queue < message_queue_cap
      → (text answer : Bytes) × (serialize_time_sync_msg k (request start d.manager.time_syncer)
          ≡ some text)
        × (dispatch k arrival now e (new_message time_sync_req text) p
            ≡ done (
              e,
              record p {
                connection = record p.connection {
                  send_queue = p.connection.send_queue ++ new_message time_sync_rsp answer ∷ [];
                };
              },
            ))
        × (dispatch k back later d (new_message time_sync_rsp answer) q
            ≡ done (
              record d {
                manager = record d.manager {
                  time_syncer =
                      process_sync_respond d.manager.time_syncer (
                        readings d.manager.time_syncer e.manager.time_syncer start arrival now
                          back);
                };
              },
              q,
            ))
  unfolding dispatch answer_time take_time respond_time_sync send_time send handle_time_sync_req
      handle_time_sync_rsp
  dispatch-exchange d e p q start arrival now back later room =
      let msg = request start d.manager.time_syncer in
      let asked = time_back k msg (request-IsTimed start d.manager.time_syncer) in
      let rsp = handle_time_sync_req arrival now e.manager.time_syncer msg in
      let told = time_back k rsp (
        handle_time_sync_req-IsTimed arrival now e.manager.time_syncer msg
          (request-IsTimed start d.manager.time_syncer)) in
      let open_queue : ltb (length p.connection.send_queue) message_queue_cap ≡ true =
        ground (arith, room) in
      (asked.0, told.0, asked.1, rw asked.2 (rw told.1 (rw open_queue refl)), rw told.2 refl)
