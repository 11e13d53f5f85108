-- ===== src/Node/Rounds.antt =====
-- node/block_syncer.go: run, AddPeer and appendStatusMsg, in which a node that joins spreads its requests over its
-- peers. The requests that a round starts, each a routine of its own, are its result.
pub mod Ascending
use go_norn.Prelude.{
  ℕ, ◌+◌, ◌-◌, Bool, true, false, ◌||◌, Option, none, some, List, [], ◌∷◌, ◌++◌, ltb, ◌==◌, length,
  if◌then◌else◌,
}
use go_norn.Prelude.Int64.{Int64, int}
use go_norn.Prelude.Outcome.{Outcome, done, blocked}
use go_norn.BlockSync.{BlockSyncer, requested_at, request_block_interval, select_block_height}
use go_norn.Node.{NodeEnv, Peer, SyncStatusMsg, push}

-- The peers of a BlockSyncer, each with its id, the times in peerReqTime, and the queue of status messages.
pub record PeerSet (env : NodeEnv) : Type 0 where
  pub peer_set : List (ℕ × Peer env)
  pub peer_req_time : ℕ → Option ℕ
  pub status_msg : List SyncStatusMsg

-- maxSyncerStatusChannel
abbrev pub max_syncer_status_channel : ℕ
max_syncer_status_channel = 512

module _ {env : NodeEnv} where
  -- AddPeer
  unfoldable pub add_peer : PeerSet env → ℕ → Peer env → PeerSet env
  add_peer peers id p = record peers {
    peer_set = peers.peer_set ++ (id, p) ∷ [];
    peer_req_time = λ k. if k == id then some 0 else peers.peer_req_time k;
  }

  queue_status : PeerSet env → Outcome (List SyncStatusMsg) → Outcome (PeerSet env)
  queue_status peers (done queue) = done (record peers { status_msg = queue })
  queue_status peers _ = blocked

  -- appendStatusMsg
  unfoldable pub append_status_msg : PeerSet env → SyncStatusMsg → Outcome (PeerSet env)
  unfolding queue_status
  append_status_msg peers msg =
      queue_status peers (push max_syncer_status_channel peers.status_msg msg)

-- A request that is started: the height, and the id of the peer that it goes to.
abbrev pub Request : Type 0
Request = Int64 × ℕ

-- What a part of a round leaves: the syncer, the peers that are kept and the requests.
pub record Round (env : NodeEnv) : Type 0 where
  pub syncer : BlockSyncer
  pub kept : List (ℕ × Peer env)
  pub requests : List Request

module _ {env : NodeEnv} (now : ℕ) (peer_req_time : ℕ → Option ℕ) where
  -- A peer is asked for the height that is selected, and marked.
  unfoldable pub ask : ℕ × Peer env → BlockSyncer × Option Int64 → Round env
  ask p (bs, none) = record { syncer = bs; kept = p ∷ []; requests = [] }
  ask p (bs, some height) =
      if ltb height (int 0) then record { syncer = bs; kept = p ∷ []; requests = [] } else record {
        syncer = bs;
        kept = (p.0, record p.1 { mark_synced = true }) ∷ [];
        requests = (height, p.0) ∷ [];
      }

  -- Whether the peer has a request that is not answered, or was asked a moment ago.
  abbrev pub is_busy : ℕ × Peer env → Bool
  is_busy p =
      p.1.mark_synced || ltb (now - requested_at (peer_req_time (p.0))) request_block_interval

  unfoldable pub visit_peer : BlockSyncer → ℕ × Peer env → Round env
  unfolding ask select_block_height
  visit_peer bs p =
      if p.1.connection.stopped
      then record { syncer = bs; kept = []; requests = [] }
      else if is_busy p
      then record { syncer = bs; kept = p ∷ []; requests = [] }
      else ask p (select_block_height now bs)

  unfoldable pub run_loop : BlockSyncer → List (ℕ × Peer env) → Round env
  unfolding visit_peer
  run_loop bs [] = record { syncer = bs; kept = []; requests = [] }
  run_loop bs (p ∷ ps) =
      let first = visit_peer bs p in
      let rest = run_loop first.syncer ps in
      record {
        syncer = rest.syncer;
        kept = first.kept ++ rest.kept;
        requests = first.requests ++ rest.requests;
      }

-- run, for one tick: the peers that have stopped are dropped.
unfoldable pub run_tick :
    {env : NodeEnv} → ℕ → BlockSyncer → PeerSet env → BlockSyncer × PeerSet env × List Request
unfolding run_loop
run_tick now bs peers =
    let round = run_loop now peers.peer_req_time bs peers.peer_set in
    (round.syncer, record peers { peer_set = round.kept }, round.requests)
