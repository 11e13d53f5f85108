-- ===== src/Node/Handlers.antt =====
-- node/handler_funcs.go: the handlers of blocks, of requests for blocks and of the status, with what they send.
use go_norn.Prelude.{
  Bool, true, false, not, ◌&&◌, ◌||◌, Option, none, some, ◌==◌, if◌then◌else◌, replicate,
}
use go_norn.Prelude.Int64.{Int64, int, minus}
use go_norn.Prelude.Bytes.{Bytes}
use go_norn.Prelude.Outcome.{Outcome, done, ◌>>=◌}
use go_norn.Prelude.Lru.{contains}
use go_norn.Common.{Block, block_hash}
use go_norn.BlockSync.{append_block}
use go_norn.TimeSync.{is_synced as is_clock_synced}
use go_norn.Chain.{get_block_by_height, get_latest_block, buffered_height}
use go_norn.Peer.{send}
use go_norn.Node.{
  NodeEnv, Peer, Manager, SyncStatusMsg, is_catching_up, is_status_synced, mark_block,
  mark_peer_block, insert_later, append_task, broadcast, verify_block_vrf, parse_block,
  sync_status_msg, sync_get_blocks_msg, sync_blocks_msg, put_height, read_height,
}

abbrev pub not_synced : SyncStatusMsg
not_synced = record {
  latest_height = minus 1;
  latest_hash = replicate 32 0;
  buffered_start_height = int 0;
  buffered_end_height = minus 1;
}

module _ {env : NodeEnv} where
  -- handleNewBlockMsg, from the VRF on.
  unfoldable pub accept_new : Manager env → Block → Bool → Outcome (Manager env)
  accept_new pm block false = done pm
  accept_new pm block true = do pm' ← append_task pm block; broadcast pm' block

  unfoldable pub take_new : Manager env → Block → Outcome (Manager env)
  unfolding verify_block_vrf accept_new
  take_new pm block =
      let verify = do
        verified ← verify_block_vrf env block
        accept_new (mark_block pm block) block verified
      in if block.header.height == int 0
        then done (insert_later (mark_block pm block) block)
        else verify

  -- handleNewBlockMsg, which the table of handlers has no entry for at present.
  unfoldable pub handle_new_block_msg :
      Manager env → Bytes → Peer env → Outcome (Manager env × Peer env)
  unfolding take_new
  handle_new_block_msg pm payload p =
      let block = parse_block env payload in
      let process = do pm' ← take_new pm block; done (pm', mark_peer_block p block)
      in if is_catching_up pm.block_syncer.status
          || contains env.known_lru pm.known_block (block_hash block)
        then done (pm, p)
        else process

  -- handleBlockMsg
  unfoldable pub handle_block_msg :
      Manager env → Bytes → Peer env → Outcome (Manager env × Peer env)
  unfolding verify_block_vrf
  handle_block_msg pm payload p =
      let block = parse_block env payload in
      let marked = mark_block pm block in
      let p' = mark_peer_block p block in
      let verify = do
        verified ← verify_block_vrf env block
        pm' ← if verified then append_task marked block else done marked
        done (pm', p')
      in if not (is_status_synced pm.block_syncer.status)
        then done (pm, p)
        else if block.header.height == int 0
        then done (insert_later marked block, p')
        else verify

  -- Synced, without the start of the broadcast routines.
  abbrev pub synced_both : Manager env → Bool
  synced_both pm = is_status_synced pm.block_syncer.status && is_clock_synced pm.time_syncer.status

  unfoldable pub status_of : Manager env × Option Block → Manager env × SyncStatusMsg
  status_of (pm, none) = (pm, not_synced)
  status_of (pm, some block) = (
    pm,
    if synced_both pm
        then record {
          latest_height = block.header.height;
          latest_hash = block.header.block_hash;
          buffered_start_height = int 0;
          buffered_end_height = buffered_height pm.chain;
        }
        else not_synced,
  )

  -- StatusMessage
  unfoldable pub status_message : Manager env → Outcome (Manager env × SyncStatusMsg)
  unfolding status_of get_latest_block
  status_message pm = do
    (chain, block) ← get_latest_block pm.chain
    done (status_of (record pm { chain = chain }, block))

  -- handleSyncStatusReq, with respondGetSyncStatus
  unfoldable pub handle_sync_status_req : Manager env → Peer env → Outcome (Manager env × Peer env)
  unfolding status_message send
  handle_sync_status_req pm p = do
    (pm', message) ← status_message pm
    connection ← send p.connection sync_status_msg (env.serialize_status_msg message)
    done (pm', record p { connection = connection })

  -- requestSyncGetBlock
  unfoldable pub request_sync_get_block : Int64 → Peer env → Outcome (Peer env)
  unfolding put_height send
  request_sync_get_block height p = do
    connection ← send p.connection sync_get_blocks_msg (put_height height)
    done (record p { connection = connection })

  -- respondSyncGetBlock, if a block was found
  unfoldable pub respond_sync_get_block :
      Manager env → Option Block → Peer env → Outcome (Manager env × Peer env)
  unfolding send
  respond_sync_get_block pm none p = done (pm, p)
  respond_sync_get_block pm (some block) p = do
    connection ← send p.connection sync_blocks_msg (env.chain_env.serialize_block block)
    done (pm, record p { connection = connection })

  -- handleSyncGetBlocksMsg
  unfoldable pub handle_sync_get_blocks_msg :
      Manager env → Bytes → Peer env → Outcome (Manager env × Peer env)
  unfolding respond_sync_get_block read_height get_block_by_height
  handle_sync_get_blocks_msg pm payload p =
      let answer = do
        height ← read_height payload
        (chain, block) ← get_block_by_height pm.chain height
        respond_sync_get_block (record pm { chain = chain }) block p
      in if is_status_synced pm.block_syncer.status then answer else done (pm, p)

  -- handleSyncBlockMsg
  unfoldable pub handle_sync_block_msg : Manager env → Bytes → Peer env → Manager env × Peer env
  handle_sync_block_msg pm payload p = (
    record pm { block_syncer = append_block pm.block_syncer (parse_block env payload) },
    record p { mark_synced = false },
  )
