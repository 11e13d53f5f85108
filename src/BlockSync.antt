-- ===== src/BlockSync.antt =====
-- node/block_syncer.go: how a node that joins fetches the blocks it lacks. The routines take the lock for
-- each operation; the time and the height of the chain are arguments. Peers are left out.
pub mod Insertion
pub mod Requests
pub mod Announcements
mod Examples
use go_norn.Prelude.{
  ℕ, zero, suc, ◌+◌, ◌-◌, Bool, true, false, not, ◌&&◌, Option, none, some, List, [], ◌∷◌, ◌++◌,
  ltb, leb, ◌==◌, if◌then◌else◌,
}
use go_norn.Prelude.Int64.{Int64, int, minus, add64}
use go_norn.Prelude.Maps.{update, delete, empty}
use go_norn.Common.{Block}

-- 3 seconds, in milliseconds.
abbrev pub request_block_interval : ℕ
request_block_interval = 3000

pub data Status : Type 0 where
  sync_paused : Status
  block_syncing : Status
  buffer_syncing : Status
  synced : Status

abbrev is_block_syncing : Status → Bool
is_block_syncing sync_paused = false
is_block_syncing block_syncing = true
is_block_syncing buffer_syncing = false
is_block_syncing synced = false

-- `tasks` are the blocks handed to BlockChain.AppendBlockTask; a time is in milliseconds.
pub record BlockSyncer : Type 0 where
  pub remote_height : Int64
  pub target_height : Int64
  pub known_height : Int64
  pub request_timestamp : Int64 → Option ℕ
  pub block_map : Int64 → Option Block
  pub status : Status
  pub tasks : List Block

-- NewBlockSyncer
abbrev pub new_block_syncer : BlockSyncer
new_block_syncer = record {
  remote_height = minus 3;
  target_height = minus 2;
  known_height = minus 1;
  request_timestamp = empty;
  block_map = empty;
  status = sync_paused;
  tasks = [];
}

-- Start and setSynced, without the routines.
abbrev pub start : BlockSyncer → BlockSyncer
start bs = record bs { status = block_syncing }

abbrev pub set_synced : BlockSyncer → BlockSyncer
set_synced bs = record bs { status = synced }

abbrev pub max : Int64 → Int64 → Int64
max h1 h2 = if ltb h2 h1 then h1 else h2

-- statusMsgRoutine, for one message, with the height of the chain.
unfoldable pub process_status_msg :
    BlockSyncer → (latest_height buffered_end_height db_height : Int64) → BlockSyncer
process_status_msg bs height buffer_height db_latest_height =
    let remote = max height bs.remote_height in
    let target =
      if not (buffer_height == minus 1) && is_block_syncing bs.status
      then max buffer_height bs.target_height
      else bs.target_height in
    let status = if remote == bs.known_height then buffer_syncing else bs.status in
    if height == minus 1 then bs else record bs {
      remote_height = remote;
      target_height = target;
      status = if db_latest_height == target then synced else status;
    }

-- appendBlock
abbrev pub append_block : BlockSyncer → Block → BlockSyncer
append_block bs block = record bs {
  block_map = update bs.block_map block.header.height (some block);
}

insert : BlockSyncer → Int64 → Option Block → BlockSyncer
insert bs height none = bs
insert bs height (some block) = record bs {
  tasks = bs.tasks ++ block ∷ [];
  known_height = height;
  request_timestamp = delete bs.request_timestamp height;
  block_map = delete bs.block_map height;
}

-- insertBlock
unfoldable pub insert_block : BlockSyncer → Int64 → BlockSyncer
unfolding insert
insert_block bs height = insert bs height (bs.block_map height)

abbrev pub is_missing : Option Block → Bool
is_missing none = true
is_missing (some block) = false

-- The loop of blockProcessRoutine, with `left` heights to go; it stops at the first that is missing.
unfoldable pub insert_loop : ℕ → Int64 → BlockSyncer → BlockSyncer
unfolding insert_block
insert_loop zero height bs = bs
insert_loop (suc left) height bs =
    let rest = insert_loop left (height + 1) (insert_block bs height) in
    if is_missing (bs.block_map height) then bs else rest

-- blockProcessRoutine, for one tick.
unfoldable pub block_process : BlockSyncer → BlockSyncer
unfolding insert_loop
block_process bs = insert_loop (bs.remote_height - bs.known_height) (bs.known_height + 1) bs

-- The time of a request, 0 if there was none.
abbrev pub requested_at : Option ℕ → ℕ
requested_at none = 0
requested_at (some t) = t

-- Whether a height is asked for at the time `now`.
abbrev pub wanted : ℕ → BlockSyncer → Int64 → Bool
wanted now bs height =
    is_missing (bs.block_map height)
    && ltb request_block_interval (now - requested_at (bs.request_timestamp height))

-- selectBlockHeight: the loop, with `left` heights to go, and the whole; none stands for -1.
unfoldable pub select_loop : ℕ → ℕ → Int64 → BlockSyncer → BlockSyncer × Option Int64
select_loop now zero height bs = (bs, none)
select_loop now (suc left) height bs =
    let seen = requested_at (bs.request_timestamp height) in
    let rest =
      select_loop now left (height + 1)
        (record bs { request_timestamp = update bs.request_timestamp height (some seen) }) in
    if wanted now bs height
    then (
      record bs { request_timestamp = update bs.request_timestamp height (some now) },
      some height,
    )
    else rest

unfoldable pub select_block_height : ℕ → BlockSyncer → BlockSyncer × Option Int64
unfolding select_loop
select_block_height now bs =
    select_loop now (bs.remote_height - bs.known_height) (bs.known_height + 1) bs
