-- ===== src/BlockSync/Examples.antt =====
-- A node that knows no block, with blocks at heights 0 and 1 out of a remote height of 3.
use go_norn.Prelude.{◌≡◌, refl, some, [], ◌∷◌}
use go_norn.Prelude.Int64.{Int64, int, minus}
use go_norn.Common.{Block}
use go_norn.BlockSync.{
  BlockSyncer, new_block_syncer, start, append_block, process_status_msg, block_process,
  select_block_height,
}

abbrev block : Int64 → Block
block height = record {
  header = record {
    timestamp = int 0;
    prev_block_hash = [];
    block_hash = [];
    merkle_root = [];
    height = height;
    public_key = [];
    params = [];
    gas_limit = int 0;
  };
  transactions = [];
}

abbrev announced : BlockSyncer
announced = process_status_msg (start new_block_syncer) (int 3) (int 9) (minus 1)

abbrev filled : BlockSyncer
filled = append_block (append_block announced (block (int 0))) (block (int 1))

inserted : (block_process filled).tasks ≡ block (int 0) ∷ block (int 1) ∷ []
unfolding block_process process_status_msg
inserted = refl

asked_next : (select_block_height 10000 filled).1 ≡ some (int 2)
unfolding select_block_height process_status_msg
asked_next = refl
