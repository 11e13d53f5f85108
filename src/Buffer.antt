-- ===== src/Buffer.antt =====
-- core/buffer.go: the block buffer, a view of the best block at each height above the latest
-- confirmed one. Each handler runs under updateLock, so it is a function of the state.
pub mod Priority
pub mod Leaf
pub mod Handlers
use go_norn.Prelude.{
  ℕ, zero, suc, ◌+◌, ◌-◌, Bool, true, false, not, ◌&&◌, ◌||◌, Option, none, some, List, [], ◌∷◌,
  ◌++◌, ltb, leb, ◌==◌, if◌then◌else◌, length,
}
use go_norn.Prelude.Int64.{Int64, int, add64, sub64}
use go_norn.Prelude.Bytes.{Bytes, bytes_eq}
use go_norn.Prelude.Outcome.{Outcome, done, panicked, blocked, diverged, ◌>>=◌}
use go_norn.Prelude.Lru.{Lru, contains}
use go_norn.Prelude.Maps.{update, delete, empty}
use go_norn.Common.{Block, GeneralParams, block_hash, prev_block_hash}

abbrev pub max_queue_block : ℕ
max_queue_block = 1024

abbrev pub max_buffer_size : ℕ
max_buffer_size = 12

-- What the buffer takes from elsewhere: the LRU caches, and the decoding of a header's parameters, which is
-- deserialize_general_params of Serializer.
pub record Env : Type 1 where
  pub lru : Lru Bytes (Unit {0})
  pub deserialize_general_params : Bytes → GeneralParams

-- blockMark is declared and never used; the locks and channels are taken as the module comment says.
pub record BlockBuffer (env : Env) : Type 0 where
  pub second_chan : List Block
  pub pop_chan : List Block
  pub selected_block : Int64 → Option Block
  pub known_blocks : env.lru.Cache
  pub processed_blocks : env.lru.Cache
  pub latest_block_hash : Bytes
  pub latest_block_height : Int64
  pub latest_block : Block
  pub buffered_height : Int64
  pub buffer_full : Bool

-- NewBlockBuffer; lru.New fails only on a size that is not positive.
unfoldable pub new_block_buffer : (env : Env) → Block → BlockBuffer env
new_block_buffer env latest = record {
  second_chan = [];
  pop_chan = [];
  selected_block = empty;
  known_blocks = env.lru.new;
  processed_blocks = env.lru.new;
  latest_block_hash = block_hash latest;
  latest_block_height = latest.header.height;
  latest_block = latest;
  buffered_height = latest.header.height;
  buffer_full = false;
}

-- compareBlock: the preferred block of the two, and whether it is the second.
unfoldable pub compare_block : Block → Block → Block × Bool
compare_block origin block =
    if not (bytes_eq (prev_block_hash block) (prev_block_hash origin))
    then (origin, false)
    else if length origin.transactions == length block.transactions
    then (if ltb origin.header.timestamp block.header.timestamp
        then (origin, false)
        else (block, true))
    else if ltb (length block.transactions) (length origin.transactions)
    then (origin, false)
    else (block, true)

-- selectBlockFromList: the loop after the first block, and the whole.
select_loop : Block → List Block → Block
unfolding compare_block
select_loop result [] = result
select_loop result (b ∷ bs) = select_loop (compare_block result b).0 bs

unfoldable pub select_block_from_list : List Block → Option Block
unfolding select_loop
select_block_from_list [] = none
select_block_from_list (b ∷ bs) = some (select_loop b bs)

-- The loop of updateTreeView, for a number of rounds: while height does not pass the buffered
-- height, it moves on and clears. `diverged`: the rounds did not suffice.
unfoldable pub update_loop :
    ℕ → Int64 → Int64 → (Int64 → Option Block) → Outcome (Int64 → Option Block)
update_loop zero buffered height m = diverged
update_loop (suc k) buffered height m =
    let next = add64 height (int 1) in
    let rest = update_loop k buffered next (update m next none) in
    if ltb buffered height then done m else rest

-- Two rounds show whether the loop ends.
abbrev pub update_rounds : ℕ
update_rounds = 2

-- The loop of GetPriorityLeaf, with `left` heights above the latest one to look at.
scan_leaf : (Int64 → Option Block) → Int64 → Block → ℕ → Int64 → Block
scan_leaf m now latest zero height = latest
scan_leaf m now latest (suc left) height =
    let rest = scan_leaf m now latest left (height - 1) in
    elim (m height) [ none ↦ rest | some block ↦ if ltb height now then block else rest ]

module _ {env : Env} where
  -- updateTreeView
  unfoldable pub update_tree_view : BlockBuffer env → Int64 → Outcome (BlockBuffer env)
  unfolding update_loop
  update_tree_view b start = do
    m ← update_loop update_rounds start start b.selected_block
    done (record b { selected_block = m; buffered_height = start })

  confirm : BlockBuffer env → Int64 → Option Block → Outcome (Block × BlockBuffer env)
  confirm b height none = panicked
  confirm b height (some selected) = done (
    selected,
    record b {
      latest_block_hash = block_hash selected;
      latest_block_height = height;
      latest_block = selected;
      selected_block = delete b.selected_block (sub64 height (int 1));
    },
  )

  -- PopSelectedBlock; a nil selection is dereferenced.
  unfoldable pub pop_selected_block : BlockBuffer env → Outcome (Block × BlockBuffer env)
  unfolding confirm
  pop_selected_block b =
      let height = add64 b.latest_block_height (int 1) in confirm b height (b.selected_block height)

  -- GetPriorityLeaf
  unfoldable pub get_priority_leaf : BlockBuffer env → Int64 → Block
  unfolding scan_leaf
  get_priority_leaf b now =
      scan_leaf b.selected_block now b.latest_block (b.buffered_height - b.latest_block_height)
        b.buffered_height
