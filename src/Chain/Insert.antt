-- ===== src/Chain/Insert.antt =====
-- insertBlock, AppendBlockTask, and the start of a chain on a database.
pub mod Growth
pub mod Opening
pub mod Transactions
use go_norn.Prelude.{
  ℕ, zero, suc, ◌+◌, ◌-◌, ◌*◌, ◌≤◌, ◌<◌, ◌≡◌, Bool, true, false, not, ◌&&◌, Option, none, some,
  List, [], ◌∷◌, ◌++◌, ltb, leb, ◌==◌, if◌then◌else◌, length,
}
use go_norn.Prelude.Int64.{Int64, int, minus}
use go_norn.Prelude.Bytes.{Bytes, bytes_eq}
use go_norn.Prelude.Outcome.{Outcome, done, panicked, ◌>>=◌}
use go_norn.Common.{
  Block, Transaction, TransactionBody, DataCommand, GenesisParams, Hash, block_hash,
  is_genesis_block, set_bytes,
}
use go_norn.Buffer.{new_block_buffer}
use go_norn.Calculator.{Calculator, calculator_initialization, append_new_seed}
use go_norn.TxPool.{TxPool, new_tx_pool, remove_tx}
use go_norn.DataProcessor.{DataTask, TaskType, set, append, block_hash2_db_key, tx_hash2_db_key}
use go_norn.Chain.{
  ChainEnv, BlockChain, Db, batch_insert, block_height2_db_key, latest_key, write_block_cache,
  get_block_by_hash, get_block_by_height, get_latest_block,
}

abbrev pub set_command_string : Bytes
set_command_string = b's' ∷ b'e' ∷ b't' ∷ []

abbrev pub append_command_string : Bytes
append_command_string = b'a' ∷ b'p' ∷ b'p' ∷ b'e' ∷ b'n' ∷ b'd' ∷ []

-- The place of a transaction in its block, which insertBlock writes into the copy that it stores.
abbrev pub placed : Block → ℕ → Transaction → Transaction
placed block idx tx = record tx {
  body = record tx.body {
    height = block.header.height;
    block_hash = block.header.block_hash;
    index = int idx;
  };
}

task_of : TaskType → Block → Transaction → DataCommand → DataTask
task_of type block tx dc = record {
  type = type;
  hash = tx.body.hash;
  height = block.header.height;
  address = tx.body.receiver;
  key = dc.key;
  value = dc.value;
}

-- The data task of a transaction, if it carries one; no payload is read as a command without an option.
unfoldable pub command_tasks : Block → Transaction → DataCommand → List DataTask
unfolding task_of bytes_eq
command_tasks block tx dc =
    if bytes_eq dc.opt set_command_string
    then task_of set block tx dc ∷ []
    else if bytes_eq dc.opt append_command_string
    then task_of append block tx dc ∷ []
    else []

-- isPrevBlock
abbrev pub is_prev_block : Block → Block → Bool
is_prev_block prev block = bytes_eq prev.header.block_hash block.header.prev_block_hash

once : Option Calculator → Calculator → Option Calculator
once none c = some c
once (some c) d = some c

seeded : Option Calculator → Bytes → Option Calculator
unfolding append_new_seed
seeded none seed = none
seeded (some c) seed = some (append_new_seed c (set_bytes 0 seed) 0)

module _ (env : ChainEnv) where
  payload_tasks : Block → Transaction → Bytes → List DataTask
  unfolding command_tasks
  payload_tasks block tx [] = []
  payload_tasks block tx (b ∷ bs) = command_tasks block tx (env.deserialize_data_command (b ∷ bs))

  -- The loop over the transactions, from index `idx`: the pool, what is written, and the tasks.
  unfoldable pub insert_txs :
      Block → ℕ → List Transaction → TxPool → TxPool × List (Bytes × Bytes) × List DataTask
  unfolding payload_tasks remove_tx
  insert_txs block idx [] pool = (pool, [], [])
  insert_txs block idx (tx ∷ txs) pool =
      let rest = insert_txs block (idx + 1) txs (remove_tx pool tx.body.hash) in
      (
        rest.0,
        (tx_hash2_db_key tx.body.hash, env.serialize_transaction (placed block idx tx)) ∷ rest.1,
        payload_tasks block tx tx.body.payload ++ rest.2,
      )

  -- What insertBlock writes in one batch.
  abbrev pub entries : Block → List (Bytes × Bytes) → List (Bytes × Bytes)
  entries block txs =
      (block_hash2_db_key block.header.block_hash, env.serialize_block block)
      ∷ (latest_key, block.header.block_hash)
      ∷ (block_height2_db_key block.header.height, block.header.block_hash)
      ∷ txs

module _ {env : ChainEnv} where
  -- createBlockBuffer and genesisInitialization; the calculator is initialised once.
  unfoldable pub create_block_buffer : BlockChain env → Block → BlockChain env
  create_block_buffer bc latest = record bc {
    buffer = some (new_block_buffer env.buffer_env latest);
  }

  unfoldable pub genesis_initialization : BlockChain env → Block → BlockChain env
  unfolding once
  genesis_initialization bc block =
      let params = env.deserialize_genesis_params block.header.params in
      record bc {
        genesis_params = some params;
        genesis_time = block.header.timestamp;
        calculator = once bc.calculator (
            calculator_initialization (set_bytes 0 params.verify_param) (set_bytes 0 params.order)
              params.time_param);
      }

  -- The seed of a block of height 0 goes to the calculator.
  seed_calculator : BlockChain env → Block → BlockChain env
  unfolding seeded
  seed_calculator bc block =
      if block.header.height == int 0
      then record bc {
        calculator = seeded bc.calculator (env.deserialize_genesis_params block.header.params).seed;
      }
      else bc

  -- From the lock of the latest block on.
  unfoldable pub store_block : BlockChain env → Block → BlockChain env
  unfolding insert_txs batch_insert block_height2_db_key seed_calculator
  store_block bc block =
      let r = insert_txs env block 0 block.transactions bc.pool in
      let cached =
        write_block_cache
          (record bc { latest_block = some block; latest_height = block.header.height }) block in
      if leb block.header.height bc.latest_height
      then bc
      else seed_calculator
          (record cached {
            pool = r.0;
            db = batch_insert bc.db (entries env block r.1);
            tasks = bc.tasks ++ r.2;
          })
          block

  -- A block that is not the genesis block has to follow the latest one.
  insert_after : BlockChain env → Option Block → Block → BlockChain env
  unfolding store_block
  insert_after bc none block = bc
  insert_after bc (some latest) block =
      if is_prev_block latest block then store_block bc block else bc

  insert_new : BlockChain env → Option Block → Block → BlockChain env
  unfolding insert_after create_block_buffer genesis_initialization is_genesis_block
  insert_new bc latest block =
      if is_genesis_block block
      then store_block (genesis_initialization (create_block_buffer bc block) block) block
      else insert_after bc latest block

  insert_unknown : BlockChain env → Option Block → Block → Outcome (BlockChain env)
  unfolding get_latest_block insert_new
  insert_unknown bc (some known) block = done bc
  insert_unknown bc none block = do
    (bc', latest) ← get_latest_block bc
    done (insert_new bc' latest block)

  -- insertBlock
  unfoldable pub insert_block : BlockChain env → Block → Outcome (BlockChain env)
  unfolding get_block_by_hash insert_unknown
  insert_block bc block =
      let r = get_block_by_hash bc block.header.block_hash in insert_unknown r.0 r.1 block

  -- BlockProcessRoutine on the blocks that come out of its channel.
  unfoldable pub block_process_routine : BlockChain env → List Block → Outcome (BlockChain env)
  unfolding insert_block
  block_process_routine bc [] = done bc
  block_process_routine bc (block ∷ blocks) = do
    bc' ← insert_block bc block
    block_process_routine bc' blocks

  -- AppendBlockTask; on a chain without a buffer it dereferences nil.
  append_to : BlockChain env → Bool → Block → Outcome (BlockChain env)
  append_to bc true block = done (record bc { block_chan = bc.block_chan ++ block ∷ [] })
  append_to bc false block = panicked

  has_buffer : BlockChain env → Bool
  has_buffer bc = elim bc.buffer [ none ↦ false | some b ↦ true ]

  unfoldable pub append_block_task : BlockChain env → Block → Outcome (BlockChain env)
  unfolding insert_block append_to has_buffer is_genesis_block
  append_block_task bc block =
      if is_genesis_block block then insert_block bc block else append_to bc (has_buffer bc) block

  -- NewBlockchain, up to the reading of the latest block, and whole.
  empty_chain : Db → Option Calculator → TxPool → BlockChain env
  empty_chain db calculator pool = record {
    db = db;
    block_height_map = env.height_lru.new;
    block_cache = env.block_lru.new;
    tx_cache = env.tx_lru.new;
    latest_block = none;
    latest_height = minus 1;
    buffer = none;
    block_chan = [];
    tasks = [];
    genesis_params = none;
    genesis_time = int 0;
    calculator = calculator;
    pool = pool;
  }

  with_genesis : BlockChain env × Option Block → BlockChain env
  unfolding genesis_initialization
  with_genesis (bc, none) = bc
  with_genesis (bc, some genesis) = genesis_initialization bc genesis

  with_latest : BlockChain env × Option Block → Outcome (BlockChain env)
  unfolding get_block_by_height create_block_buffer with_genesis
  with_latest (bc, none) = done bc
  with_latest (bc, some latest) = do
    r ← get_block_by_height (create_block_buffer bc latest) (int 0)
    done (with_genesis r)

  unfoldable pub new_blockchain : Db → Option Calculator → TxPool → Outcome (BlockChain env)
  unfolding empty_chain get_latest_block with_latest
  new_blockchain db calculator pool = do
    r ← get_latest_block (empty_chain db calculator pool)
    with_latest r
