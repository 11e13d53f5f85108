-- ===== src/Buffer/Handlers.antt =====
-- The two routines of core/buffer.go: Process, which takes a block as it arrives, and secondProcess,
-- which takes up again the blocks whose predecessor was missing.
pub mod Validity
pub mod View
pub mod Confirmation
pub mod Gapless
pub mod Selection
pub mod Admission
pub mod Faults
mod Examples
use go_norn.Prelude.{
  ℕ, Bool, true, false, not, ◌&&◌, ◌||◌, Option, none, some, List, [], ◌∷◌, ◌++◌, ltb, leb,
  if◌then◌else◌, length, is_some,
}
use go_norn.Prelude.Int64.{Int64, int, sub64}
use go_norn.Prelude.Bytes.{Bytes, bytes_eq}
use go_norn.Prelude.Outcome.{Outcome, done, panicked, blocked, diverged, ◌>>=◌}
use go_norn.Prelude.Lru.{Lru, contains}
use go_norn.Prelude.Maps.{update}
use go_norn.Common.{Block, GeneralParams, block_hash, prev_block_hash, set_bytes}
use go_norn.Calculator.{Calculator, verify_block_vdf, append_new_seed}
use go_norn.Buffer.{
  Env, BlockBuffer, max_queue_block, max_buffer_size, compare_block, update_tree_view,
  pop_selected_block,
}

-- The buffer with the one calculator of the program, which it verifies against.
pub record State (env : Env) : Type 0 where
  pub buffer : BlockBuffer env
  pub calculator : Calculator

-- The block for its height, and whether that is the new one.
unfoldable pub choose_block : Option Block → Block → Block × Bool
unfolding compare_block
choose_block none block = (block, true)
choose_block (some selected) block = compare_block selected block

module _ {env : Env} where
  -- The predecessor is neither the latest block nor the block selected below.
  unfoldable pub is_orphan : BlockBuffer env → Block → Bool
  is_orphan b block =
      let prev = prev_block_hash block in
      let below = b.selected_block (sub64 block.header.height (int 1)) in
      not (bytes_eq prev (block_hash b.latest_block))
      && elim below [ none ↦ true | some parent ↦ not (bytes_eq prev (block_hash parent)) ]

  pub mark_processed : BlockBuffer env → Block → BlockBuffer env
  mark_processed b block = record b {
    processed_blocks = env.lru.add b.processed_blocks (block_hash block) tt;
  }

  -- What happens to an orphan: it waits in the second queue, unless its predecessor has been
  -- processed and lost. A send to the full queue blocks, under the lock.
  unfoldable pub postpone : BlockBuffer env → Block → Outcome (BlockBuffer env)
  unfolding mark_processed
  postpone b block =
      if contains env.lru b.processed_blocks (prev_block_hash block)
      then done (mark_processed b block)
      else if ltb (length b.second_chan) max_queue_block
      then done (record b { second_chan = b.second_chan ++ block ∷ [] })
      else blocked

  pub emit : BlockBuffer env → Outcome (BlockBuffer env)
  unfolding pop_selected_block
  emit b = do
    (block, b') ← pop_selected_block b
    done (record b' { pop_chan = b'.pop_chan ++ block ∷ []; buffer_full = true })

  -- A block that passed the verification enters the view.
  unfoldable pub enter_view : BlockBuffer env → Block → Outcome (BlockBuffer env)
  unfolding choose_block update_tree_view emit
  enter_view b block = do
    let height = block.header.height
    let choice = choose_block (b.selected_block height) block
    let chosen = record b { selected_block = update b.selected_block height (some choice.0) }
    viewed ← if choice.1 then update_tree_view chosen height else done chosen
    if ltb (int max_buffer_size) (sub64 height viewed.latest_block_height)
        then emit viewed
        else done viewed

  -- A block whose predecessor is in view: its VDF is verified, and it enters the view.
  unfoldable pub accept : State env → Block → Outcome (State env)
  unfolding enter_view
  accept st block =
      let params = env.deserialize_general_params block.header.params in
      let seed = set_bytes 0 params.result in
      let proof = set_bytes 0 params.proof in
      if not (verify_block_vdf st.calculator seed proof) then done st else (do
        buffer ← enter_view st.buffer block
        done (record { buffer = buffer; calculator = append_new_seed st.calculator seed proof }))

  -- What both routines do once they hold the lock.
  unfoldable pub locked : State env → Block → Outcome (State env)
  unfolding is_orphan postpone accept mark_processed
  locked st block =
      if is_orphan st.buffer block
      then (do buffer ← postpone st.buffer block; done (record st { buffer = buffer }))
      else accept (record st { buffer = mark_processed st.buffer block }) block

  pub mark_known : State env → Block → State env
  mark_known st block = record st {
    buffer = record st.buffer {
      known_blocks = env.lru.add st.buffer.known_blocks (block_hash block) tt;
    };
  }

  -- Process, for one block from blockChan.
  unfoldable pub process : State env → Block → Outcome (State env)
  unfolding locked mark_known
  process st block =
      if leb block.header.height st.buffer.latest_block_height
      then done st
      else if contains env.lru st.buffer.known_blocks (block_hash block)
      then done st
      else locked (mark_known st block) block

  -- secondProcess, for one block from secondChan.
  unfoldable pub second_process : State env → Block → Outcome (State env)
  unfolding locked
  second_process st block =
      if leb block.header.height st.buffer.latest_block_height then done st else locked st block

  -- A tick of secondProcess: with nothing in the queue the routine waits.
  pub second_receive : State env → List Block → Outcome (State env)
  unfolding second_process
  second_receive st [] = done st
  second_receive st (block ∷ rest) =
      second_process (record st { buffer = record st.buffer { second_chan = rest } }) block

-- What the buffer reacts to.
pub data Event : Type 0 where
  arrives : Block → Event
  ticks : Event

module _ {env : Env} where
  unfoldable pub step : State env → Event → Outcome (State env)
  unfolding process second_receive
  step st (arrives block) = process st block
  step st ticks = second_receive st st.buffer.second_chan

  unfoldable pub run : State env → List Event → Outcome (State env)
  unfolding step
  run st [] = done st
  run st (e ∷ es) = do st' ← step st e; run st' es
