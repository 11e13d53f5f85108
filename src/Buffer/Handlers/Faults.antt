-- ===== src/Buffer/Handlers/Faults.antt =====
-- Blocks that stop the node: the height that a block claims is never compared with that of its
-- predecessor.
use go_norn.Prelude.{
  ℕ, zero, suc, ◌+◌, ◌≤◌, ◌<◌, ◌≡◌, refl, true, false, Option, none, some, arith, ltb, ◌==◌,
  lt→leb_false, lt→ltb,
}
use go_norn.Prelude.Int64.{Int64, int, add64, sub64, modulus, half}
use go_norn.Prelude.Bytes.{bytes_eq, bytes_eq_refl}
use go_norn.Prelude.Outcome.{done, panicked, diverged, ◌>>=◌}
use go_norn.Prelude.Lru.{contains}
use go_norn.Prelude.Maps.{update}
use go_norn.Common.{Block, block_hash, prev_block_hash, set_bytes}
use go_norn.Calculator.{append_new_seed}
use go_norn.Buffer.{Env, BlockBuffer, max_buffer_size, update_loop, pop_selected_block, confirm}
use go_norn.Buffer.Handlers.{
  State, is_orphan, mark_processed, mark_known, choose_block, emit, enter_view, accept, locked,
  process,
}
use go_norn.Buffer.Handlers.Validity.{update_tree_view_lem, update_tree_view-greatest}
use go_norn.Buffer.Handlers.Admission.{VdfOk}

module _ {env : Env} where
  -- A new block on top of the latest one by its hash, with a verified VDF, at a height of its own
  -- choosing above the latest one.
  pub record Claims (st : State env) (block : Block) : Type 0 where
    pub above : st.buffer.latest_block_height < block.header.height
    pub in_range : block.header.height < modulus
    pub fresh : contains env.lru st.buffer.known_blocks (block_hash block) ≡ false
    pub on_latest : prev_block_hash block ≡ block_hash st.buffer.latest_block
    pub vdf : VdfOk st block
    pub free : st.buffer.selected_block block.header.height ≡ none

  -- Such a block enters the view, whatever its height.
  process-Claims :
      (st : State env) (block : Block)
      → Claims st block
      → process st block ≡ (
          enter_view (mark_processed (mark_known st block).buffer block) block >>= λ b.
          done (record {
            buffer = b;
            calculator =
                append_new_seed st.calculator
                  (set_bytes 0 (env.deserialize_general_params block.header.params).result)
                  (set_bytes 0 (env.deserialize_general_params block.header.params).proof);
          }))
  unfolding process locked is_orphan accept
  process-Claims st block c =
      let low = lt→leb_false block.header.height st.buffer.latest_block_height c.above in
      let child : bytes_eq (prev_block_hash block) (block_hash st.buffer.latest_block) ≡ true =
        rw c.on_latest (bytes_eq_refl (block_hash st.buffer.latest_block)) in
      rw (low, c.fresh, child, c.vdf)

  -- With nothing selected at the next height to confirm, a height too far above panics.
  enter_view-panics :
      (b : BlockBuffer env) (block : Block)
      → block.header.height + 1 < modulus
      → b.selected_block block.header.height ≡ none
      → b.latest_block_height + 1 < block.header.height
      → b.selected_block (b.latest_block_height + 1) ≡ none
      → ltb (int max_buffer_size) (sub64 block.header.height b.latest_block_height) ≡ true
      → enter_view b block ≡ panicked
  unfolding enter_view choose_block emit pop_selected_block confirm
  enter_view-panics b block r free above gap deep =
      let chosen : BlockBuffer env = record b {
        selected_block = update b.selected_block block.header.height (some block);
      } in
      let view = update_tree_view_lem chosen block.header.height r in
      let next : add64 b.latest_block_height (int 1) ≡ b.latest_block_height + 1 = omega arith in
      let not_cleared : (block.header.height + 1 == b.latest_block_height + 1) ≡ false =
        ground arith in
      let not_chosen : (block.header.height == b.latest_block_height + 1) ≡ false = ground arith in
      rw (free, view, deep, next) (rw (not_cleared, not_chosen, gap))

  enter_view-diverges :
      (b : BlockBuffer env) (block : Block)
      → block.header.height + 1 ≡ modulus
      → b.selected_block block.header.height ≡ none
      → enter_view b block ≡ diverged
  unfolding enter_view choose_block
  enter_view-diverges b block r free =
      let chosen : BlockBuffer env = record b {
        selected_block = update b.selected_block block.header.height (some block);
      } in
      rw (free, update_tree_view-greatest chosen block.header.height r)

  -- A block that names the latest block as its predecessor but claims a height more than 12 above it
  -- panics the node, when no block is selected for the height after the latest: the buffer pops that
  -- height and dereferences nil.
  pub process-forged_height :
      (st : State env) (block : Block)
      → Claims st block
      → block.header.height + 1 < modulus
      → st.buffer.latest_block_height + max_buffer_size < block.header.height
      → block.header.height < st.buffer.latest_block_height + half
      → st.buffer.selected_block (st.buffer.latest_block_height + 1) ≡ none
      → process st block ≡ panicked
  unfolding mark_processed mark_known
  process-forged_height st block c r far near gap =
      let deep : ltb (int max_buffer_size) (sub64 block.header.height st.buffer.latest_block_height)
          ≡ true =
        lt→ltb _ _ (omega (arith, c.above, c.in_range)) in
      rw (process-Claims st block c) (
        rw (
          enter_view-panics (mark_processed (mark_known st block).buffer block) block r c.free
            (omega arith) gap deep))

  -- A block of the greatest height that is accepted on the latest one keeps updateTreeView in its
  -- loop, under the lock.
  pub process-greatest_height :
      (st : State env) (block : Block)
      → Claims st block
      → block.header.height + 1 ≡ modulus
      → process st block ≡ diverged
  unfolding mark_processed mark_known
  process-greatest_height st block c r =
      rw (process-Claims st block c) (
        rw (enter_view-diverges (mark_processed (mark_known st block).buffer block) block r c.free))

-- The loop really does not end: no number of rounds gets it to its test.
pub update_loop-never_ends :
    (k : ℕ) (start height : Int64) (m : Int64 → Option Block)
    → start + 1 ≡ modulus
    → height ≤ start
    → update_loop k start height m ≡ diverged
unfolding update_loop
update_loop-never_ends zero start height m r h = refl
update_loop-never_ends (suc k) start height m r h =
    let next = add64 height (int 1) in
    let going : ltb start height ≡ false = ground arith in
    rw going (update_loop-never_ends k start next (update m next none) r (omega arith))
