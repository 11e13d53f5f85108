-- ===== src/Buffer/Handlers/Validity.antt =====
-- The buffer's view stays well formed, and what it confirms is a gapless run of heights.
use go_norn.Prelude.{
  ℕ, ◌+◌, ◌<◌, ◌≡◌, refl, ap, ◌∙◌, subst, false, Option, none, some, [], ◌∷◌, ◌++◌, arith, All, ltb,
  lt→ltb,
}
use go_norn.Prelude.Int64.{Int64, int, modulus, add64}
use go_norn.Prelude.Outcome.{done, diverged, >>=-eq-done, done-injective}
use go_norn.Prelude.Maps.{update}
use go_norn.Common.{Block, block_hash}
use go_norn.Buffer.{Env, BlockBuffer, update_tree_view, update_loop, pop_selected_block, confirm}
use go_norn.Buffer.Handlers.{emit}

not_ltb_self : (n : ℕ) → ltb n n ≡ false
not_ltb_self n = ground arith

not_ltb_zero : (n : ℕ) → ltb n 0 ≡ false
not_ltb_zero n = ground arith

module _ {env : Env} where
  pub record IsValid (b : BlockBuffer env) : Type 0 where
    pub keyed : (h : Int64) (x : Block) → b.selected_block h ≡ some x → x.header.height ≡ h
    pub latest_height : b.latest_block.header.height ≡ b.latest_block_height
    pub latest_hash : b.latest_block_hash ≡ block_hash b.latest_block
    pub in_range : b.latest_block_height < modulus
    pub queued : All (λ (x : Block). x.header.height < modulus) b.second_chan

  -- The buffer has confirmed nothing, or one block, of the next height.
  pub data Confirms (b c : BlockBuffer env) : Type 0 where
    nothing : c.pop_chan ≡ b.pop_chan → c.latest_block_height ≡ b.latest_block_height → Confirms b c
    next :
        (x : Block)
        → c.pop_chan ≡ b.pop_chan ++ x ∷ []
        → x.header.height ≡ b.latest_block_height + 1
        → c.latest_block_height ≡ b.latest_block_height + 1
        → c.latest_block ≡ x
        → Confirms b c

  -- updateTreeView at a height below the greatest one ends, and clears exactly one height, the next,
  -- whatever blocks are selected above it.
  pub update_tree_view_lem :
      (b : BlockBuffer env) (start : Int64)
      → start + 1 < modulus
      → update_tree_view b start
        ≡ done (record b {
          selected_block = update b.selected_block (start + 1) none;
          buffered_height = start;
        })
  unfolding update_tree_view update_loop
  update_tree_view_lem b start below =
      let e : add64 start (int 1) ≡ start + 1 = omega arith in
      rw e (rw (lt→ltb start (start + 1) (omega arith), not_ltb_self start))

  pub update_tree_view-greatest :
      (b : BlockBuffer env) (start : Int64)
      → start + 1 ≡ modulus
      → update_tree_view b start ≡ diverged
  unfolding update_tree_view update_loop
  update_tree_view-greatest b start top =
      let e : add64 start (int 1) ≡ 0 = omega arith in
      rw e (rw (not_ltb_self start, not_ltb_zero start))

  -- What holds after a block of the next height is confirmed.
  record Confirmed (b : BlockBuffer env) (x : Block) (c : BlockBuffer env) : Type 0 where
    valid : IsValid c
    kept : c.pop_chan ≡ b.pop_chan
    of_height : x.header.height ≡ b.latest_block_height + 1
    moved : c.latest_block_height ≡ b.latest_block_height + 1
    latest : c.latest_block ≡ x

  confirm-Confirmed :
      (b : BlockBuffer env) (h : Int64) (o : Option Block) (x : Block) (c : BlockBuffer env)
      → IsValid b
      → h ≡ b.latest_block_height + 1
      → h < modulus
      → b.selected_block h ≡ o
      → confirm b h o ≡ done (x, c)
      → Confirmed b x c
  unfolding confirm
  confirm-Confirmed b h none x c v e r s q = cc
  confirm-Confirmed b h (some y) x c v e r s q =
      subst (λ (p : Block × BlockBuffer env). Confirmed b p.0 p.1) (done-injective q)
        (record {
          valid = record {
            keyed = λ k z m. v.keyed k z (ground arith);
            latest_height = v.keyed h y s;
            latest_hash = refl;
            in_range = r;
            queued = v.queued;
          };
          kept = refl;
          of_height = v.keyed h y s ∙ e;
          moved = e;
          latest = refl;
        })

  pop_selected_block-Confirmed :
      (b : BlockBuffer env) (x : Block) (c : BlockBuffer env)
      → IsValid b
      → b.latest_block_height + 1 < modulus
      → pop_selected_block b ≡ done (x, c)
      → Confirmed b x c
  unfolding pop_selected_block
  pop_selected_block-Confirmed b x c v h e =
      confirm-Confirmed b _ _ x c v (omega arith) (omega arith) refl e

  -- Validity and progress together, for a part of a handler that goes from one buffer to another.
  pub record Advances (b c : BlockBuffer env) : Type 0 where
    pub valid : IsValid c
    pub confirms : Confirms b c

  pub emit-Advances :
      (b c : BlockBuffer env)
      → IsValid b
      → b.latest_block_height + 1 < modulus
      → emit b ≡ done c
      → Advances b c
  unfolding emit
  emit-Advances b c v r e =
      let ((x, d), popped, rest) = >>=-eq-done (pop_selected_block b) _ e in
      let k = pop_selected_block-Confirmed b x d v r popped in
      subst (λ (q : BlockBuffer env). Advances b q) (done-injective rest)
        (record {
          valid = record {
            keyed = k.valid.keyed;
            latest_height = k.valid.latest_height;
            latest_hash = k.valid.latest_hash;
            in_range = k.valid.in_range;
            queued = k.valid.queued;
          };
          confirms = next x (ap (λ l. l ++ x ∷ []) k.kept) k.of_height k.moved k.latest;
        })
