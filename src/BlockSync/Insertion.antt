-- ===== src/BlockSync/Insertion.antt =====
-- What one tick of blockProcessRoutine hands to the chain.
use go_norn.Prelude.{
  ℕ, zero, suc, ◌+◌, ◌-◌, ◌≤◌, ◌<◌, ◌≡◌, refl, sym, ap, ◌∙◌, subst, ◌⊎◌, inl, inr, arith, Option,
  none, some, List, [], ◌∷◌, ◌++◌, length, append-nil, append_assoc, Option-cases, true, false,
}
use go_norn.Prelude.Int64.{Int64}
use go_norn.Prelude.Maps.{delete, update_other}
use go_norn.Common.{Block}
use go_norn.BlockSync.{BlockSyncer, is_missing, insert, insert_block, insert_loop, block_process}

-- The blocks stand in the map from a height on, one above the other.
abbrev pub Run : (Int64 → Option Block) → Int64 → List Block → Type 0
Run m h [] = Unit
Run m h (b ∷ blocks) = (m h ≡ some b) × Run m (h + 1) blocks

Run-delete :
    (m : Int64 → Option Block) (h j : Int64) (blocks : List Block)
    → h < j
    → Run (delete m h) j blocks
    → Run m j blocks
Run-delete m h j [] lt r = tt
Run-delete m h j (b ∷ blocks) lt r = (
  sym (update_other m h j none (λ e. absurd (omega (arith, lt, e)))) ∙ r.0,
  Run-delete m h (j + 1) blocks (omega arith) r.1,
)

-- What a tick with `left` heights to go does.
pub record Progress (bs : BlockSyncer) (left : ℕ) (after : BlockSyncer) : Type 0 where
  pub blocks : List Block
  pub in_bounds : length blocks ≤ left
  pub consecutive : Run bs.block_map (bs.known_height + 1) blocks
  pub handed_on : after.tasks ≡ bs.tasks ++ blocks
  pub known : after.known_height ≡ bs.known_height + length blocks
  pub stopped : (length blocks ≡ left) ⊎ (bs.block_map (bs.known_height + length blocks + 1) ≡ none)

Progress-none :
    (bs : BlockSyncer) (left : ℕ)
    → (0 ≡ left) ⊎ (bs.block_map (bs.known_height + 1) ≡ none)
    → Progress bs left bs
Progress-none bs left why = record {
  blocks = [];
  in_bounds = omega arith;
  consecutive = tt;
  handed_on = sym (append-nil bs.tasks);
  known = omega arith;
  stopped = at_once why;
}
  where
    at_once :
        (0 ≡ left) ⊎ (bs.block_map (bs.known_height + 1) ≡ none)
        → (0 ≡ left) ⊎ (bs.block_map (bs.known_height + 0 + 1) ≡ none)
    at_once (inl e) = inl e
    at_once (inr e) =
        let same : bs.known_height + 0 + 1 ≡ bs.known_height + 1 = omega arith in
        inr (ap bs.block_map same ∙ e)

Progress-step :
    (bs : BlockSyncer) (left : ℕ) (block : Block) (after : BlockSyncer)
    → bs.block_map (bs.known_height + 1) ≡ some block
    → Progress (insert bs (bs.known_height + 1) (some block)) left after
    → Progress bs (suc left) after
unfolding insert
Progress-step bs left block after e p = record {
  blocks = block ∷ p.blocks;
  in_bounds = omega (arith, p.in_bounds);
  consecutive = (
    e,
    Run-delete bs.block_map (bs.known_height + 1) (bs.known_height + 1 + 1) p.blocks (omega arith)
        p.consecutive,
  );
  handed_on = p.handed_on ∙ append_assoc bs.tasks (block ∷ []) p.blocks;
  known = omega (arith, p.known);
  stopped = stopped_later p.stopped;
}
  where
    stopped_later :
        (length p.blocks ≡ left)
          ⊎ (delete bs.block_map (bs.known_height + 1) (bs.known_height + 1 + length p.blocks + 1)
              ≡ none)
        → (suc (length p.blocks) ≡ suc left)
          ⊎ (bs.block_map (bs.known_height + suc (length p.blocks) + 1) ≡ none)
    stopped_later (inl h) = inl (ap suc h)
    stopped_later (inr h) =
        let same : bs.known_height + suc (length p.blocks) + 1
            ≡ bs.known_height + 1 + length p.blocks + 1 =
          omega arith in
        inr (
          ap bs.block_map same
          ∙ sym (
              update_other bs.block_map (bs.known_height + 1)
                (bs.known_height + 1 + length p.blocks + 1) none (λ q. absurd (omega (arith, q))))
          ∙ h)

insert_loop-Progress :
    (left : ℕ) (height : Int64) (bs : BlockSyncer)
    → height ≡ bs.known_height + 1
    → Progress bs left (insert_loop left height bs)
unfolding insert_loop insert_block insert
insert_loop-Progress zero height bs h = Progress-none bs 0 (inl refl)
insert_loop-Progress (suc left) height bs h = elim (Option-cases (bs.block_map height)) [
  | inl missing ↦
      let stays : insert_loop (suc left) height bs ≡ bs =
        let e : is_missing (bs.block_map height) ≡ true = ap is_missing missing in rw e refl in
      subst (λ (q : BlockSyncer). Progress bs (suc left) q) (sym stays)
        (Progress-none bs (suc left) (inr (ap bs.block_map (sym h) ∙ missing)))
  | inr (block, found) ↦
      let next = insert bs height (some block) in
      let goes : insert_loop (suc left) height bs ≡ insert_loop left (height + 1) next =
        let e : is_missing (bs.block_map height) ≡ false = ap is_missing found in
        rw e (ap (λ o. insert_loop left (height + 1) (insert bs height o)) found) in
      let found_next : bs.block_map (bs.known_height + 1) ≡ some block =
        ap bs.block_map (sym h) ∙ found in
      let ih : Progress next left (insert_loop left (height + 1) next) =
        insert_loop-Progress left (height + 1) next refl in
      subst (λ (q : BlockSyncer). Progress bs (suc left) q) (sym goes)
        (Progress-step bs left block (insert_loop left (height + 1) next) found_next (
          subst
            (λ (j : Int64).
              Progress (insert bs j (some block)) left (insert_loop left (height + 1) next))
            h ih))
]

-- A tick of blockProcessRoutine hands to the chain the blocks at the heights from the known one on, one
-- above the other, and moves the known height by their number, never past the remote height; it stops
-- only at the remote height or where the next block is missing.
pub block_process-Progress :
    (bs : BlockSyncer) → Progress bs (bs.remote_height - bs.known_height) (block_process bs)
unfolding block_process
block_process-Progress bs =
    insert_loop-Progress (bs.remote_height - bs.known_height) (bs.known_height + 1) bs refl
