-- ===== src/Chain/Insert/Growth.antt =====
-- insertBlock refines the insertion into the ledger, and a chain that is opened on a database has its ledger.
use go_norn.Prelude.{
  ◌<◌, ◌≡◌, refl, sym, Bool, true, false, ◌&&◌, ◌||◌, Option, none, some, List, [], ◌∷◌, ltb, leb,
  ◌==◌, All, if◌then◌else◌, arith, Bool-cases, inl, inr, leb→le, leb_false→lt, lt→ltb,
}
use go_norn.Prelude.Int64.{int}
use go_norn.Prelude.Bytes.{bytes_eq_refl}
use go_norn.Prelude.Outcome.{done}
use go_norn.Common.{Block, is_genesis_block}
use go_norn.Chain.{ChainEnv, BlockChain, get_block_by_hash}
use go_norn.Chain.Insert.{
  insert_block, insert_unknown, insert_new, insert_after, store_block, seed_calculator,
  create_block_buffer, genesis_initialization, block_process_routine, is_prev_block,
}
use go_norn.Chain.Ledger.{
  Ledger, find_hash, find_height, head, tip_height, IsMember, Represents, links, spec_insert,
}
use go_norn.Chain.Lookups.{add-Cached, get_block_by_hash-find_hash}
use go_norn.Chain.Heights.{get_latest_block-head}
use go_norn.Chain.Storage.{stored_insert, grow-Cached}

-- What the ledger becomes when only the height stands between.
abbrev stacked : Ledger → Block → Ledger
stacked ledger block =
    if ltb (tip_height ledger) block.header.height then block ∷ ledger else ledger

spec_new :
    (ledger : Ledger) (block : Block)
    → find_hash ledger block.header.block_hash ≡ none
    → spec_insert ledger block ≡ (
        if is_genesis_block block
        then stacked ledger block
        else if links ledger block
        then stacked ledger block
        else ledger)
unfolding spec_insert
spec_new ledger block fresh = rw fresh (
    by_tests (is_genesis_block block) (links ledger block)
      (ltb (tip_height ledger) block.header.height))
  where
    by_tests :
        (g l t : Bool)
        → (if (g || l) && t then block ∷ ledger else ledger) ≡ (
            if g
            then if t then block ∷ ledger else ledger
            else if l
            then if t then block ∷ ledger else ledger
            else ledger)
    by_tests true l t = refl
    by_tests false true t = refl
    by_tests false false t = refl

abbrev pub spec_insert_all : Ledger → List Block → Ledger
spec_insert_all ledger [] = ledger
spec_insert_all ledger (b ∷ bs) = spec_insert_all (spec_insert ledger b) bs

module _ {env : ChainEnv} where
  seed_calculator-Represents :
      (bc : BlockChain env) (ledger : Ledger) (block : Block)
      → Represents bc ledger
      → Represents (seed_calculator bc block) ledger
  unfolding seed_calculator
  seed_calculator-Represents bc ledger block r = elim (Bool-cases (block.header.height == int 0)) [
    | inl e ↦
        rw e (record { stored = r.stored; cached = r.cached; tip_eq = r.tip_eq; top_eq = r.top_eq })
    | inr e ↦ rw e r
  ]

  store_block-Represents :
      (bc : BlockChain env) (ledger : Ledger) (block : Block)
      → Represents bc ledger
      → IsMember block
      → find_hash ledger block.header.block_hash ≡ none
      → Represents (store_block bc block) (stacked ledger block)
  unfolding store_block find_hash find_height
  store_block-Represents bc ledger block r hb fresh =
      elim (Bool-cases (leb block.header.height bc.latest_height)) [
        | inl low ↦
            let below : ltb (tip_height ledger) block.header.height ≡ false =
              ground (arith, r.top_eq, leb→le block.header.height bc.latest_height low) in
            rw (low, below) r
        | inr high ↦
            let above : tip_height ledger < block.header.height =
              omega (arith, r.top_eq, leb_false→lt block.header.height bc.latest_height high) in
            rw (high, lt→ltb (tip_height ledger) block.header.height above)
              (seed_calculator-Represents _ (block ∷ ledger) block (record {
                stored = stored_insert env bc.db ledger block bc.pool r.stored hb fresh above;
                cached =
                    add-Cached bc.block_cache bc.block_height_map (block ∷ ledger) block hb.0
                      (rw (bytes_eq_refl block.header.block_hash) refl) (ground arith)
                      (grow-Cached env bc.block_cache bc.block_height_map ledger block
                        r.stored.growing fresh above r.cached);
                tip_eq = refl;
                top_eq = refl;
              }))
      ]

  prepared-Represents :
      (bc : BlockChain env) (ledger : Ledger) (block : Block)
      → Represents bc ledger
      → Represents (genesis_initialization (create_block_buffer bc block) block) ledger
  unfolding genesis_initialization create_block_buffer
  prepared-Represents bc ledger block r = record {
    stored = r.stored;
    cached = r.cached;
    tip_eq = r.tip_eq;
    top_eq = r.top_eq;
  }

  insert_after-Represents :
      (bc : BlockChain env) (ledger : Ledger) (block : Block)
      → Represents bc ledger
      → IsMember block
      → find_hash ledger block.header.block_hash ≡ none
      → Represents
          (insert_after bc (head ledger) block)
          (if links ledger block then stacked ledger block else ledger)
  unfolding insert_after
  insert_after-Represents bc [] block r hb fresh = r
  insert_after-Represents bc (b ∷ bs) block r hb fresh = elim (Bool-cases (is_prev_block b block)) [
    | inl e ↦ rw e (store_block-Represents bc (b ∷ bs) block r hb fresh)
    | inr e ↦ rw e r
  ]

  insert_new-Represents :
      (bc : BlockChain env) (ledger : Ledger) (block : Block)
      → Represents bc ledger
      → IsMember block
      → find_hash ledger block.header.block_hash ≡ none
      → Represents (insert_new bc (head ledger) block) (spec_insert ledger block)
  unfolding insert_new
  insert_new-Represents bc ledger block r hb fresh =
      rw (spec_new ledger block fresh) (elim (Bool-cases (is_genesis_block block)) [
        | inl e ↦ rw e (
            store_block-Represents (genesis_initialization (create_block_buffer bc block) block)
              ledger block (prepared-Represents bc ledger block r) hb fresh)
        | inr e ↦ rw e (insert_after-Represents bc ledger block r hb fresh)
      ])

  insert_unknown-Represents :
      (bc : BlockChain env) (ledger : Ledger) (block : Block) (o : Option Block)
      → Represents bc ledger
      → IsMember block
      → o ≡ find_hash ledger block.header.block_hash
      → (after : BlockChain env) × (insert_unknown bc o block ≡ done after)
        × Represents after (spec_insert ledger block)
  unfolding insert_unknown spec_insert
  insert_unknown-Represents bc ledger block (some b) r hb e = (bc, refl, rw (← e) r)
  insert_unknown-Represents bc ledger block none r hb e = (
    insert_new bc (head ledger) block,
    rw (get_latest_block-head bc ledger r) refl,
    insert_new-Represents bc ledger block r hb (sym e),
  )

  -- On a chain that represents a ledger, insertBlock of a block with a hash of 32 bytes and a
  -- height that is an int64 returns a chain that represents the ledger with the block inserted:
  -- the block comes on top if its hash is new, its height above the latest one, and it follows
  -- the latest block or has the previous hash of a genesis block; otherwise the ledger stays as
  -- it is.
  pub insert_block-spec_insert :
      (bc : BlockChain env) (ledger : Ledger) (block : Block)
      → Represents bc ledger
      → IsMember block
      → (after : BlockChain env) × (insert_block bc block ≡ done after)
        × Represents after (spec_insert ledger block)
  unfolding insert_block
  insert_block-spec_insert bc ledger block r hb =
      let look = get_block_by_hash-find_hash bc ledger block.header.block_hash r hb.0 in
      insert_unknown-Represents ((get_block_by_hash bc block.header.block_hash).0) ledger block
        ((get_block_by_hash bc block.header.block_hash).1) look.1 hb look.0

  -- On a chain that represents a ledger, BlockProcessRoutine takes the blocks that come out of
  -- its channel, with hashes of 32 bytes and heights that are int64, without a panic, and the
  -- chain represents the ledger into which they have been inserted one after the other, by the
  -- rule for one block.
  pub block_process_routine-spec_insert :
      (bc : BlockChain env) (ledger : Ledger) (blocks : List Block)
      → Represents bc ledger
      → All IsMember blocks
      → (after : BlockChain env) × (block_process_routine bc blocks ≡ done after)
        × Represents after (spec_insert_all ledger blocks)
  unfolding block_process_routine
  block_process_routine-spec_insert bc ledger [] r hs = (bc, refl, r)
  block_process_routine-spec_insert bc ledger (b ∷ bs) r hs =
      let one = insert_block-spec_insert bc ledger b r hs.0 in
      let more = block_process_routine-spec_insert one.0 (spec_insert ledger b) bs one.2 hs.1 in
      (more.0, rw one.1 more.1, more.2)
