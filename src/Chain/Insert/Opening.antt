-- ===== src/Chain/Insert/Opening.antt =====
-- A chain that is opened on a database, and blocks that count as a genesis block.
use go_norn.Prelude.{
  ◌<◌, ◌≡◌, refl, ap, ◌∙◌, subst, true, Option, none, some, [], ◌∷◌, arith, lt→ltb,
}
use mathlib.Core.Option.{map as map_option}
use go_norn.Prelude.Int64.{Int64, int, minus}
use go_norn.Prelude.Bytes.{encode_to_string}
use go_norn.Prelude.Outcome.{done}
use go_norn.Common.{Block, is_genesis_block}
use go_norn.Buffer.{new_block_buffer}
use go_norn.Calculator.{Calculator}
use go_norn.TxPool.{TxPool}
use go_norn.Chain.{ChainEnv, BlockChain, Db}
use go_norn.Chain.Insert.{
  create_block_buffer, genesis_initialization, append_block_task, new_blockchain, empty_chain,
  with_latest, with_genesis,
}
use go_norn.Chain.Insert.Growth.{insert_block-spec_insert}
use go_norn.Chain.Ledger.{
  Ledger, find_hash, find_height, head, tip_height, IsMember, Stored, Holds, Represents,
  spec_insert,
}
use go_norn.Chain.Unchanged.{rest_of, get_block_by_height-rest_of, get_latest_block-rest_of}
use go_norn.Chain.Heights.{get_block_by_height-find_height, get_latest_block-opened}

abbrev pub start_time : Option Block → Int64
start_time none = int 0
start_time (some g) = g.header.timestamp

module _ {env : ChainEnv} where
  empty_chain-Holds :
      (db : Db) (ledger : Ledger) (c : Option Calculator) (pool : TxPool)
      → Stored env db ledger
      → Holds {env = env} (empty_chain db c pool) ledger none (minus 1)
  unfolding empty_chain
  empty_chain-Holds db ledger c pool s = record {
    stored = s;
    cached = record {
      blocks_true = λ h b hh e. let n = env.block_lru.find-new (encode_to_string h) in cc (n, e);
      heights_true = λ n h e. let q = env.height_lru.find-new n in cc (q, e);
    };
    tip_eq = refl;
    top_eq = refl;
  }

  -- What a chain that was opened on a ledger has: the ledger, a buffer at its head, and the parameters of its block of
  -- height 0.
  pub record IsOpened (ledger : Ledger) (bc : BlockChain env) : Type 0 where
    pub represents : Represents bc ledger
    pub buffered : bc.buffer ≡ map_option (new_block_buffer env.buffer_env) (head ledger)
    pub params :
        bc.genesis_params
        ≡ map_option
            (λ (g : Block). env.deserialize_genesis_params g.header.params)
            (find_height ledger (int 0))
    pub time : bc.genesis_time ≡ start_time (find_height ledger (int 0))

  with_genesis-IsOpened :
      (bc : BlockChain env) (o : Option Block) (ledger : Ledger) (c : Option Calculator)
      → o ≡ find_height ledger (int 0)
      → rest_of bc ≡ (map_option (new_block_buffer env.buffer_env) (head ledger), none, int 0, c)
      → Represents bc ledger
      → IsOpened ledger (with_genesis (bc, o))
  unfolding with_genesis genesis_initialization
  with_genesis-IsOpened bc none ledger c e q r = record {
    represents = r;
    buffered = ap (λ t. t.0) q;
    params =
        ap (λ t. t.1) q
        ∙ ap (map_option (λ (g : Block). env.deserialize_genesis_params g.header.params)) e;
    time = ap (λ t. t.2) q ∙ ap start_time e;
  }
  with_genesis-IsOpened bc (some b) ledger c e q r = record {
    represents = record {
      stored = r.stored;
      cached = r.cached;
      tip_eq = r.tip_eq;
      top_eq = r.top_eq;
    };
    buffered = ap (λ t. t.0) q;
    params = ap (map_option (λ (g : Block). env.deserialize_genesis_params g.header.params)) e;
    time = ap start_time e;
  }

  with_latest-IsOpened :
      (bc : BlockChain env) (ledger : Ledger) (o : Option Block) (c : Option Calculator)
      → o ≡ head ledger
      → rest_of bc ≡ (none, none, int 0, c)
      → Represents bc ledger
      → (after : BlockChain env) × (with_latest (bc, o) ≡ done after) × IsOpened ledger after
  unfolding with_latest create_block_buffer find_height
  with_latest-IsOpened bc [] none c e q r = (
    bc,
    refl,
    record {
      represents = r;
      buffered = ap (λ t. t.0) q;
      params = ap (λ t. t.1) q;
      time = ap (λ t. t.2) q;
    },
  )
  with_latest-IsOpened bc (b ∷ bs) none c e q r = cc e
  with_latest-IsOpened bc [] (some l) c e q r = cc e
  with_latest-IsOpened bc (b ∷ bs) (some l) c e q r =
      let start = create_block_buffer bc l in
      let ready : Represents start (b ∷ bs) = record {
        stored = r.stored;
        cached = r.cached;
        tip_eq = r.tip_eq;
        top_eq = r.top_eq;
      } in
      let found = get_block_by_height-find_height start (b ∷ bs) (int 0) ready (omega arith) in
      let buffered = ap (λ (o : Option Block). map_option (new_block_buffer env.buffer_env) o) e in
      let kept =
        get_block_by_height-rest_of start (int 0) found.0 found.1
        ∙ ap (λ t. (some (new_block_buffer env.buffer_env l), t.1, t.2, t.3)) q
        ∙ ap (λ t. (t, none, int 0, c)) buffered in
      (
        with_genesis found.0,
        rw found.1 refl,
        with_genesis-IsOpened found.0.0 found.0.1 (b ∷ bs) c found.2 kept found.3,
      )

  -- NewBlockchain on a database that stores a ledger does not panic: the chain represents the ledger again, with a
  -- buffer at the latest block and the parameters of the block of height 0. On an empty ledger it has no buffer.
  pub new_blockchain-IsOpened :
      (db : Db) (ledger : Ledger) (c : Option Calculator) (pool : TxPool)
      → Stored env db ledger
      → (bc : BlockChain env) × (new_blockchain db c pool ≡ done bc) × IsOpened ledger bc
  unfolding new_blockchain empty_chain
  new_blockchain-IsOpened db ledger c pool s =
      let start = empty_chain db c pool in
      let found = get_latest_block-opened start ledger (empty_chain-Holds db ledger c pool s) in
      let kept = get_latest_block-rest_of start found.0 found.1 in
      let opened = with_latest-IsOpened found.0.0 ledger found.0.1 c found.2 kept found.3 in
      (opened.0, rw found.1 opened.1, opened.2)

  -- On a chain that represents a ledger, AppendBlockTask takes a block with the hash of zeros
  -- before it on top, if its hash is new and of 32 bytes and its height an int64 above the
  -- latest one, whatever the latest block is.
  pub append_block_task-forged_genesis :
      (bc : BlockChain env) (ledger : Ledger) (block : Block)
      → Represents bc ledger
      → IsMember block
      → is_genesis_block block ≡ true
      → find_hash ledger block.header.block_hash ≡ none
      → tip_height ledger < block.header.height
      → (after : BlockChain env) × (append_block_task bc block ≡ done after)
        × Represents after (block ∷ ledger)
  unfolding append_block_task spec_insert
  append_block_task-forged_genesis bc ledger block r hb g fresh above =
      let done' = insert_block-spec_insert bc ledger block r hb in
      let taken : spec_insert ledger block ≡ block ∷ ledger =
        rw (fresh, g, lt→ltb (tip_height ledger) block.header.height above) refl in
      (done'.0, rw g done'.1, subst (λ (l : Ledger). Represents done'.0 l) taken done'.2)
