-- ===== src/Chain/Unchanged.antt =====
-- The lookups of blocks leave the block buffer and the parameters of the genesis block alone.
use go_norn.Prelude.{
  ◌≡◌, refl, ap, ◌∙◌, sym, not, ◌&&◌, Option, none, some, ltb, ◌==◌, Bool-cases, inl, inr,
}
use go_norn.Prelude.Int64.{Int64, minus}
use go_norn.Prelude.Bytes.{Bytes, encode_to_string}
use go_norn.Prelude.Outcome.{done, >>=-eq-done, done-injective}
use go_norn.Common.{Block, Hash, GenesisParams}
use go_norn.Calculator.{Calculator}
use go_norn.Buffer.{BlockBuffer}
use go_norn.DataProcessor.{block_hash2_db_key}
use go_norn.Chain.{
  ChainEnv, BlockChain, get_block_by_hash, get_block_by_height, to_hash, block_from_db,
  block_from_cache, height_from_db, height_from_cache, block_height2_db_key, set_latest,
  latest_from_db, latest_or_db, latest_key, get_latest_block,
}

module _ {env : ChainEnv} where
  abbrev pub rest_of :
      BlockChain env
      → Option (BlockBuffer env.buffer_env) × Option GenesisParams × Int64 × Option Calculator
  rest_of bc = (bc.buffer, bc.genesis_params, bc.genesis_time, bc.calculator)

  abbrev rest_after :
      BlockChain env × Option Block
      → Option (BlockBuffer env.buffer_env) × Option GenesisParams × Int64 × Option Calculator
  rest_after r = rest_of r.0

  block_from_db-rest_of :
      (bc : BlockChain env) (v : Option Bytes) → rest_of ((block_from_db bc v).0) ≡ rest_of bc
  unfolding block_from_db
  block_from_db-rest_of bc none = refl
  block_from_db-rest_of bc (some v) = refl

  block_from_cache-rest_of :
      (bc : BlockChain env) (h : Hash) (o : Option Block)
      → rest_of ((block_from_cache bc h o).0) ≡ rest_of bc
  unfolding block_from_cache
  block_from_cache-rest_of bc h (some b) = refl
  block_from_cache-rest_of bc h none = block_from_db-rest_of bc (bc.db (block_hash2_db_key h))

  get_block_by_hash-rest_of :
      (bc : BlockChain env) (h : Hash) → rest_of ((get_block_by_hash bc h).0) ≡ rest_of bc
  unfolding get_block_by_hash
  get_block_by_hash-rest_of bc h =
      block_from_cache-rest_of
        (record bc { block_cache = env.block_lru.touch bc.block_cache (encode_to_string h) }) h
        (env.block_lru.find bc.block_cache (encode_to_string h))

  set_latest-rest_of :
      (r : BlockChain env × Option Block) → rest_of ((set_latest r).0) ≡ rest_of r.0
  unfolding set_latest
  set_latest-rest_of (bc, none) = refl
  set_latest-rest_of (bc, some b) = refl

  latest_from_db-rest_of :
      (bc : BlockChain env) (v : Option Bytes) (r : BlockChain env × Option Block)
      → latest_from_db bc v ≡ done r
      → rest_of r.0 ≡ rest_of bc
  unfolding latest_from_db
  latest_from_db-rest_of bc none r e = sym (ap rest_after (done-injective e))
  latest_from_db-rest_of bc (some v) r e =
      let step = >>=-eq-done (to_hash v) (λ h. done (set_latest (get_block_by_hash bc h))) e in
      sym (ap rest_after (done-injective step.2))
      ∙ set_latest-rest_of (get_block_by_hash bc step.0)
      ∙ get_block_by_hash-rest_of bc step.0

  latest_or_db-rest_of :
      (bc : BlockChain env) (o : Option Block) (r : BlockChain env × Option Block)
      → latest_or_db bc o ≡ done r
      → rest_of r.0 ≡ rest_of bc
  unfolding latest_or_db
  latest_or_db-rest_of bc (some b) r e = sym (ap rest_after (done-injective e))
  latest_or_db-rest_of bc none r e = latest_from_db-rest_of bc (bc.db latest_key) r e

  pub get_latest_block-rest_of :
      (bc : BlockChain env) (r : BlockChain env × Option Block)
      → get_latest_block bc ≡ done r
      → rest_of r.0 ≡ rest_of bc
  unfolding get_latest_block
  get_latest_block-rest_of bc r e = latest_or_db-rest_of bc bc.latest_block r e

  height_from_db-rest_of :
      (bc : BlockChain env) (v : Option Bytes) (r : BlockChain env × Option Block)
      → height_from_db bc v ≡ done r
      → rest_of r.0 ≡ rest_of bc
  unfolding height_from_db
  height_from_db-rest_of bc none r e = sym (ap rest_after (done-injective e))
  height_from_db-rest_of bc (some v) r e =
      let step = >>=-eq-done (to_hash v) (λ h. done (get_block_by_hash bc h)) e in
      sym (ap rest_after (done-injective step.2)) ∙ get_block_by_hash-rest_of bc step.0

  height_from_cache-rest_of :
      (bc : BlockChain env) (n : Int64) (o : Option Hash) (r : BlockChain env × Option Block)
      → height_from_cache bc n o ≡ done r
      → rest_of r.0 ≡ rest_of bc
  unfolding height_from_cache
  height_from_cache-rest_of bc n (some h) r e =
      sym (ap rest_after (done-injective e)) ∙ get_block_by_hash-rest_of bc h
  height_from_cache-rest_of bc n none r e =
      height_from_db-rest_of bc (bc.db (block_height2_db_key n)) r e

  pub get_block_by_height-rest_of :
      (bc : BlockChain env) (n : Int64) (r : BlockChain env × Option Block)
      → get_block_by_height bc n ≡ done r
      → rest_of r.0 ≡ rest_of bc
  unfolding get_block_by_height
  get_block_by_height-rest_of bc n r e =
      elim (Bool-cases (ltb bc.latest_height n && not (bc.latest_height == minus 1))) [
        | inl above ↦
            let known : done (bc, none) ≡ done r = sym (rw above refl) ∙ e in
            sym (ap rest_after (done-injective known))
        | inr below ↦
            height_from_cache-rest_of
              (record bc { block_height_map = env.height_lru.touch bc.block_height_map n }) n
              (env.height_lru.find bc.block_height_map n) r (sym (rw below refl) ∙ e)
      ]
