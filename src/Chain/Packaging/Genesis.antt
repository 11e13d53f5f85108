-- ===== src/Chain/Packaging/Genesis.antt =====
-- NewGenesisBlock on an empty chain and on one that has a block of height 0.
use go_norn.Prelude.{
  ◌+◌, ◌^◌, ◌<◌, ◌∷◌, ◌≤◌, ◌≡◌, refl, ◌∙◌, arith, true, Option, none, some, [], ◌∷◌, length, take,
  length-take,
}
use go_norn.Prelude.Int64.{Int64, int, InRange}
use go_norn.Prelude.Bytes.{Bytes, bytes_eq, encode_to_string, decode_string}
use go_norn.Prelude.Outcome.{done}
use go_norn.Common.{Block, GenesisParams, is_genesis_block}
use go_norn.Common.Encodable.{IsEncodable}
use go_norn.Chain.{ChainEnv, BlockChain}
use go_norn.Chain.Keys.{IsHash}
use go_norn.Chain.Ledger.{Ledger, find_hash, find_height, Represents}
use go_norn.Chain.Heights.{get_block_by_height-find_height}
use go_norn.Chain.Insert.{append_block_task}
use go_norn.Chain.Insert.Opening.{append_block_task-forged_genesis}
use go_norn.Chain.Packaging.Arrays.{to_array-enough, to_array-IsHash}
use go_norn.Chain.Packaging.{
  PackEnv, sealed, genesis_header, genesis_with, genesis_on, new_genesis_block,
}

module _ (pack : PackEnv) where
  abbrev genesis_block : Int64 → GenesisParams → Bytes → Block
  genesis_block timestamp params key = record {
    header = record (genesis_header pack timestamp params key) {
      block_hash =
          pack.sha256 (pack.serialize_block_header (genesis_header pack timestamp params key));
    };
    transactions = [];
  }

  is_genesis_block-genesis_block :
      (timestamp : Int64) (params : GenesisParams) (key : Bytes)
      → is_genesis_block (genesis_block timestamp params key) ≡ true
  unfolding is_genesis_block genesis_header encode_to_string bytes_eq
  is_genesis_block-genesis_block timestamp params key = refl

  genesis_on-known :
      {env : ChainEnv} (bc : BlockChain env) (o : Option Block) (timestamp : Int64)
      (key_hex : Bytes) (params : Option GenesisParams) (g : Block)
      → o ≡ some g
      → genesis_on pack (bc, o) timestamp key_hex params ≡ done bc
  unfolding genesis_on
  genesis_on-known bc none timestamp key_hex params g e = cc e
  genesis_on-known bc (some b) timestamp key_hex params g e = refl

  genesis_on-new :
      {env : ChainEnv} (bc : BlockChain env) (o : Option Block) (timestamp : Int64)
      (key_hex key : Bytes) (params : GenesisParams)
      → o ≡ none
      → decode_string key_hex ≡ some key
      → 33 ≤ length key
      → ((m : Bytes) → IsHash (pack.sha256 m))
      → genesis_on pack (bc, o) timestamp key_hex (some params)
        ≡ append_block_task bc (genesis_block timestamp params (take 33 key))
  unfolding genesis_on genesis_with sealed
  genesis_on-new bc (some b) timestamp key_hex key params e decoded long hash = cc e
  genesis_on-new bc none timestamp key_hex key params e decoded long hash =
      let header = genesis_header pack timestamp params (take 33 key) in
      let own = hash (pack.serialize_block_header header) in
      rw
        (
          decoded,
          to_array-enough 33 key long,
          to_array-IsHash (pack.sha256 (pack.serialize_block_header header)) own,
        )
        refl

  -- On a chain that represents the empty ledger NewGenesisBlock, with a configured public key
  -- of at least 33 bytes, parameters that could be generated and are encoded in fewer than 2 ^ 32 - 200 bytes, a proper
  -- time and a hash function of 32 bytes, makes the chain whose only block is a genesis block at height 0.
  pub new_genesis_block-first :
      {env : ChainEnv} (bc : BlockChain env) (timestamp : Int64) (key_hex key : Bytes)
      (params : GenesisParams)
      → Represents bc []
      → ((m : Bytes) → IsHash (pack.sha256 m))
      → decode_string key_hex ≡ some key
      → 33 ≤ length key
      → InRange timestamp
      → 200 + length (pack.serialize_genesis_params params) < 2 ^ 32
      → (after : BlockChain env) × (g : Block) × (new_genesis_block pack bc timestamp key_hex
            (some params)
          ≡ done after)
        × Represents after (g ∷ [])
        × (g.header.height ≡ int 0)
        × (is_genesis_block g ≡ true)
  unfolding new_genesis_block genesis_header find_hash find_height
  new_genesis_block-first bc timestamp key_hex key params r hash decoded long timely small =
      let found = get_block_by_height-find_height bc [] (int 0) r (omega arith) in
      let g = genesis_block timestamp params (take 33 key) in
      let own =
        hash (pack.serialize_block_header (genesis_header pack timestamp params (take 33 key))) in
      let fits : IsEncodable g = (
        record {
          prev_block_hash = refl;
          block_hash = own.0;
          merkle_root = refl;
          public_key = length-take 33 key long;
          timestamp = timely;
          height = omega arith;
          gas_limit = omega arith;
        },
        tt,
        omega (arith, small),
      ) in
      let flag = is_genesis_block-genesis_block timestamp params (take 33 key) in
      let taken =
        append_block_task-forged_genesis found.0.0 [] g found.3 (own, omega arith, fits) flag refl
          (omega arith) in
      (
        taken.0,
        g,
        rw found.1 (
            genesis_on-new found.0.0 found.0.1 timestamp key_hex key params found.2 decoded long
              hash
            ∙ taken.1),
        taken.2,
        refl,
        flag,
      )

  -- On a chain with a block of height 0 NewGenesisBlock leaves the ledger as it is.
  pub new_genesis_block-again :
      {env : ChainEnv} (bc : BlockChain env) (ledger : Ledger) (timestamp : Int64) (key_hex : Bytes)
      (params : Option GenesisParams) (g : Block)
      → Represents bc ledger
      → find_height ledger (int 0) ≡ some g
      → (after : BlockChain env) × (new_genesis_block pack bc timestamp key_hex params ≡ done after)
        × Represents after ledger
  unfolding new_genesis_block
  new_genesis_block-again bc ledger timestamp key_hex params g r e =
      let found = get_block_by_height-find_height bc ledger (int 0) r (omega arith) in
      (
        found.0.0,
        rw found.1 (genesis_on-known found.0.0 found.0.1 timestamp key_hex params g (found.2 ∙ e)),
        found.3,
      )
