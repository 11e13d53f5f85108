-- ===== src/Chain/Packaging/Placement.antt =====
-- Where a packaged block stands in the buffer of the node that made it, and the first block of a chain.
use go_norn.Prelude.{
  ℕ, ◌+◌, ◌≤◌, ◌<◌, ◌≡◌, refl, sym, ap, ◌∙◌, arith, Bool, true, false, not, ◌&&◌, Option, none,
  some, List, inl, inr, Bool-cases,
}
use go_norn.Prelude.Int64.{Int64, int, add64, sub64, modulus}
use go_norn.Prelude.Bytes.{Bytes, bytes_eq, bytes_eq_refl, encode_to_string, decode_string}
use go_norn.Prelude.Outcome.{done, >>=-eq-done, done-injective}
use go_norn.Common.{Block, Transaction, GeneralParams, block_hash, prev_block_hash}
use mathlib.Core.Option.{some-injective}
use go_norn.Merkle.{build_merkle_tree}
use go_norn.Buffer.{Env, BlockBuffer, get_priority_leaf}
use go_norn.Buffer.Leaf.{IsLeaf, at_height, at_latest, get_priority_leaf-IsLeaf}
use go_norn.Buffer.Handlers.{is_orphan}
use go_norn.Buffer.Handlers.Validity.{IsValid}
use go_norn.Chain.{ChainEnv, BlockChain}
use go_norn.Chain.Packaging.{
  PackEnv, to_array, sealed, header_on, pack_on, package_on, package_new_block, now_height,
}

-- The test of is_orphan on what is selected below the block.
orphan_below : Block → Block → Option Block → Bool
orphan_below latest block below =
    not (bytes_eq (prev_block_hash block) (block_hash latest)) && elim below [
      | none ↦ true
      | some parent ↦ not (bytes_eq (prev_block_hash block) (block_hash parent))
    ]

same_prev :
    (block leaf : Block)
    → block.header.prev_block_hash ≡ leaf.header.block_hash
    → bytes_eq (prev_block_hash block) (block_hash leaf) ≡ true
same_prev block leaf e = rw e (bytes_eq_refl (encode_to_string leaf.header.block_hash))

orphan_below-leaf :
    (latest block leaf : Block)
    → block.header.prev_block_hash ≡ leaf.header.block_hash
    → orphan_below latest block (some leaf) ≡ false
unfolding orphan_below
orphan_below-leaf latest block leaf e =
    elim (Bool-cases (bytes_eq (prev_block_hash block) (block_hash latest))) [
      | inl h ↦ rw h refl
      | inr h ↦ rw (h, same_prev block leaf e) refl
    ]

orphan_below-latest :
    (latest block : Block) (below : Option Block)
    → block.header.prev_block_hash ≡ latest.header.block_hash
    → orphan_below latest block below ≡ false
unfolding orphan_below
orphan_below-latest latest block below e = rw (same_prev block latest e) refl

module _ {env : Env} (b : BlockBuffer env) (now : Int64) (leaf block : Block) where
  on_leaf :
      IsValid b
      → IsLeaf b.selected_block now b.latest_block_height b.buffered_height b.latest_block leaf
      → leaf.header.height + 1 < modulus
      → block.header.prev_block_hash ≡ leaf.header.block_hash
      → block.header.height ≡ add64 leaf.header.height (int 1)
      → (is_orphan b block ≡ false) × (b.latest_block_height < block.header.height)
  unfolding is_orphan orphan_below
  on_leaf v (at_height h low high early found f) room prev at =
      let own = v.keyed h leaf found in
      let below : sub64 block.header.height (int 1) ≡ h = omega (arith, at, own, room) in
      (
        ap (orphan_below b.latest_block block) (ap b.selected_block below ∙ found)
            ∙ orphan_below-leaf b.latest_block block leaf prev,
        omega (arith, at, own, low, room),
      )
  on_leaf v (at_latest e f) room prev at =
      let own : leaf.header.height ≡ b.latest_block_height =
        ap (λ (x : Block). x.header.height) e ∙ v.latest_height in
      (
        orphan_below-latest b.latest_block block
            (b.selected_block (sub64 block.header.height (int 1)))
            (prev ∙ ap (λ (x : Block). x.header.block_hash) e),
        omega (arith, at, own, room),
      )

module _ (pack : PackEnv) where
  -- What is known of a block that pack_on made on a leaf.
  pub record IsPacked (best : Block) (txs : List Transaction) (params : GeneralParams)
      (key : Option Bytes) (block : Block) : Type 0 where
    prev : block.header.prev_block_hash ≡ best.header.block_hash
    at : block.header.height ≡ add64 best.header.height (int 1)
    carries : block.transactions ≡ txs
    pub encoded : block.header.params ≡ pack.serialize_general_params params
    pub owned : (k : Bytes) × (key ≡ some k) × (to_array 33 k ≡ done block.header.public_key)

  pack_on-IsPacked :
      (best : Block) (txs : List Transaction) (timestamp : Int64) (params : GeneralParams)
      (key : Option Bytes) (block : Block)
      → pack_on pack best txs timestamp params key ≡ done (some block)
      → IsPacked best txs params key block
  unfolding pack_on sealed header_on
  pack_on-IsPacked best txs timestamp params none block e =
      let impossible : none ≡ some block = done-injective e in cc impossible
  pack_on-IsPacked best txs timestamp params (some k) block e =
      let root = >>=-eq-done (to_array 32 (build_merkle_tree pack.sha256 txs)) _ e in
      let key = >>=-eq-done (to_array 33 k) _ root.2 in
      let made = >>=-eq-done (sealed pack _ txs) _ key.2 in
      let hash = >>=-eq-done (to_array 32 (pack.sha256 (pack.serialize_block_header _))) _ made.1 in
      let same : _ ≡ block =
        done-injective hash.2 ∙ some-injective _ block (done-injective made.2) in
      record {
        prev = sym (ap (λ (x : Block). x.header.prev_block_hash) same);
        at = sym (ap (λ (x : Block). x.header.height) same);
        carries = sym (ap (λ (x : Block). x.transactions) same);
        encoded = sym (ap (λ (x : Block). x.header.params) same);
        owned = (k, refl, key.1 ∙ ap (λ (x : Block). done x.header.public_key) same);
      }

  package_on-IsPacked :
      {env : Env} (b : Option (BlockBuffer env)) (now : Int64) (txs : List Transaction)
      (timestamp : Int64) (params : GeneralParams) (key_hex : Bytes) (block : Block)
      → package_on pack b now txs timestamp params key_hex ≡ done (some block)
      → (best : Block) × IsPacked best txs params (decode_string key_hex) block
  unfolding package_on
  package_on-IsPacked none now txs timestamp params key_hex block e = cc e
  package_on-IsPacked (some b) now txs timestamp params key_hex block e = (
    get_priority_leaf b now,
    pack_on-IsPacked (get_priority_leaf b now) txs timestamp params (decode_string key_hex) block e,
  )

  pub package_new_block-IsPacked :
      {env : ChainEnv} (bc : BlockChain env) (txs : List Transaction) (timestamp : Int64)
      (params : GeneralParams) (interval : ℕ) (key_hex : Bytes) (block : Block)
      → package_new_block pack bc txs timestamp params interval key_hex ≡ done (some block)
      → (best : Block) × IsPacked best txs params (decode_string key_hex) block
  unfolding package_new_block
  package_new_block-IsPacked bc txs timestamp params interval key_hex block e =
      package_on-IsPacked bc.buffer (now_height pack bc timestamp interval) txs timestamp params
        key_hex block e

  -- A block that PackageNewBlock returns carries the given transactions and follows a block of
  -- the node's own view: its buffer does not take it for an orphan, and it lies above the
  -- latest block; if the buffer is well formed, its buffered height not below the latest one,
  -- and the height of the leaf not the greatest int64.
  pub package_new_block-placed :
      {env : ChainEnv} (bc : BlockChain env) (b : BlockBuffer env.buffer_env)
      (txs : List Transaction) (timestamp : Int64) (params : GeneralParams) (interval : ℕ)
      (key_hex : Bytes) (block : Block)
      → bc.buffer ≡ some b
      → IsValid b
      → b.latest_block_height ≤ b.buffered_height
      → (get_priority_leaf b (now_height pack bc timestamp interval)).header.height + 1 < modulus
      → package_new_block pack bc txs timestamp params interval key_hex ≡ done (some block)
      → (is_orphan b block ≡ false)
        × (b.latest_block_height < block.header.height)
        × (block.transactions ≡ txs)
  unfolding package_new_block package_on
  package_new_block-placed bc b txs timestamp params interval key_hex block here v h room e =
      let now = now_height pack bc timestamp interval in
      let leaf = get_priority_leaf b now in
      let run : package_on pack (some b) now txs timestamp params key_hex ≡ done (some block) =
        sym (ap (λ o. package_on pack o now txs timestamp params key_hex) here) ∙ e in
      let packed = pack_on-IsPacked leaf txs timestamp params (decode_string key_hex) block run in
      let placed =
        on_leaf b now leaf block v (get_priority_leaf-IsLeaf b now h) room packed.prev packed.at in
      (placed.0, placed.1, packed.carries)
