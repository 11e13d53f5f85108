-- ===== src/Chain/Ledger.antt =====
-- What a chain stands for: the list of its blocks, the latest one first, and when a database and caches represent it.
use go_norn.Prelude.{
  ◌≤◌, ◌<◌, ◌≡◌, refl, sym, ap, ◌∙◌, subst, Bool, false, ◌&&◌, ◌||◌, Option, none, some, List, [],
  ◌∷◌, ltb, ◌==◌, All, if◌then◌else◌, arith, Bool-cases, inl, inr, ==_iff, is_some,
}
use mathlib.Core.Option.{map as map_option}
use go_norn.Prelude.Int64.{Int64, InRange, minus}
use go_norn.Prelude.Bytes.{bytes_eq, bytes_eq→eq, bytes_eq_refl, encode_to_string}
use go_norn.Common.{Block, Hash, is_genesis_block}
use go_norn.Common.Encodable.{IsEncodable}
use go_norn.DataProcessor.{block_hash2_db_key}
use go_norn.Chain.{ChainEnv, BlockChain, Db, block_height2_db_key, latest_key}
use go_norn.Chain.Keys.{IsHash}

abbrev pub Ledger : Type 0
Ledger = List Block

unfoldable pub find_hash : Ledger → Hash → Option Block
find_hash [] hash = none
find_hash (b ∷ bs) hash = if bytes_eq b.header.block_hash hash then some b else find_hash bs hash

unfoldable pub find_height : Ledger → Int64 → Option Block
find_height [] n = none
find_height (b ∷ bs) n = if b.header.height == n then some b else find_height bs n

abbrev pub head : Ledger → Option Block
head [] = none
head (b ∷ bs) = some b

abbrev pub tip_height : Ledger → Int64
tip_height [] = minus 1
tip_height (b ∷ bs) = b.header.height

abbrev pub hash_of : Block → Hash
hash_of b = b.header.block_hash

-- Blocks with proper fields that can be encoded, at heights that grow and with different hashes.
abbrev pub IsMember : Block → Type 0
IsMember b = IsHash b.header.block_hash × InRange b.header.height × IsEncodable b

unfoldable pub Growing : Ledger → Type 0
Growing [] = Unit
Growing (b ∷ bs) =
    All (λ c. c.header.height < b.header.height) bs
    × (find_hash bs b.header.block_hash ≡ none)
    × Growing bs

-- What an insertion of a block is meant to do: a new block becomes the latest one if it is above the latest, and
-- follows it or counts as a genesis block.
abbrev pub links : Ledger → Block → Bool
links [] block = false
links (b ∷ bs) block = bytes_eq b.header.block_hash block.header.prev_block_hash

unfoldable pub spec_insert : Ledger → Block → Ledger
spec_insert ledger block =
    if is_some (find_hash ledger block.header.block_hash)
    then ledger
    else if (is_genesis_block block || links ledger block)
        && ltb (tip_height ledger) block.header.height
    then block ∷ ledger
    else ledger

module _ (env : ChainEnv) where
  -- The database holds the blocks of the ledger and no others.
  pub record Stored (db : Db) (ledger : Ledger) : Type 0 where
    pub members : All IsMember ledger
    pub growing : Growing ledger
    pub hashes :
        (h : Hash)
        → IsHash h
        → db (block_hash2_db_key h) ≡ map_option env.serialize_block (find_hash ledger h)
    pub heights :
        (n : Int64)
        → InRange n
        → db (block_height2_db_key n) ≡ map_option hash_of (find_height ledger n)
    pub latest : db latest_key ≡ map_option hash_of (head ledger)

  -- What the caches hold is true of the ledger.
  pub record Cached (blocks : env.block_lru.Cache) (numbers : env.height_lru.Cache)
      (ledger : Ledger) : Type 0 where
    pub blocks_true :
        (h : Hash) (b : Block)
        → IsHash h
        → env.block_lru.find blocks (encode_to_string h) ≡ some b
        → find_hash ledger h ≡ some b
    pub heights_true :
        (n : Int64) (h : Hash)
        → env.height_lru.find numbers n ≡ some h
        → map_option hash_of (find_height ledger n) ≡ some h

-- The chain has the ledger in its database, and a latest block of its own.
pub record Holds {env : ChainEnv} (bc : BlockChain env) (ledger : Ledger) (tip : Option Block)
    (top : Int64) : Type 0 where
  pub stored : Stored env bc.db ledger
  pub cached : Cached env bc.block_cache bc.block_height_map ledger
  pub tip_eq : bc.latest_block ≡ tip
  pub top_eq : bc.latest_height ≡ top

-- The chain represents the ledger: its latest block is the ledger's.
abbrev pub Represents : {env : ChainEnv} → BlockChain env → Ledger → Type 0
Represents bc ledger = Holds bc ledger (head ledger) (tip_height ledger)

pub find_hash-hash_of :
    (ledger : Ledger) (h : Hash) (b : Block) → find_hash ledger h ≡ some b → b.header.block_hash ≡ h
unfolding find_hash
find_hash-hash_of [] h b e = cc
find_hash-hash_of (c ∷ cs) h b e = elim (Bool-cases (bytes_eq c.header.block_hash h)) [
  | inl same ↦
      let found : some c ≡ some b = sym (rw same refl) ∙ e in
      let q : c ≡ b = cc found in ap hash_of (sym q) ∙ bytes_eq→eq c.header.block_hash h same
  | inr other ↦ find_hash-hash_of cs h b (sym (rw other refl) ∙ e)
]

pub find_hash-IsMember :
    (ledger : Ledger) (h : Hash) (b : Block)
    → All IsMember ledger
    → find_hash ledger h ≡ some b
    → IsMember b
unfolding find_hash
find_hash-IsMember [] h b ms e = cc
find_hash-IsMember (c ∷ cs) h b ms e = elim (Bool-cases (bytes_eq c.header.block_hash h)) [
  | inl same ↦
      let found : some c ≡ some b = sym (rw same refl) ∙ e in
      let q : c ≡ b = cc found in subst (λ (x : Block). IsMember x) q ms.0
  | inr other ↦ find_hash-IsMember cs h b ms.1 (sym (rw other refl) ∙ e)
]

find_hash-below :
    (ledger : Ledger) (h : Hash) (b : Block) (n : Int64)
    → All (λ c. c.header.height < n) ledger
    → find_hash ledger h ≡ some b
    → b.header.height < n
unfolding find_hash
find_hash-below [] h b n ms e = cc
find_hash-below (c ∷ cs) h b n ms e = elim (Bool-cases (bytes_eq c.header.block_hash h)) [
  | inl same ↦
      let found : some c ≡ some b = sym (rw same refl) ∙ e in
      let q : c ≡ b = cc found in subst (λ (x : Block). x.header.height < n) q ms.0
  | inr other ↦ find_hash-below cs h b n ms.1 (sym (rw other refl) ∙ e)
]

-- A block of the ledger is the one that is found at its height.
pub find_height-find_hash :
    (ledger : Ledger) (h : Hash) (b : Block)
    → Growing ledger
    → find_hash ledger h ≡ some b
    → find_height ledger b.header.height ≡ some b
unfolding find_hash find_height Growing
find_height-find_hash [] h b g e = cc
find_height-find_hash (c ∷ cs) h b g e = elim (Bool-cases (bytes_eq c.header.block_hash h)) [
  | inl same ↦
      let found : some c ≡ some b = sym (rw same refl) ∙ e in
      let q : c ≡ b = cc found in
      subst
        (λ (x : Block).
          (if c.header.height == x.header.height then some c else find_height cs x.header.height)
          ≡ some x)
        q (rw ((==_iff c.header.height c.header.height).1 refl) refl)
  | inr other ↦
      let rest : find_hash cs h ≡ some b = sym (rw other refl) ∙ e in
      let low = find_hash-below cs h b c.header.height g.0 rest in
      let differ : (c.header.height == b.header.height) ≡ false = ground (arith, low) in
      rw differ (find_height-find_hash cs h b g.2 rest)
]

-- Nothing is found above the latest height.
pub find_height_above :
    (ledger : Ledger) (n m : Int64)
    → All (λ c. c.header.height < m) ledger
    → m ≤ n
    → find_height ledger n ≡ none
unfolding find_height
find_height_above [] n m h k = refl
find_height_above (c ∷ cs) n m h k =
    let differ : (c.header.height == n) ≡ false = ground (arith, h.0) in
    rw differ (find_height_above cs n m h.1 k)

-- The block at a height is the one that is found by its hash.
pub find_hash-find_height :
    (ledger : Ledger) (n : Int64) (b : Block)
    → Growing ledger
    → All IsMember ledger
    → find_height ledger n ≡ some b
    → (find_hash ledger b.header.block_hash ≡ some b) × IsMember b
unfolding find_hash find_height Growing
find_hash-find_height [] n b g ms e = cc
find_hash-find_height (c ∷ cs) n b g ms e = elim (Bool-cases (c.header.height == n)) [
  | inl same ↦
      let found : some c ≡ some b = sym (rw same refl) ∙ e in
      let q : c ≡ b = cc found in
      subst (λ (x : Block). (find_hash (c ∷ cs) x.header.block_hash ≡ some x) × IsMember x) q
        (rw (bytes_eq_refl c.header.block_hash) refl, ms.0)
  | inr other ↦
      let rest : find_height cs n ≡ some b = sym (rw other refl) ∙ e in
      let r = find_hash-find_height cs n b g.2 ms.1 rest in
      (
        elim (Bool-cases (bytes_eq c.header.block_hash b.header.block_hash)) [
          | inl same ↦
              let q : c.header.block_hash ≡ b.header.block_hash =
                bytes_eq→eq c.header.block_hash b.header.block_hash same in
              let gone : find_hash cs b.header.block_hash ≡ none =
                sym (ap (find_hash cs) q) ∙ g.1 in
              cc (gone, r.0)
          | inr differ ↦ rw differ r.0
        ],
        r.1,
      )
]

-- A block that is found at a height has this height.
pub find_height-height :
    (ledger : Ledger) (n : Int64) (b : Block) → find_height ledger n ≡ some b → b.header.height ≡ n
unfolding find_height
find_height-height [] n b e = cc e
find_height-height (c ∷ cs) n b e = elim (Bool-cases (c.header.height == n)) [
  | inl same ↦
      let found : some c ≡ some b = sym (rw same refl) ∙ e in
      let q : c ≡ b = cc found in
      ap (λ (x : Block). x.header.height) (sym q) ∙ (==_iff c.header.height n).0 same
  | inr other ↦ find_height-height cs n b (sym (rw other refl) ∙ e)
]
