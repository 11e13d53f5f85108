-- ===== src/Chain/Lookups.antt =====
-- GetBlockByHash against the ledger that a chain represents.
use go_norn.Prelude.{
  ℕ, ◌⊎◌, ◌≡◌, ◌≢◌, refl, sym, ap, ◌∙◌, subst, true, false, Option, none, some, ltb, ◌==◌, arith,
  Bool-cases, inl, inr, ==_iff, length, take_all,
}
use mathlib.Core.Option.{map as map_option}
use go_norn.Prelude.Int64.{Int64}
use go_norn.Prelude.Lru.{find-add}
use go_norn.Prelude.Bytes.{
  Bytes, bytes_eq, bytes_eq→eq, bytes_eq_refl, encode_to_string, encode_injective,
}
use go_norn.Prelude.Outcome.{done}
use go_norn.Common.{Block, Hash}
use go_norn.Chain.{
  ChainEnv, BlockChain, write_block_cache, get_block_by_hash, to_hash, block_from_db,
  block_from_cache,
}
use go_norn.Chain.Keys.{IsHash}
use go_norn.Chain.Ledger.{
  Ledger, find_hash, find_height, hash_of, Cached, Holds, Represents, find_hash-hash_of,
  find_hash-IsMember, find_height-find_hash,
}

bytes_same : (a b : Bytes) → (a ≡ b) ⊎ (a ≢ b)
bytes_same a b = elim (Bool-cases (bytes_eq a b)) [
  | inl same ↦ inl (bytes_eq→eq a b same)
  | inr other ↦
      inr (λ q. let yes : bytes_eq a b ≡ true = rw (← q) (bytes_eq_refl a) in cc (other, yes))
]

numbers_same : (a b : ℕ) → (a ≡ b) ⊎ (a ≢ b)
numbers_same a b = elim (Bool-cases (a == b)) [
  | inl same ↦ inl ((==_iff a b).0 same)
  | inr other ↦ inr (λ q. ground (arith, other, q))
]

pub to_hash-IsHash : (h : Hash) → IsHash h → to_hash h ≡ done h
unfolding to_hash
to_hash-IsHash h hh =
    let large : ltb (length h) 32 ≡ false = ground (arith, hh.0) in
    rw (large, ← hh.0) (ap done (take_all h))

module _ {env : ChainEnv} where
  -- What a lookup returns, and that the chain after it represents the same ledger.
  abbrev pub Answers :
      Ledger → Option Block → Option Block → Int64 → BlockChain env × Option Block → Type 0
  Answers ledger o tip' top' r = (r.1 ≡ o) × Holds r.0 ledger tip' top'

  -- A block of the ledger may be written into the caches.
  block_found :
      (blocks : env.block_lru.Cache) (numbers : env.height_lru.Cache) (ledger : Ledger)
      (b c : Block) (h : Hash)
      → IsHash b.header.block_hash
      → IsHash h
      → find_hash ledger b.header.block_hash ≡ some b
      → Cached env blocks numbers ledger
      → env.block_lru.find
          (env.block_lru.add blocks (encode_to_string b.header.block_hash) b)
          (encode_to_string h)
        ≡ some c
      → find_hash ledger h ≡ some c
  block_found blocks numbers ledger b c h hb hh by_hash old e =
      let key = encode_to_string b.header.block_hash in
      elim (find-add env.block_lru blocks key (encode_to_string h) b c
        (bytes_same key (encode_to_string h)) e) [
          | inl both ↦
              let same : b.header.block_hash ≡ h =
                encode_injective b.header.block_hash h hb.1 hh.1 both.0 in
              sym (ap (find_hash ledger) same) ∙ by_hash ∙ ap some both.1
          | inr before ↦ old.blocks_true h c hh before
        ]

  height_found :
      (blocks : env.block_lru.Cache) (numbers : env.height_lru.Cache) (ledger : Ledger) (b : Block)
      (n : Int64) (h : Hash)
      → find_height ledger b.header.height ≡ some b
      → Cached env blocks numbers ledger
      → env.height_lru.find (env.height_lru.add numbers b.header.height b.header.block_hash) n
        ≡ some h
      → map_option hash_of (find_height ledger n) ≡ some h
  height_found blocks numbers ledger b n h by_height old e =
      elim (find-add env.height_lru numbers b.header.height n b.header.block_hash h
        (numbers_same b.header.height n) e) [
          | inl both ↦
              sym (ap (λ (k : Int64). map_option hash_of (find_height ledger k)) both.0)
              ∙ ap (map_option hash_of) by_height
              ∙ ap some both.1
          | inr before ↦ old.heights_true n h before
        ]

  pub add-Cached :
      (blocks : env.block_lru.Cache) (numbers : env.height_lru.Cache) (ledger : Ledger) (b : Block)
      → IsHash b.header.block_hash
      → find_hash ledger b.header.block_hash ≡ some b
      → find_height ledger b.header.height ≡ some b
      → Cached env blocks numbers ledger
      → Cached env
          (env.block_lru.add blocks (encode_to_string b.header.block_hash) b)
          (env.height_lru.add numbers b.header.height b.header.block_hash)
          ledger
  add-Cached blocks numbers ledger b hb by_hash by_height old = record {
    blocks_true = λ h c hh e. block_found blocks numbers ledger b c h hb hh by_hash old e;
    heights_true = λ n h e. height_found blocks numbers ledger b n h by_height old e;
  }

module _ {env : ChainEnv} {tip : Option Block} {top : Int64} where
  pub write-Holds :
      (bc : BlockChain env) (ledger : Ledger) (h : Hash) (b : Block)
      → find_hash ledger h ≡ some b
      → Holds bc ledger tip top
      → Holds (write_block_cache bc b) ledger tip top
  write-Holds bc ledger h b e r =
      let own : b.header.block_hash ≡ h = find_hash-hash_of ledger h b e in
      let by_hash : find_hash ledger b.header.block_hash ≡ some b = ap (find_hash ledger) own ∙ e in
      record {
        stored = r.stored;
        cached =
            add-Cached bc.block_cache bc.block_height_map ledger b
              ((find_hash-IsMember ledger h b r.stored.members e).0) by_hash
              (find_height-find_hash ledger h b r.stored.growing e) r.cached;
        tip_eq = r.tip_eq;
        top_eq = r.top_eq;
      }

  touch-Holds :
      (bc : BlockChain env) (ledger : Ledger) (key : Bytes)
      → Holds bc ledger tip top
      → Holds (record bc { block_cache = env.block_lru.touch bc.block_cache key }) ledger tip top
  touch-Holds bc ledger key r = record {
    stored = r.stored;
    cached = record {
      blocks_true = λ h b hh e.
          r.cached.blocks_true h b hh
            (sym (env.block_lru.find-touch bc.block_cache key (encode_to_string h)) ∙ e);
      heights_true = λ n h e. r.cached.heights_true n h e;
    };
    tip_eq = r.tip_eq;
    top_eq = r.top_eq;
  }

  from_db-Answers :
      (bc : BlockChain env) (ledger : Ledger) (h : Hash) (o : Option Block)
      → find_hash ledger h ≡ o
      → Holds bc ledger tip top
      → Answers ledger o tip top (block_from_db bc (map_option env.serialize_block o))
  unfolding block_from_db
  from_db-Answers bc ledger h none e r = (refl, r)
  from_db-Answers bc ledger h (some b) e r =
      subst (λ (c : Block). Answers ledger (some b) tip top (write_block_cache bc c, some c))
        (sym
          (env.deserialize-serialize_block b (find_hash-IsMember ledger h b r.stored.members e).2))
        (refl, write-Holds bc ledger h b e r)

  from_cache-Answers :
      (bc : BlockChain env) (ledger : Ledger) (h : Hash) (o : Option Block)
      → IsHash h
      → ((b : Block) → o ≡ some b → find_hash ledger h ≡ some b)
      → Holds bc ledger tip top
      → Answers ledger (find_hash ledger h) tip top (block_from_cache bc h o)
  unfolding block_from_cache
  from_cache-Answers bc ledger h (some b) hh e r = (sym (e b refl), r)
  from_cache-Answers bc ledger h none hh e r =
      subst (λ (v : Option Bytes). Answers ledger (find_hash ledger h) tip top (block_from_db bc v))
        (sym (r.stored.hashes h hh)) (from_db-Answers bc ledger h (find_hash ledger h) refl r)

  pub get_block_by_hash-Answers :
      (bc : BlockChain env) (ledger : Ledger) (h : Hash)
      → Holds bc ledger tip top
      → IsHash h
      → Answers ledger (find_hash ledger h) tip top (get_block_by_hash bc h)
  unfolding get_block_by_hash
  get_block_by_hash-Answers bc ledger h r hh =
      from_cache-Answers
        (record bc { block_cache = env.block_lru.touch bc.block_cache (encode_to_string h) }) ledger
        h (env.block_lru.find bc.block_cache (encode_to_string h)) hh
        (λ b e. r.cached.blocks_true h b hh e) (touch-Holds bc ledger (encode_to_string h) r)

module _ {env : ChainEnv} where
  -- On a chain that represents a ledger, GetBlockByHash of 32 bytes, with its caches and its
  -- database, returns the block of the ledger that has the hash, or none, and the chain
  -- represents the same ledger afterwards.
  pub get_block_by_hash-find_hash :
      (bc : BlockChain env) (ledger : Ledger) (h : Hash)
      → Represents bc ledger
      → IsHash h
      → ((get_block_by_hash bc h).1 ≡ find_hash ledger h)
        × Represents (get_block_by_hash bc h).0 ledger
  get_block_by_hash-find_hash bc ledger h r hh = get_block_by_hash-Answers bc ledger h r hh
