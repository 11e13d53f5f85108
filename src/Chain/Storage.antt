-- ===== src/Chain/Storage.antt =====
-- What the batch of insertBlock does to the database and the write to the caches.
use go_norn.Prelude.{
  ℕ, ◌+◌, ◌<◌, ◌≡◌, ◌≢◌, refl, sym, ap, ◌∙◌, Bool, true, false, Option, none, some, List, [], ◌∷◌,
  ◌==◌, All, if◌then◌else◌, arith, Bool-cases, inl, inr, ==_iff,
}
use mathlib.Core.Option.{map as map_option}
use go_norn.Prelude.Int64.{Int64, InRange}
use go_norn.Prelude.Bytes.{Bytes, bytes_eq, bytes_eq→eq, bytes_eq_refl}
use go_norn.Common.{Block, Transaction, Hash}
use go_norn.TxPool.{TxPool, remove_tx}
use go_norn.DataProcessor.{block_hash2_db_key}
use go_norn.Chain.{ChainEnv, Db, put, batch_insert, block_height2_db_key, latest_key}
use go_norn.Chain.Insert.{insert_txs, entries}
use go_norn.Chain.Keys.{
  IsHash, IsTxEntry, first, batch_insert_other, put_self, put_other, hash_key-height_key,
  hash_key-latest_key, height_key-latest_key, hash_key_injective, height_key_injective,
}
use go_norn.Chain.Ledger.{
  Ledger, find_hash, find_height, tip_height, hash_of, IsMember, Growing, Stored, Cached,
  find_height_above,
}

-- Below the height of a block that is above the latest one.
below_tip :
    (ledger : Ledger) (n : Int64)
    → Growing ledger
    → tip_height ledger < n
    → All (λ c. c.header.height < n) ledger
unfolding Growing
below_tip [] n g h = tt
below_tip (b ∷ bs) n g h = (h, weaken bs g.0)
  where
    weaken :
        (cs : Ledger)
        → All (λ c. c.header.height < b.header.height) cs
        → All (λ c. c.header.height < n) cs
    weaken [] q = tt
    weaken (c ∷ cs) q = (omega (arith, q.0, h), weaken cs q.1)

module _ (env : ChainEnv) where
  insert_txs-IsTxEntry :
      (block : Block) (idx : ℕ) (txs : List Transaction) (pool : TxPool)
      → All IsTxEntry ((insert_txs env block idx txs pool).1)
  unfolding insert_txs IsTxEntry first
  insert_txs-IsTxEntry block idx [] pool = tt
  insert_txs-IsTxEntry block idx (tx ∷ txs) pool =
      (refl, insert_txs-IsTxEntry block (idx + 1) txs (remove_tx pool tx.body.hash))

  module _ (db : Db) (block : Block) (txs : List (Bytes × Bytes)) (own : All IsTxEntry txs) where
    -- The database before the batch's transactions.
    abbrev written : Db
    written =
        put
          (put (put db (block_hash2_db_key block.header.block_hash) (env.serialize_block block))
            latest_key block.header.block_hash)
          (block_height2_db_key block.header.height) block.header.block_hash

    abbrev db_after : Db
    db_after = batch_insert db (entries env block txs)

    db_after-written : (k : Bytes) → first k ≢ b't' → db_after k ≡ written k
    unfolding batch_insert
    db_after-written k ne = batch_insert_other txs written k own ne

    after-hash :
        (h : Hash)
        → IsHash h
        → db_after (block_hash2_db_key h) ≡ (
            if bytes_eq block.header.block_hash h
            then some (env.serialize_block block)
            else db (block_hash2_db_key h))
    unfolding first
    after-hash h hh =
        let key = block_hash2_db_key h in
        db_after-written key (λ e. absurd (omega (arith, e)))
        ∙ put_other
            (put (put db (block_hash2_db_key block.header.block_hash) (env.serialize_block block))
              latest_key block.header.block_hash)
            (block_height2_db_key block.header.height) block.header.block_hash key
            (λ e. hash_key-height_key h block.header.height hh (sym e))
        ∙ put_other
            (put db (block_hash2_db_key block.header.block_hash) (env.serialize_block block))
            latest_key block.header.block_hash key (λ e. hash_key-latest_key h (sym e))
        ∙ elim (Bool-cases (bytes_eq block.header.block_hash h)) [
          | inl same ↦
              let q : block.header.block_hash ≡ h = bytes_eq→eq block.header.block_hash h same in
              rw (same, ← q)
                (put_self db (block_hash2_db_key block.header.block_hash)
                  (env.serialize_block block))
          | inr other ↦ rw other (
              put_other db (block_hash2_db_key block.header.block_hash) (env.serialize_block block)
                key
                (λ e.
                  let q : block.header.block_hash ≡ h =
                    hash_key_injective block.header.block_hash h e in
                  let yes : bytes_eq block.header.block_hash h ≡ true =
                    rw (← q) (bytes_eq_refl block.header.block_hash) in
                  cc (other, yes)))
        ]

    after-height :
        (n : Int64)
        → InRange n
        → IsMember block
        → db_after (block_height2_db_key n) ≡ (
            if block.header.height == n
            then some block.header.block_hash
            else db (block_height2_db_key n))
    unfolding first block_height2_db_key
    after-height n hn hb =
        let key = block_height2_db_key n in
        let before =
          put db (block_hash2_db_key block.header.block_hash) (env.serialize_block block) in
        db_after-written key (λ e. absurd (omega (arith, e)))
        ∙ elim (Bool-cases (block.header.height == n)) [
          | inl same ↦
              let q : block.header.height ≡ n = (==_iff block.header.height n).0 same in
              rw (same, ← q)
                (put_self (put before latest_key block.header.block_hash)
                  (block_height2_db_key block.header.height) block.header.block_hash)
          | inr other ↦ rw other (
              put_other (put before latest_key block.header.block_hash)
                (block_height2_db_key block.header.height) block.header.block_hash key
                (λ e. ground (arith, other, height_key_injective block.header.height n hb.1 hn e))
              ∙ put_other before latest_key block.header.block_hash key
                  (λ e. height_key-latest_key n (sym e))
              ∙ put_other db (block_hash2_db_key block.header.block_hash)
                  (env.serialize_block block) key
                  (hash_key-height_key block.header.block_hash n hb.0))
        ]

    after-latest : db_after latest_key ≡ some block.header.block_hash
    unfolding first
    after-latest =
        let before =
          put db (block_hash2_db_key block.header.block_hash) (env.serialize_block block) in
        db_after-written latest_key (λ e. absurd (omega (arith, e)))
        ∙ put_other (put before latest_key block.header.block_hash)
            (block_height2_db_key block.header.height) block.header.block_hash latest_key
            (height_key-latest_key block.header.height)
        ∙ put_self before latest_key block.header.block_hash

  choose :
      (t : Bool) (block : Block) (o : Option Block) (v : Option Bytes)
      → v ≡ map_option env.serialize_block o
      → (if t then some (env.serialize_block block) else v)
        ≡ map_option env.serialize_block (if t then some block else o)
  choose true block o v e = refl
  choose false block o v e = e

  choose_hash :
      (t : Bool) (block : Block) (o : Option Block) (v : Option Bytes)
      → v ≡ map_option hash_of o
      → (if t then some block.header.block_hash else v)
        ≡ map_option hash_of (if t then some block else o)
  choose_hash true block o v e = refl
  choose_hash false block o v e = e

  -- The database after the batch holds the ledger with the block in front.
  pub stored_insert :
      (db : Db) (ledger : Ledger) (block : Block) (pool : TxPool)
      → Stored env db ledger
      → IsMember block
      → find_hash ledger block.header.block_hash ≡ none
      → tip_height ledger < block.header.height
      → Stored env
          (batch_insert db (entries env block ((insert_txs env block 0 block.transactions pool).1)))
          (block ∷ ledger)
  unfolding Growing find_hash find_height
  stored_insert db ledger block pool s hb fresh above =
      let txs = (insert_txs env block 0 block.transactions pool).1 in
      let own = insert_txs-IsTxEntry block 0 block.transactions pool in
      record {
        members = (hb, s.members);
        growing = (below_tip ledger block.header.height s.growing above, fresh, s.growing);
        hashes = λ h hh.
            after-hash db block txs own h hh
            ∙ choose (bytes_eq block.header.block_hash h) block (find_hash ledger h)
                (db (block_hash2_db_key h)) (s.hashes h hh);
        heights = λ n hn.
            after-height db block txs own n hn hb
            ∙ choose_hash (block.header.height == n) block (find_height ledger n)
                (db (block_height2_db_key n)) (s.heights n hn);
        latest = after-latest db block txs own;
      }

  -- What the caches hold stays true when a new block comes on top.
  pub grow-Cached :
      (blocks : env.block_lru.Cache) (numbers : env.height_lru.Cache) (ledger : Ledger)
      (block : Block)
      → Growing ledger
      → find_hash ledger block.header.block_hash ≡ none
      → tip_height ledger < block.header.height
      → Cached env blocks numbers ledger
      → Cached env blocks numbers (block ∷ ledger)
  unfolding find_hash find_height
  grow-Cached blocks numbers ledger block g fresh above c = record {
    blocks_true = λ h b hh e. keep_hash h b (c.blocks_true h b hh e);
    heights_true = λ n h e. keep_height n h (find_height ledger n) refl (c.heights_true n h e);
  }
    where
      keep_hash :
          (h : Hash) (b : Block)
          → find_hash ledger h ≡ some b
          → find_hash (block ∷ ledger) h ≡ some b
      keep_hash h b e = elim (Bool-cases (bytes_eq block.header.block_hash h)) [
        | inl same ↦
            let q : block.header.block_hash ≡ h = bytes_eq→eq block.header.block_hash h same in
            let gone : find_hash ledger h ≡ none = sym (ap (find_hash ledger) q) ∙ fresh in
            cc (gone, e)
        | inr other ↦ rw other e
      ]

      gone_height : find_height ledger block.header.height ≡ none
      gone_height =
          find_height_above ledger block.header.height block.header.height
            (below_tip ledger block.header.height g above) (omega arith)

      keep_height :
          (n : Int64) (h : Hash) (o : Option Block)
          → find_height ledger n ≡ o
          → map_option hash_of o ≡ some h
          → map_option hash_of (find_height (block ∷ ledger) n) ≡ some h
      keep_height n h o found e = elim (Bool-cases (block.header.height == n)) [
        | inl same ↦
            let q : block.header.height ≡ n = (==_iff block.header.height n).0 same in
            let gone : o ≡ none = sym found ∙ sym (ap (find_height ledger) q) ∙ gone_height in
            let nothing : map_option hash_of o ≡ none = ap (map_option hash_of) gone in
            cc (nothing, e)
        | inr other ↦ rw (other, found) e
      ]
