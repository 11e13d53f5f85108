-- ===== src/Chain/Heights.antt =====
-- GetBlockByHeight and GetLatestBlock against the ledger that a chain represents.
use go_norn.Prelude.{
  ◌<◌, ◌≡◌, refl, sym, ap, ◌∙◌, subst, true, false, not, ◌&&◌, Option, none, some, [], ◌∷◌, ltb,
  ◌==◌, arith, Bool-cases, inl, inr,
}
use mathlib.Core.Option.{map as map_option}
use go_norn.Prelude.Int64.{Int64, InRange, minus}
use go_norn.Prelude.Bytes.{bytes_eq_refl}
use go_norn.Prelude.Outcome.{done}
use go_norn.Common.{Block, Hash}
use go_norn.Chain.{
  ChainEnv, BlockChain, get_block_by_hash, get_block_by_height, get_latest_block, height_from_db,
  height_from_cache, latest_or_db, latest_from_db, set_latest,
}
use go_norn.Chain.Ledger.{
  Ledger, find_hash, find_height, head, tip_height, hash_of, IsMember, Growing, Holds, Represents,
  find_height_above, find_hash-find_height,
}
use go_norn.Chain.Lookups.{Answers, to_hash-IsHash, get_block_by_hash-Answers}

up_to_tip :
    (ledger : Ledger) (n : Int64)
    → Growing ledger
    → ltb (tip_height ledger) n && not (tip_height ledger == minus 1) ≡ true
    → find_height ledger n ≡ none
unfolding find_height Growing
up_to_tip [] n g e = refl
up_to_tip (b ∷ bs) n g e =
    let above : b.header.height < n = ground (arith, e) in
    let differ : (b.header.height == n) ≡ false = ground (arith, above) in
    rw differ (find_height_above bs n b.header.height g.0 (omega (arith, above)))

head-find_hash : (b : Block) (bs : Ledger) → find_hash (b ∷ bs) b.header.block_hash ≡ some b
unfolding find_hash
head-find_hash b bs = rw (bytes_eq_refl b.header.block_hash) refl

module _ {env : ChainEnv} {tip : Option Block} {top : Int64} where
  touch_height-Holds :
      (bc : BlockChain env) (ledger : Ledger) (key : Int64)
      → Holds bc ledger tip top
      → Holds
          (record bc { block_height_map = env.height_lru.touch bc.block_height_map key })
          ledger
          tip
          top
  touch_height-Holds bc ledger key r = record {
    stored = r.stored;
    cached = record {
      blocks_true = λ h b hh e. r.cached.blocks_true h b hh e;
      heights_true = λ n h e.
          r.cached.heights_true n h (sym (env.height_lru.find-touch bc.block_height_map key n) ∙ e);
    };
    tip_eq = r.tip_eq;
    top_eq = r.top_eq;
  }

  -- At the hash of the block that is found at a height.
  at_hash-Answers :
      (bc : BlockChain env) (ledger : Ledger) (b : Block)
      → find_hash ledger b.header.block_hash ≡ some b
      → IsMember b
      → Holds bc ledger tip top
      → Answers ledger (some b) tip top (get_block_by_hash bc b.header.block_hash)
  at_hash-Answers bc ledger b e hb r =
      subst
        (λ (o : Option Block). Answers ledger o tip top (get_block_by_hash bc b.header.block_hash))
        e (get_block_by_hash-Answers bc ledger b.header.block_hash r hb.0)

  height_db-Answers :
      (bc : BlockChain env) (ledger : Ledger) (n : Int64) (o : Option Block)
      → find_height ledger n ≡ o
      → Holds bc ledger tip top
      → (r : BlockChain env × Option Block) × (height_from_db bc (map_option hash_of o) ≡ done r)
        × Answers ledger o tip top r
  unfolding height_from_db
  height_db-Answers bc ledger n none e r = ((bc, none), refl, (refl, r))
  height_db-Answers bc ledger n (some b) e r =
      let own = find_hash-find_height ledger n b r.stored.growing r.stored.members e in
      (
        get_block_by_hash bc b.header.block_hash,
        rw (to_hash-IsHash b.header.block_hash own.1.0) refl,
        at_hash-Answers bc ledger b own.0 own.1 r,
      )

  height_cache-Answers :
      (bc : BlockChain env) (ledger : Ledger) (n : Int64) (h : Hash) (o : Option Block)
      → find_height ledger n ≡ o
      → map_option hash_of o ≡ some h
      → Holds bc ledger tip top
      → Answers ledger o tip top (get_block_by_hash bc h)
  height_cache-Answers bc ledger n h none e q r = cc
  height_cache-Answers bc ledger n h (some b) e q r =
      let own = find_hash-find_height ledger n b r.stored.growing r.stored.members e in
      let same : b.header.block_hash ≡ h = cc q in
      subst (λ (k : Hash). Answers ledger (some b) tip top (get_block_by_hash bc k)) same
        (at_hash-Answers bc ledger b own.0 own.1 r)

  height_from_cache-Answers :
      (bc : BlockChain env) (ledger : Ledger) (n : Int64) (o : Option Hash)
      → InRange n
      → ((h : Hash) → o ≡ some h → map_option hash_of (find_height ledger n) ≡ some h)
      → Holds bc ledger tip top
      → (r : BlockChain env × Option Block) × (height_from_cache bc n o ≡ done r)
        × Answers ledger (find_height ledger n) tip top r
  unfolding height_from_cache
  height_from_cache-Answers bc ledger n (some h) hn e r = (
    get_block_by_hash bc h,
    refl,
    height_cache-Answers bc ledger n h (find_height ledger n) refl (e h refl) r,
  )
  height_from_cache-Answers bc ledger n none hn e r =
      let found = height_db-Answers bc ledger n (find_height ledger n) refl r in
      (found.0, ap (height_from_db bc) (r.stored.heights n hn) ∙ found.1, found.2)

module _ {env : ChainEnv} where
  -- On a chain that represents a ledger, GetBlockByHeight of an int64, which reads a hash from
  -- the cache or from the database and then the block, does not panic and returns the block of
  -- the ledger at the height, or none. The chain represents the same ledger afterwards.
  pub get_block_by_height-find_height :
      (bc : BlockChain env) (ledger : Ledger) (n : Int64)
      → Represents bc ledger
      → InRange n
      → (r : BlockChain env × Option Block) × (get_block_by_height bc n ≡ done r)
        × (r.1 ≡ find_height ledger n)
        × Represents r.0 ledger
  unfolding get_block_by_height
  get_block_by_height-find_height bc ledger n r hn =
      elim (Bool-cases (ltb bc.latest_height n && not (bc.latest_height == minus 1))) [
        | inl above ↦
            let t = sym (ap (λ (k : Int64). ltb k n && not (k == minus 1)) r.top_eq) ∙ above in
            ((bc, none), rw above refl, sym (up_to_tip ledger n r.stored.growing t), r)
        | inr below ↦
            let found =
              height_from_cache-Answers
                (record bc { block_height_map = env.height_lru.touch bc.block_height_map n }) ledger
                n (env.height_lru.find bc.block_height_map n) hn
                (λ h e. r.cached.heights_true n h e) (touch_height-Holds bc ledger n r) in
            (found.0, rw below found.1, found.2.0, found.2.1)
      ]

  set_latest-head :
      (bc : BlockChain env) (o : Option Block) (b : Block) (bs : Ledger)
      → Answers (b ∷ bs) (some b) none (minus 1) (bc, o)
      → Answers (b ∷ bs) (some b) (some b) b.header.height (set_latest (bc, o))
  unfolding set_latest
  set_latest-head bc none b bs h = let e = h.0 in cc e
  set_latest-head bc (some c) b bs h = (
    h.0,
    record {
      stored = h.1.stored;
      cached = h.1.cached;
      tip_eq = h.0;
      top_eq = let q : c ≡ b = cc (h.0) in ap (λ (x : Block). x.header.height) q;
    },
  )

  -- On a chain that has just been opened, GetLatestBlock reads the latest block back.
  pub get_latest_block-opened :
      (bc : BlockChain env) (ledger : Ledger)
      → Holds bc ledger none (minus 1)
      → (r : BlockChain env × Option Block) × (get_latest_block bc ≡ done r)
        × (r.1 ≡ head ledger)
        × Represents r.0 ledger
  unfolding get_latest_block
  get_latest_block-opened bc ledger r =
      let found = latest_db ledger r in
      (
        found.0,
        ap (latest_or_db bc) r.tip_eq ∙ ap (latest_from_db bc) r.stored.latest ∙ found.1,
        found.2,
        found.3,
      )
    where
      latest_db :
          (l : Ledger)
          → Holds bc l none (minus 1)
          → (s : BlockChain env × Option Block) × (latest_from_db bc (map_option hash_of (head l))
              ≡ done s)
            × (s.1 ≡ head l)
            × Represents s.0 l
      latest_db [] h = ((bc, none), refl, refl, h)
      latest_db (b ∷ bs) h =
          let read = at_hash-Answers bc (b ∷ bs) b (head-find_hash b bs) (h.stored.members.0) h in
          let looked = get_block_by_hash bc b.header.block_hash in
          let after = set_latest-head looked.0 looked.1 b bs read in
          (
            set_latest (get_block_by_hash bc b.header.block_hash),
            rw (to_hash-IsHash b.header.block_hash h.stored.members.0.0) refl,
            after.0,
            after.1,
          )

  -- On a chain that represents a ledger, it returns the head.
  pub get_latest_block-head :
      (bc : BlockChain env) (ledger : Ledger)
      → Represents bc ledger
      → get_latest_block bc ≡ done (bc, head ledger)
  unfolding get_latest_block latest_or_db latest_from_db
  get_latest_block-head bc [] r =
      ap (latest_or_db bc) r.tip_eq ∙ ap (latest_from_db bc) r.stored.latest
  get_latest_block-head bc (b ∷ bs) r = ap (latest_or_db bc) r.tip_eq
