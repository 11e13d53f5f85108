-- ===== src/Rpc/Queries/Blocks.antt =====
-- rpc/blockchain.go: the answers about blocks, against the ledger that the chain represents.
use go_norn.Prelude.{
  ℕ, ◌%◌, ◌<◌, ◌≡◌, ◌≢◌, ◌⊎◌, inl, inr, refl, ap, ◌∙◌, Bool, false, Option, none, some, [], ◌∷◌,
  arith, length, ◌==◌, List, true,
}
use go_norn.Prelude.Int64.{modulus}
use go_norn.Prelude.Bytes.{Bytes, IsBytes, bytes_eq, encode_to_string, hex_digit, decode-encode}
use go_norn.Prelude.Outcome.{done, panicked}
use go_norn.Common.{Block, Hash}
use go_norn.Chain.{ChainEnv, BlockChain, get_block_by_hash}
use go_norn.Chain.Keys.{IsHash}
use go_norn.Chain.Ledger.{Ledger, find_hash, find_height, Represents}
use go_norn.Chain.Lookups.{get_block_by_hash-find_hash, to_hash-IsHash}
use go_norn.Chain.Heights.{get_block_by_height-find_height}
use go_norn.Rpc.{
  not_found, ok, error, Reply, to_uint64, to_int64, remove_prefix_if_exists, hex_text, PbBlock,
  karmem_block2_protobuf, PbTransaction, print_all,
}
use go_norn.Rpc.Queries.{
  GetBlockReq, Handled, Stamped, print_found, block_of_bytes, block_by_hash, block_by_number,
  print_at_height, answer_block_by_hash, answer_block_by_number, or_false,
}

-- A hash in hexadecimal, with the prefix that the node prints or without it.
abbrev pub Spells : Bytes → Hash → Type 0
Spells text hash = (text ≡ hex_text hash) ⊎ (text ≡ encode_to_string hash)

hex_digit-ne-x : (d : ℕ) → d < 16 → (hex_digit d == b'x') ≡ false
unfolding hex_digit
hex_digit-ne-x d h = ground arith

remove_prefix-hex_text :
    (hash : Hash) → remove_prefix_if_exists (hex_text hash) ≡ done (encode_to_string hash)
unfolding remove_prefix_if_exists bytes_eq
remove_prefix-hex_text hash = ground arith

remove_prefix-bare :
    (hash : Hash)
    → IsBytes hash
    → hash ≢ []
    → remove_prefix_if_exists (encode_to_string hash) ≡ done (encode_to_string hash)
unfolding remove_prefix_if_exists bytes_eq encode_to_string
remove_prefix-bare [] hb h = absurd (h refl)
remove_prefix-bare (b ∷ bs) hb h = ground (arith, hex_digit-ne-x (b % 16) (omega arith))

-- Both spellings are read as the hash.
pub remove_prefix-Spells :
    (text : Bytes) (hash : Hash)
    → IsHash hash
    → Spells text hash
    → remove_prefix_if_exists text ≡ done (encode_to_string hash)
remove_prefix-Spells text hash hh (inl e) =
    ap remove_prefix_if_exists e ∙ remove_prefix-hex_text hash
remove_prefix-Spells text hash hh (inr e) =
    ap remove_prefix_if_exists e
    ∙ remove_prefix-bare hash hh.1 (λ q. absurd (omega (arith, ap length q, hh.0)))

pub to_uint64-to_int64 : (n : ℕ) → n < modulus → to_uint64 (to_int64 n) ≡ n
to_uint64-to_int64 n h = omega arith

-- A block as a client sees it: the hashes in hexadecimal after 0x, the numbers as uint64s, and the transactions, each
-- with its place, only if the flag is given and true.
abbrev pub shown : Option Bool → List PbTransaction → Option (List PbTransaction)
shown (some true) txs = some txs
shown (some false) txs = none
shown none txs = none

abbrev pub seen_block : ℕ → Option Bool → Block → PbBlock
seen_block now flag b = record {
  header = record {
    timestamp = now;
    prev_block_hash = hex_text b.header.prev_block_hash;
    block_hash = hex_text b.header.block_hash;
    merkle_root = hex_text b.header.merkle_root;
    height = to_uint64 b.header.height;
    public = hex_text b.header.public_key;
    params = hex_text b.header.params;
    gas_limit = 0;
  };
  transactions = shown flag (print_all b 0 b.transactions);
}

shown-or_false :
    (now : ℕ) (flag : Option Bool) (b : Block)
    → karmem_block2_protobuf now b (or_false flag) ≡ seen_block now flag b
unfolding karmem_block2_protobuf
shown-or_false now (some true) b = refl
shown-or_false now (some false) b = refl
shown-or_false now none b = refl

-- What GetBlockByNumber answers for a height.
abbrev pub height_reply : ℕ → Option Bool → Option Block → Reply (Stamped PbBlock)
height_reply now flag none = error not_found
height_reply now flag (some b) = ok (now, seen_block now flag b)

module _ {env : ChainEnv} (now : ℕ) where
  -- What GetBlockByHash leaves for a hash.
  abbrev pub hash_reply : Bool → BlockChain env → Option Block → Handled env PbBlock
  hash_reply full bc none = panicked
  hash_reply full bc (some b) = done (bc, ok (now, karmem_block2_protobuf now b full))

  print_found-hash_reply :
      (full : Bool) (r : BlockChain env × Option Block) (o : Option Block)
      → r.1 ≡ o
      → print_found now (some full) r ≡ hash_reply full r.0 o
  unfolding print_found
  print_found-hash_reply full (bc, none) o e = ap (hash_reply full bc) e
  print_found-hash_reply full (bc, some b) o e = ap (hash_reply full bc) e

  -- On a chain that represents a ledger, GetBlockByHash of the hexadecimal text of 32 bytes, with or without the
  -- prefix 0x, and with the flag for the transactions given, prints the block of the ledger that has the hash. If
  -- the ledger has none, the handler panics. The chain represents the same ledger afterwards.
  pub answer_block_by_hash-find_hash :
      (bc : BlockChain env) (ledger : Ledger) (req : GetBlockReq) (text : Bytes) (hash : Hash)
      (full : Bool)
      → Represents bc ledger
      → IsHash hash
      → Spells text hash
      → req.hash ≡ some text
      → req.full ≡ some full
      → (bc' : BlockChain env) × (answer_block_by_hash now bc req
          ≡ hash_reply full bc' (find_hash ledger hash))
        × Represents bc' ledger
  unfolding answer_block_by_hash block_by_hash block_of_bytes
  answer_block_by_hash-find_hash bc ledger req text hash full r hh spelt eh ef =
      let found = get_block_by_hash-find_hash bc ledger hash r hh in
      (
        (get_block_by_hash bc hash).0,
        rw
            (
              eh,
              ef,
              remove_prefix-Spells text hash hh spelt,
              decode-encode hash hh.1,
              to_hash-IsHash hash hh,
            )
            (print_found-hash_reply full (get_block_by_hash bc hash) (find_hash ledger hash)
              found.0),
        found.1,
      )

  print_at_height-height_reply :
      (flag : Option Bool) (r : BlockChain env × Option Block) (o : Option Block)
      → r.1 ≡ o
      → print_at_height now (or_false flag) r ≡ done (r.0, height_reply now flag o)
  unfolding print_at_height
  print_at_height-height_reply flag (bc, none) o e =
      ap (λ (x : Option Block). done (bc, height_reply now flag x)) e
  print_at_height-height_reply flag (bc, some b) o e =
      ap (λ (p : PbBlock). done (bc, ok (now, p))) (shown-or_false now flag b)
      ∙ ap (λ (x : Option Block). done (bc, height_reply now flag x)) e

  -- On a chain that represents a ledger, GetBlockByNumber of a uint64 does not panic: it prints the block of the
  -- ledger at this height, its header, and its transactions exactly if the flag is given and true, and it is an error if the
  -- ledger has none.
  -- The chain represents the same ledger afterwards.
  pub answer_block_by_number-find_height :
      (bc : BlockChain env) (ledger : Ledger) (req : GetBlockReq) (number : ℕ)
      → Represents bc ledger
      → number < modulus
      → req.number ≡ some number
      → (bc' : BlockChain env) × (answer_block_by_number now bc req
          ≡ done (bc', height_reply now req.full (find_height ledger (to_int64 number))))
        × Represents bc' ledger
  unfolding answer_block_by_number block_by_number
  answer_block_by_number-find_height bc ledger req number r hn en =
      let found = get_block_by_height-find_height bc ledger (to_int64 number) r (omega arith) in
      (
        found.0.0,
        rw (en, found.1)
            (print_at_height-height_reply req.full found.0 (find_height ledger (to_int64 number))
              found.2),
        found.3,
      )
