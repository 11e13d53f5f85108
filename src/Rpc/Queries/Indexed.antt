-- ===== src/Rpc/Queries/Indexed.antt =====
-- rpc/blockchain.go: a transaction by its place in a block, against the block printed in full.
use go_norn.Prelude.{
  ℕ, zero, suc, ◌+◌, ◌≤◌, ◌<◌, ◌≡◌, refl, ap, ◌∙◌, false, Option, none, some, List, [], ◌∷◌,
  Bool-cases, inl, inr, arith, length, get_elem?, leb, leb→le, leb_false→lt,
}
use native.Mathlib.Nat.{zero-add}
use go_norn.Prelude.Int64.{Int64, modulus}
use go_norn.Prelude.Bytes.{encode_to_string, decode_string, decode-encode}
use go_norn.Prelude.Outcome.{done}
use go_norn.Common.{Block, Transaction, Hash}
use go_norn.Chain.{ChainEnv, BlockChain, get_block_by_hash}
use go_norn.Chain.Keys.{IsHash}
use go_norn.Chain.Ledger.{Ledger, find_hash, find_height, find_height-height, Represents}
use go_norn.Chain.Lookups.{get_block_by_hash-find_hash, to_hash-IsHash}
use go_norn.Chain.Heights.{get_block_by_height-find_height}
use go_norn.Rpc.{
  Reply, ok, error, out_of_range, decode_failed, to_uint64, to_int64, hex_text, PbTransaction,
  print_all, placed, karmem_transaction2_protobuf,
}
use go_norn.Rpc.Queries.{
  GetTransactionReq, Stamped, print_indexed, print_elem, index_at_height, index_by_number,
  index_found, index_by_hash, index_of_bytes, answer_transaction_by_block_number_and_index,
  answer_transaction_by_block_hash_and_index,
}
use go_norn.Rpc.Queries.Blocks.{to_uint64-to_int64}

-- A printed transaction with its place written over.
abbrev pub at_place : Hash → ℕ → ℕ → PbTransaction → PbTransaction
at_place hash height index p = record p {
  block_hash = hex_text hash;
  height = height;
  index = index;
}

-- A place below the length holds a transaction.
elem_at :
    (txs : List Transaction) (i : ℕ)
    → i < length txs
    → (tx : Transaction) × (get_elem? txs i ≡ some tx)
elem_at [] i h = elim h [ ]
elem_at (tx ∷ txs) zero h = (tx, refl)
elem_at (tx ∷ txs) (suc i) h = elem_at txs i (omega arith)

-- The block printed in full lists the transactions in order, each with its place.
print_all-get_elem? :
    (block : Block) (txs : List Transaction) (from i : ℕ) (tx : Transaction)
    → get_elem? txs i ≡ some tx
    → get_elem? (print_all block from txs) i
      ≡ some (karmem_transaction2_protobuf (placed block (from + i) tx))
unfolding print_all
print_all-get_elem? block [] from i tx e = cc
print_all-get_elem? block (t ∷ ts) from zero tx e =
    let q : t ≡ tx = cc e in
    let z : from ≡ from + 0 = omega arith in
    ap (λ (x : Transaction). some (karmem_transaction2_protobuf (placed block from x))) q
    ∙ ap (λ (n : ℕ). some (karmem_transaction2_protobuf (placed block n tx))) z
print_all-get_elem? block (t ∷ ts) from (suc i) tx e =
    let z : from + 1 + i ≡ from + suc i = omega arith in
    print_all-get_elem? block ts (from + 1) i tx e
    ∙ ap (λ (n : ℕ). some (karmem_transaction2_protobuf (placed block n tx))) z

printed_placed :
    (block : Block) (i n : ℕ) (tx : Transaction)
    → i < modulus
    → to_uint64 block.header.height ≡ n
    → karmem_transaction2_protobuf (placed block i tx)
      ≡ at_place block.header.block_hash n i (karmem_transaction2_protobuf tx)
unfolding karmem_transaction2_protobuf
printed_placed block i n tx hi e = rw (e, to_uint64-to_int64 i hi) refl

-- The x of the prefix is no hexadecimal digit.
prefix_refused : (hash : Hash) → decode_string (hex_text hash) ≡ none
unfolding decode_string
prefix_refused hash = refl

no_elem_at : (txs : List Transaction) (i : ℕ) → length txs ≤ i → get_elem? txs i ≡ none
no_elem_at [] i h = refl
no_elem_at (tx ∷ txs) zero h = absurd (omega (arith, h))
no_elem_at (tx ∷ txs) (suc i) h = no_elem_at txs i (omega (arith, h))

-- What is answered for the transaction at an index.
abbrev pub elem_reply : ℕ → Option Transaction → Reply (Stamped PbTransaction)
elem_reply now none = error out_of_range
elem_reply now (some tx) = ok (now, karmem_transaction2_protobuf tx)

module _ {env : ChainEnv} (now : ℕ) where
  print_indexed-in_range :
      (bc : BlockChain env) (block : Block) (i : ℕ) (tx : Transaction)
      → i < length block.transactions
      → get_elem? block.transactions i ≡ some tx
      → print_indexed now bc block i ≡ done (bc, ok (now, karmem_transaction2_protobuf tx))
  unfolding print_indexed print_elem
  print_indexed-in_range bc block i tx h e =
      let low : leb (length block.transactions) i ≡ false = ground (arith, h) in rw (low, e) refl

  print_indexed_lem :
      (bc : BlockChain env) (block : Block) (i : ℕ)
      → print_indexed now bc block i ≡ done (bc, elem_reply now (get_elem? block.transactions i))
  print_indexed_lem bc block i = elim (Bool-cases (leb (length block.transactions) i)) [
    | inl high ↦
        let none_there =
          no_elem_at block.transactions i (leb→le (length block.transactions) i high) in
        unfold print_indexed in rw (high, none_there) refl
    | inr low ↦
        let there = elem_at block.transactions i (leb_false→lt (length block.transactions) i low) in
        rw there.1 (
          print_indexed-in_range bc block i there.0 (leb_false→lt (length block.transactions) i low)
            there.1)
  ]

  index_at_height-some :
      (i : ℕ) (r : BlockChain env × Option Block) (b : Block)
      → r.1 ≡ some b
      → index_at_height now i r ≡ print_indexed now r.0 b i
  unfolding index_at_height
  index_at_height-some i (bc, none) b e = cc e
  index_at_height-some i (bc, some c) b e =
      let q : c ≡ b = cc e in ap (λ (x : Block). print_indexed now bc x i) q

  -- On a chain that represents a ledger, where the ledger has a block b at the height that the request asks for,
  -- GetTransactionByBlockNumberAndIndex answers each index below the number of the block's transactions. The answer
  -- and the entry at this index in b printed in full differ at most in the place: the entry's hash, height
  -- and index are those of b, of the request and of the request. The chain represents the same ledger afterwards.
  pub answer_transaction_by_block_number_and_index-full :
      (bc : BlockChain env) (ledger : Ledger) (req : GetTransactionReq) (number index : ℕ)
      (b : Block)
      → Represents bc ledger
      → number < modulus
      → index < modulus
      → req.block_number ≡ some number
      → req.index ≡ some index
      → find_height ledger (to_int64 number) ≡ some b
      → index < length b.transactions
      → (bc' : BlockChain env) × (p : PbTransaction) × (answer_transaction_by_block_number_and_index
            now bc req
          ≡ done (bc', ok (now, p)))
        × (get_elem? (print_all b 0 b.transactions) index
            ≡ some (at_place b.header.block_hash number index p))
        × Represents bc' ledger
  unfolding answer_transaction_by_block_number_and_index index_by_number
  answer_transaction_by_block_number_and_index-full bc ledger req number index b r hn hi en ei eb
        h =
      let found = get_block_by_height-find_height bc ledger (to_int64 number) r (omega arith) in
      let tx = elem_at b.transactions index h in
      let height : to_uint64 b.header.height ≡ number =
        ap (λ (x : Int64). to_uint64 x) (find_height-height ledger (to_int64 number) b eb)
        ∙ to_uint64-to_int64 number hn in
      (
        found.0.0,
        karmem_transaction2_protobuf tx.0,
        rw (en, ei, found.1)
            (index_at_height-some index found.0 b (found.2 ∙ eb)
              ∙ print_indexed-in_range found.0.0 b index tx.0 h tx.1),
        print_all-get_elem? b b.transactions 0 index tx.0 tx.1
            ∙ ap some (rw zero-add (printed_placed b index number tx.0 hi height)),
        found.3,
      )

  index_found-some :
      (i : ℕ) (r : BlockChain env × Option Block) (b : Block)
      → r.1 ≡ some b
      → index_found now i r ≡ print_indexed now r.0 b i
  unfolding index_found
  index_found-some i (bc, none) b e = cc e
  index_found-some i (bc, some c) b e =
      let q : c ≡ b = cc e in ap (λ (x : Block). print_indexed now bc x i) q

  -- GetTransactionByBlockHashAndIndex takes the hash of a block of the ledger without the prefix 0x only: with it,
  -- as the node prints every hash, the text does not decode, whatever the hash. Without it, an index below the
  -- number of the block's transactions is answered with the transaction there, and any other is out of range.
  pub answer_transaction_by_block_hash_and_index-spelling :
      (bc : BlockChain env) (ledger : Ledger) (req : GetTransactionReq) (index : ℕ) (b : Block)
      → Represents bc ledger
      → IsHash b.header.block_hash
      → find_hash ledger b.header.block_hash ≡ some b
      → (answer_transaction_by_block_hash_and_index now bc
            (record req { block_hash = some (hex_text b.header.block_hash); index = some index })
          ≡ done (bc, error decode_failed))
        × ((bc' : BlockChain env) × (answer_transaction_by_block_hash_and_index now bc (record req {
          block_hash = some (encode_to_string b.header.block_hash);
          index = some index;
        })
              ≡ done (bc', elem_reply now (get_elem? b.transactions index)))
            × Represents bc' ledger)
  unfolding answer_transaction_by_block_hash_and_index index_by_hash index_of_bytes
  answer_transaction_by_block_hash_and_index-spelling bc ledger req index b r hh e =
      let found = get_block_by_hash-find_hash bc ledger b.header.block_hash r hh in
      (
        ap (index_of_bytes now index bc) (prefix_refused b.header.block_hash),
        (
          (get_block_by_hash bc b.header.block_hash).0,
          rw (decode-encode b.header.block_hash hh.1, to_hash-IsHash b.header.block_hash hh)
              (index_found-some index (get_block_by_hash bc b.header.block_hash) b (found.0 ∙ e)
                ∙ print_indexed_lem (get_block_by_hash bc b.header.block_hash).0 b index),
          found.1,
        ),
      )
