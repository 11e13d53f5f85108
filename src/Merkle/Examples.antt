-- ===== src/Merkle/Examples.antt =====
-- Blocks of three transactions, and a stand-in for the hash function.
use go_norn.Prelude.{ℕ, suc, ◌+◌, ◌*◌, ◌≡◌, refl, List, [], ◌∷◌, ◌++◌, arith, length, replicate}
use go_norn.Prelude.Bytes.{Bytes}
use go_norn.Prelude.Int64.{int}
use go_norn.Common.{Transaction}
use go_norn.Merkle.{log2, build_loop, tx_hashes, build_merkle_tree}
use go_norn.Merkle.Rounds.{build_merkle_tree-Rooted}
use go_norn.Merkle.Coverage.{build_merkle_tree-front}

abbrev transaction : ℕ → Transaction
transaction n = record {
  body = record {
    hash = n ∷ [];
    address = [];
    receiver = [];
    gas = int 0;
    nonce = int 0;
    event = [];
    opt = [];
    state = [];
    payload = [];
    expire = int 0;
    height = int 0;
    index = int 0;
    block_hash = [];
    timestamp = int 0;
    public = [];
    signature = [];
  };
}

abbrev three : List Transaction
three = transaction 1 ∷ transaction 2 ∷ transaction 3 ∷ []

-- The sum of the bytes, 32 times.
abbrev sum : Bytes → ℕ
sum [] = 7
sum (b ∷ m) = b + sum m

abbrev digest : Bytes → Bytes
digest m = replicate 32 (sum m)

build_merkle_tree_run : build_merkle_tree digest three ≡ replicate 32 (32 * (1 + 2 + 7) + 7)
unfolding build_merkle_tree
build_merkle_tree_run = refl

build_merkle_tree-Rooted_example :
    (length (build_loop digest (suc (log2 3 3)) (tx_hashes three)) ≡ 1)
    × ((below : Bytes) × (build_merkle_tree digest three ≡ digest (below ++ [])))
    × (length (build_merkle_tree digest three) ≡ 32)
build_merkle_tree-Rooted_example = build_merkle_tree-Rooted digest three (λ m. refl) (omega arith)

build_merkle_tree-front_example :
    build_merkle_tree digest (transaction 1 ∷ transaction 2 ∷ transaction 3 ∷ [])
    ≡ build_merkle_tree digest (transaction 1 ∷ transaction 2 ∷ transaction 4 ∷ [])
build_merkle_tree-front_example =
    build_merkle_tree-front digest (transaction 1 ∷ transaction 2 ∷ []) (transaction 3 ∷ [])
      (transaction 4 ∷ []) (omega arith) refl (omega arith)
