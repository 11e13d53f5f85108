-- ===== src/Merkle.antt =====
-- core/merkle.go: the Merkle root of a block's transactions. The children of a node are stored and
-- never read, so a node is its hash; a node of a new level that is never written holds no bytes.
pub mod Rounds
pub mod Coverage
mod Examples
use go_norn.Prelude.{
  ℕ, zero, suc, ◌+◌, ◌-◌, ◌*◌, ◌/◌, ◌%◌, Bool, true, false, Option, none, some, List, [], ◌∷◌, ◌++◌,
  map, leb, ◌==◌, if◌then◌else◌, length, get_elem?, set, replicate,
}
use go_norn.Prelude.Bytes.{Bytes}
use go_norn.Common.{Transaction}

-- nodes[j]
abbrev pub at : List Bytes → ℕ → Bytes
at nodes j = elim (get_elem? nodes j) [ none ↦ [] | some h ↦ h ]

-- The length of the next level: half, rounded up.
abbrev pub level_length : List Bytes → ℕ
level_length nodes = if length nodes % 2 == 0 then length nodes / 2 else length nodes / 2 + 1

-- int(math.Log2(float64(n))), with `k` at least the number of halvings.
unfoldable pub log2 : ℕ → ℕ → ℕ
log2 zero n = 0
log2 (suc k) n = let rest = log2 k (n / 2) in if leb n 1 then 0 else suc rest

-- The hashes that the lowest level holds.
abbrev pub tx_hashes : List Transaction → List Bytes
tx_hashes = map λ tx. tx.body.hash

-- crypto/sha256 is a parameter.
module _ (sha256 : Bytes → Bytes) where
  -- mergeHash
  unfoldable pub merge_hash : Bytes → Bytes → Bytes
  merge_hash left right = sha256 (left ++ right)

  -- for j := 0; j < levelLength; j += 2, with `rounds` values of j to go.
  unfoldable pub fill_level : (nodes : List Bytes) (levels rounds j : ℕ) → List Bytes → List Bytes
  unfolding merge_hash
  fill_level nodes levels zero j level = level
  fill_level nodes levels (suc k) j level =
      let n =
        if leb levels (j + 1)
        then merge_hash (at nodes j) []
        else merge_hash (at nodes j) (at nodes (j + 1)) in
      fill_level nodes levels k (j + 2) (set level (j / 2) n)

  -- One level of the tree from the one below it.
  unfoldable pub next_level : List Bytes → List Bytes
  unfolding fill_level
  next_level nodes =
      let levels = level_length nodes in
      fill_level nodes levels ((levels + 1) / 2) 0 (replicate levels [])

  -- The loop over the height, which stops at a level of one node.
  unfoldable pub build_loop : ℕ → List Bytes → List Bytes
  unfolding next_level
  build_loop zero nodes = nodes
  build_loop (suc k) nodes =
      let level = next_level nodes in
      let rest = build_loop k level in if length level == 1 then level else rest

  -- BuildMerkleTree
  unfoldable pub build_merkle_tree : List Transaction → Bytes
  unfolding build_loop log2
  build_merkle_tree txs =
      if length txs == 0
      then replicate 32 0
      else at (build_loop (log2 (length txs) (length txs) + 1) (tx_hashes txs)) 0
