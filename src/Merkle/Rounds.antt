-- ===== src/Merkle/Rounds.antt =====
-- The rounds that the code allows suffice: the tree always ends in one node, and the root is a hash.
use go_norn.Prelude.{
  ℕ, zero, suc, ◌+◌, ◌/◌, ◌^◌, ◌≤◌, ◌<◌, ◌≡◌, refl, ap, ◌∙◌, inl, inr, false, List, [], ◌∷◌, ◌++◌,
  leb, ◌==◌, arith, length, replicate, length-replicate, length-set, Bool-cases, ==_iff, leb→le,
  leb_false→lt,
}
use native.Mathlib.Nat.{pow-suc}
use go_norn.Prelude.Bytes.{Bytes}
use go_norn.Common.{Transaction}
use go_norn.Merkle.{
  at, level_length, log2, fill_level, next_level, build_loop, tx_hashes, build_merkle_tree,
}

module _ (sha256 : Bytes → Bytes) where
  pub length-fill_level :
      (nodes : List Bytes) (levels rounds j : ℕ) (level : List Bytes)
      → length (fill_level sha256 nodes levels rounds j level) ≡ length level
  unfolding fill_level
  length-fill_level nodes levels zero j level = refl
  length-fill_level nodes levels (suc k) j level =
      length-fill_level nodes levels k (j + 2) _ ∙ length-set level (j / 2) _

  pub length-next_level :
      (nodes : List Bytes) → length (next_level sha256 nodes) ≡ (length nodes + 1) / 2
  unfolding next_level
  length-next_level nodes =
      length-fill_level nodes (level_length nodes) ((level_length nodes + 1) / 2) 0
        (replicate (level_length nodes) [])
      ∙ length-replicate (level_length nodes) []
      ∙ ground arith

  fill_one :
      (nodes : List Bytes) (levels rounds : ℕ)
      → levels ≡ 1
      → rounds ≡ 1
      → at (fill_level sha256 nodes levels rounds 0 (replicate levels [])) 0
        ≡ sha256 (at nodes 0 ++ [])
  unfolding fill_level
  fill_one nodes levels rounds l r = rw (l, r)

  -- A level of one node is the hash of the first node below it, and of nothing else.
  root-next_level :
      (nodes : List Bytes)
      → length (next_level sha256 nodes) ≡ 1
      → at (next_level sha256 nodes) 0 ≡ sha256 (at nodes 0 ++ [])
  unfolding next_level
  root-next_level nodes e =
      let one : level_length nodes ≡ 1 = ground (arith, length-next_level nodes) in
      fill_one nodes (level_length nodes) ((level_length nodes + 1) / 2) one (omega arith)

  -- What the loop ends with: one node, the hash of one below it.
  record Rooted (nodes : List Bytes) : Type 0 where
    single : length nodes ≡ 1
    below : Bytes
    hashed : at nodes 0 ≡ sha256 (below ++ [])

  -- Enough rounds for the length reach one node.
  build_loop-Rooted :
      (k : ℕ) (nodes : List Bytes)
      → 0 < length nodes
      → length nodes ≤ 2 ^ suc k
      → Rooted (build_loop sha256 (suc k) nodes)
  unfolding build_loop
  build_loop-Rooted zero nodes h b =
      let one : length (next_level sha256 nodes) ≡ 1 = omega (arith, length-next_level nodes) in
      rw one (record { single = one; below = at nodes 0; hashed = root-next_level nodes one })
  build_loop-Rooted (suc k) nodes h b = elim (Bool-cases (length (next_level sha256 nodes) == 1)) [
    | inl stop ↦
        let one : length (next_level sha256 nodes) ≡ 1 = (==_iff _ _).0 stop in
        rw stop (record { single = one; below = at nodes 0; hashed = root-next_level nodes one })
    | inr more ↦ rw more (
        build_loop-Rooted k (next_level sha256 nodes) (omega (arith, length-next_level nodes))
          (omega (arith, length-next_level nodes, pow-suc 2 (suc k))))
  ]

-- n < 2 ^ (log2 n + 1)
lt-log2 : (k n : ℕ) → n ≤ k → n < 2 ^ suc (log2 k n)
unfolding log2
lt-log2 zero n h = omega arith
lt-log2 (suc k) n h = elim (Bool-cases (leb n 1)) [
  | inl small ↦ rw small (omega (arith, leb→le n 1 small))
  | inr large ↦ rw large (
      omega (
        arith,
        leb_false→lt n 1 large,
        lt-log2 k (n / 2) (omega (arith, leb_false→lt n 1 large)),
        pow-suc 2 (suc (log2 k (n / 2))),
      ))
]

pub length-tx_hashes : (txs : List Transaction) → length (tx_hashes txs) ≡ length txs
length-tx_hashes [] = refl
length-tx_hashes (tx ∷ txs) = omega (arith, length-tx_hashes txs)

-- The root of a nonempty block.
pub build_merkle_tree-nonempty :
    (sha256 : Bytes → Bytes) (txs : List Transaction)
    → 0 < length txs
    → build_merkle_tree sha256 txs
      ≡ at (build_loop sha256 (suc (log2 (length txs) (length txs))) (tx_hashes txs)) 0
unfolding build_merkle_tree
build_merkle_tree-nonempty sha256 txs h =
    let some_txs : (length txs == 0) ≡ false = ground arith in
    let rounds : log2 (length txs) (length txs) + 1 ≡ suc (log2 (length txs) (length txs)) =
      omega arith in
    rw (some_txs, rounds) refl

-- For one transaction or more the loop over the height ends in a level of exactly one node, so the rounds
-- suffice and reading the first node is in range; that node is a hash, and with a hash of 32 bytes the
-- root has 32 bytes, which the block header needs.
pub build_merkle_tree-Rooted :
    (sha256 : Bytes → Bytes) (txs : List Transaction)
    → ((m : Bytes) → length (sha256 m) ≡ 32)
    → 0 < length txs
    → (length (build_loop sha256 (suc (log2 (length txs) (length txs))) (tx_hashes txs)) ≡ 1)
      × ((below : Bytes) × (build_merkle_tree sha256 txs ≡ sha256 (below ++ [])))
      × (length (build_merkle_tree sha256 txs) ≡ 32)
build_merkle_tree-Rooted sha256 txs h some_txs =
    let n : ℕ = length txs in
    let v =
      build_loop-Rooted sha256 (log2 n n) (tx_hashes txs) (omega (arith, length-tx_hashes txs))
        (omega (arith, length-tx_hashes txs, lt-log2 n n (omega arith))) in
    let e = build_merkle_tree-nonempty sha256 txs some_txs ∙ v.hashed in
    (v.single, (v.below, e), ap length e ∙ h (v.below ++ []))
