-- ===== src/Merkle/Coverage.antt =====
-- Which transactions the root of a block commits to: only the first half of them.
use go_norn.Prelude.{
  ℕ, zero, suc, ◌+◌, ◌*◌, ◌/◌, ◌%◌, ◌≤◌, ◌<◌, ◌≡◌, refl, sym, ap, ◌∙◌, subst, List, [], ◌∷◌, ◌++◌,
  arith, length, length-append, Bool-cases, leb, leb_false→lt, inl, inr, replicate, ◌==◌,
  if◌then◌else◌,
}
use go_norn.Prelude.Bytes.{Bytes}
use go_norn.Common.{Transaction}
use go_norn.Merkle.{
  at, level_length, log2, fill_level, next_level, build_loop, tx_hashes, build_merkle_tree,
}
use go_norn.Merkle.Rounds.{length-tx_hashes, build_merkle_tree-nonempty}

level_length_lem : (nodes : List Bytes) → level_length nodes ≡ (length nodes + 1) / 2
level_length_lem nodes = ground arith

-- The hash of a transaction of the front does not depend on what follows it.
at-front :
    (front back : List Transaction) (j : ℕ)
    → j < length front
    → at (tx_hashes (front ++ back)) j ≡ at (tx_hashes front) j
at-front [] back j h = absurd (omega arith)
at-front (tx ∷ front) back zero h = refl
at-front (tx ∷ front) back (suc j) h = at-front front back j (omega arith)

module _ (sha256 : Bytes → Bytes) where
  -- A level is filled from the nodes below `levels` alone.
  fill_level_agree :
      (nodes nodes' : List Bytes) (levels rounds j : ℕ) (level : List Bytes)
      → ((i : ℕ) → i < levels → at nodes i ≡ at nodes' i)
      → j + 2 * rounds ≤ levels + 1
      → fill_level sha256 nodes levels rounds j level
        ≡ fill_level sha256 nodes' levels rounds j level
  unfolding fill_level
  fill_level_agree nodes nodes' levels zero j level same h = refl
  fill_level_agree nodes nodes' levels (suc k) j level same h =
      elim (Bool-cases (leb levels (j + 1))) [
        | inl last ↦
            rw (last, same j (omega arith))
              (fill_level_agree nodes nodes' levels k (j + 2) _ same (omega arith))
        | inr more ↦
            rw (more, same j (omega arith), same (j + 1) (leb_false→lt _ _ more))
              (fill_level_agree nodes nodes' levels k (j + 2) _ same (omega arith))
      ]

  next_level_agree :
      (nodes nodes' : List Bytes)
      → length nodes ≡ length nodes'
      → ((i : ℕ) → i < level_length nodes → at nodes i ≡ at nodes' i)
      → next_level sha256 nodes ≡ next_level sha256 nodes'
  unfolding next_level
  next_level_agree nodes nodes' l same =
      let filled =
        fill_level_agree nodes nodes' (level_length nodes) ((level_length nodes + 1) / 2) 0
          (replicate (level_length nodes) []) same (omega arith) in
      filled
      ∙ ap
          (λ (n : ℕ).
            let m : ℕ = if n % 2 == 0 then n / 2 else n / 2 + 1 in
            fill_level sha256 nodes' m ((m + 1) / 2) 0 (replicate m []))
          l

  build_loop_agree :
      (k : ℕ) (nodes nodes' : List Bytes)
      → next_level sha256 nodes ≡ next_level sha256 nodes'
      → build_loop sha256 (suc k) nodes ≡ build_loop sha256 (suc k) nodes'
  unfolding build_loop
  build_loop_agree k nodes nodes' e = rw e refl

-- Two blocks that share a nonempty front of transactions, followed by as many transactions of their own
-- as each other and at most as many as the front has, have the same Merkle root: whatever the hash
-- function is, the root commits to the first half of the transactions, rounded up, and to no other.
pub build_merkle_tree-front :
    (sha256 : Bytes → Bytes) (front back back' : List Transaction)
    → 0 < length front
    → length back ≡ length back'
    → length back ≤ length front
    → build_merkle_tree sha256 (front ++ back) ≡ build_merkle_tree sha256 (front ++ back')
build_merkle_tree-front sha256 front back back' some_txs l fits =
    let n : length (front ++ back) ≡ length (front ++ back') =
      omega (arith, length-append front back, length-append front back') in
    let same =
      next_level_agree sha256 (tx_hashes (front ++ back)) (tx_hashes (front ++ back'))
        (length-tx_hashes (front ++ back) ∙ n ∙ sym (length-tx_hashes (front ++ back')))
        (λ i h.
          let m : i < (length (tx_hashes (front ++ back)) + 1) / 2 =
            subst (λ (q : ℕ). i < q) (level_length_lem (tx_hashes (front ++ back))) h in
          let inside : i < length front =
            omega (arith, m, length-tx_hashes (front ++ back), length-append front back) in
          at-front front back i inside ∙ sym (at-front front back' i inside)) in
    build_merkle_tree-nonempty sha256 (front ++ back) (omega (arith, length-append front back))
    ∙ ap (λ nodes. at nodes 0)
        (build_loop_agree sha256 (log2 (length (front ++ back)) (length (front ++ back)))
          (tx_hashes (front ++ back)) (tx_hashes (front ++ back')) same)
    ∙ ap (λ (n : ℕ). at (build_loop sha256 (suc (log2 n n)) (tx_hashes (front ++ back'))) 0) n
    ∙ sym (
        build_merkle_tree-nonempty sha256 (front ++ back')
          (omega (arith, length-append front back')))
