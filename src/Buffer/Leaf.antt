-- ===== src/Buffer/Leaf.antt =====
-- What GetPriorityLeaf returns, for packaging the next block.
use go_norn.Prelude.{
  ℕ, zero, suc, ◌+◌, ◌-◌, ◌≤◌, ◌<◌, ◌≡◌, refl, inl, inr, Option, some, arith, Bool-cases,
  Option-cases, ltb, ltb→lt, ltb_false→le,
}
use go_norn.Prelude.Int64.{Int64}
use go_norn.Common.{Block}
use go_norn.Buffer.{Env, BlockBuffer, scan_leaf, get_priority_leaf}

-- No height from `low + 1` to `high` that is below `now` has a selected block.
abbrev pub NoneBelow : (Int64 → Option Block) → Int64 → Int64 → Int64 → Type 0
NoneBelow m now low high = (k : Int64) (x : Block) → low < k → k ≤ high → m k ≡ some x → now ≤ k

-- The leaf is the selected block of the greatest height in the range that is below `now`, or, if there
-- is none, the latest block.
pub data IsLeaf (m : Int64 → Option Block) (now low high : Int64) (latest leaf : Block)
    : Type 0 where
  at_height :
      (h : Int64)
      → low < h
      → h ≤ high
      → h < now
      → m h ≡ some leaf
      → NoneBelow m now h high
      → IsLeaf m now low high latest leaf
  at_latest : leaf ≡ latest → NoneBelow m now low high → IsLeaf m now low high latest leaf

-- One more height at the top, which has no leaf.
wider :
    (m : Int64 → Option Block) (now low high : Int64)
    → ((x : Block) → m (suc high) ≡ some x → now ≤ suc high)
    → NoneBelow m now low high
    → NoneBelow m now low (suc high)
wider m now low high late f k x lo hi e = elim (Bool-cases (ltb high k)) [
  | inl top ↦
      let is_top : k ≡ suc high = omega (arith, ltb→lt high k top) in
      rw is_top (late x (rw is_top at e))
  | inr inside ↦ f k x lo (ltb_false→le high k inside) e
]

widen :
    (m : Int64 → Option Block) (now low high : Int64) (latest leaf : Block)
    → ((x : Block) → m (suc high) ≡ some x → now ≤ suc high)
    → IsLeaf m now low high latest leaf
    → IsLeaf m now low (suc high) latest leaf
widen m now low high latest leaf late (at_height h a b c e f) =
    at_height h a (omega arith) c e (wider m now h high late f)
widen m now low high latest leaf late (at_latest e f) = at_latest e (wider m now low high late f)

top-IsLeaf :
    (m : Int64 → Option Block) (now low high : Int64) (latest x : Block)
    → low ≤ high
    → m (suc high) ≡ some x
    → suc high < now
    → IsLeaf m now low (suc high) latest x
top-IsLeaf m now low high latest x h e early =
    at_height (suc high) (omega arith) (omega arith) early e (λ k y lo hi q. absurd (omega arith))

scan_leaf-IsLeaf :
    (m : Int64 → Option Block) (now low : Int64) (latest : Block) (left height : ℕ)
    → height ≡ low + left
    → IsLeaf m now low height latest (scan_leaf m now latest left height)
unfolding scan_leaf
scan_leaf-IsLeaf m now low latest zero height e =
    at_latest refl (λ k x lo hi q. absurd (omega arith))
scan_leaf-IsLeaf m now low latest (suc left) zero e = absurd (omega arith)
scan_leaf-IsLeaf m now low latest (suc left) (suc high) e =
    let below : suc high - 1 ≡ high = omega arith in
    let rest = scan_leaf-IsLeaf m now low latest left high (omega arith) in
    elim (Option-cases (m (suc high))) [
      | inl empty ↦
          rw (empty, scan_leaf)
            (rw below
              (widen m now low high latest (scan_leaf m now latest left high) (λ x q. cc) rest))
      | inr (block, here) ↦ elim (Bool-cases (ltb (suc high) now)) [
        | inl early ↦
            rw (here, early, scan_leaf)
              (top-IsLeaf m now low high latest block (omega arith) here (ltb→lt _ _ early))
        | inr late ↦
            rw (here, late, scan_leaf)
              (rw below (
                widen m now low high latest (scan_leaf m now latest left high)
                  (λ x q. ltb_false→le _ _ late) rest))
      ]
    ]

-- GetPriorityLeaf returns the selected block of the greatest height that is above the latest height,
-- at most the buffered one and below `now`, or the latest block if no height has one.
pub get_priority_leaf-IsLeaf :
    {env : Env} (b : BlockBuffer env) (now : Int64)
    → b.latest_block_height ≤ b.buffered_height
    → IsLeaf b.selected_block now b.latest_block_height b.buffered_height b.latest_block
        (get_priority_leaf b now)
unfolding get_priority_leaf
get_priority_leaf-IsLeaf b now h =
    scan_leaf-IsLeaf b.selected_block now b.latest_block_height b.latest_block _ _ (omega arith)
