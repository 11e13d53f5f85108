-- ===== src/Buffer/Priority.antt =====
-- The order that compareBlock decides and selectBlockFromList maximises.
use go_norn.Prelude.{
  ◌≤◌, ◌<◌, ◌≡◌, refl, sym, ap, ◌∙◌, ◌⊎◌, inl, inr, true, false, none, some, List, [], ◌∷◌, arith,
  length, All, Bool-cases, ltb, leb, ◌==◌,
}
use mathlib.Core.List.{Mem, mem-cons_self, mem-cons_of_mem}
use go_norn.Prelude.Bytes.{bytes_eq_iff}
use go_norn.Common.{Block, prev_block_hash}
use go_norn.Buffer.{compare_block, select_loop, select_block_from_list}

-- More transactions, or as many and no later timestamp.
abbrev pub Preferred : Block → Block → Type 0
Preferred a b =
    (length b.transactions < length a.transactions)
    ⊎ ((length a.transactions ≡ length b.transactions) × (a.header.timestamp ≤ b.header.timestamp))

abbrev pub Siblings : Block → Block → Type 0
Siblings a b = prev_block_hash a ≡ prev_block_hash b

pub Preferred-refl : (a : Block) → Preferred a a
Preferred-refl a = omega arith

pub Preferred-trans : (a b c : Block) → Preferred a b → Preferred b c → Preferred a c
Preferred-trans a b c p q = omega arith

-- Of any two blocks one is preferred.
pub Preferred-total : (a b : Block) → Preferred a b ⊎ Preferred b a
Preferred-total a b = grind arith

-- The second block wins exactly when it is a sibling and preferred; the first stays in all other
-- cases.
pub compare_block_lem :
    (origin block : Block)
    → (Siblings block origin → Preferred block origin → compare_block origin block ≡ (block, true))
      × (Siblings block origin
          → ¬ Preferred block origin
          → compare_block origin block ≡ (origin, false))
      × (¬ Siblings block origin → compare_block origin block ≡ (origin, false))
unfolding compare_block
compare_block_lem origin block = (
  λ s p. ground (arith, bytes_eq_iff (prev_block_hash block) (prev_block_hash origin)),
  λ s p. ground (arith, bytes_eq_iff (prev_block_hash block) (prev_block_hash origin)),
  λ s. ground (arith, bytes_eq_iff (prev_block_hash block) (prev_block_hash origin)),
)

Preferred-cases : (a b : Block) → Preferred a b ⊎ (¬ Preferred a b × Preferred b a)
Preferred-cases a b = elim (Bool-cases (ltb (length b.transactions) (length a.transactions))) [
  | inl more ↦ inl (ground arith)
  | inr few ↦ elim (Bool-cases (length a.transactions == length b.transactions)) [
    | inl same ↦ elim (Bool-cases (leb a.header.timestamp b.header.timestamp)) [
      | inl early ↦ inl (ground arith)
      | inr late ↦ inr (λ p. ground arith, ground arith)
    ]
    | inr fewer ↦ inr (λ p. ground arith, ground arith)
  ]
]

-- Among siblings the winner is preferred to both, and is one of them.
pub compare_block-wins :
    (origin block : Block)
    → Siblings block origin
    → Preferred (compare_block origin block).0 origin
      × Preferred (compare_block origin block).0 block
      × (((compare_block origin block).0 ≡ origin) ⊎ ((compare_block origin block).0 ≡ block))
compare_block-wins origin block s = elim (Preferred-cases block origin) [
  | inl p ↦ rw ((compare_block_lem origin block).0 s p) (p, Preferred-refl block, inr refl)
  | inr (np, q) ↦ rw ((compare_block_lem origin block).1 s np) (Preferred-refl origin, q, inl refl)
]

Siblings-All :
    (r result : Block) (bs : List Block)
    → Siblings r result
    → All (λ b. Siblings b result) bs
    → All (λ b. Siblings b r) bs
Siblings-All r result [] e s = tt
Siblings-All r result (b ∷ bs) e s = (s.0 ∙ sym e, Siblings-All r result bs e s.1)

one_of-Siblings : (r a b : Block) → Siblings b a → (r ≡ a) ⊎ (r ≡ b) → Siblings r a
one_of-Siblings r a b s (inl e) = ap prev_block_hash e
one_of-Siblings r a b s (inr e) = ap prev_block_hash e ∙ s

found_in :
    (x r a b : Block) (bs : List Block)
    → (r ≡ a) ⊎ (r ≡ b)
    → (x ≡ r) ⊎ Mem x bs
    → (x ≡ a) ⊎ Mem x (b ∷ bs)
found_in x r a b bs (inl e) (inl f) = inl (f ∙ e)
found_in x r a b bs (inr e) (inl f) = inr (rw (f, e) mem-cons_self)
found_in x r a b bs _ (inr m) = inr (mem-cons_of_mem b m)

-- What the loop keeps: the result so far was in the list, and nothing seen is better.
select_loop-best :
    (result : Block) (bs : List Block)
    → All (λ b. Siblings b result) bs
    → Preferred (select_loop result bs) result
      × All (λ b. Preferred (select_loop result bs) b) bs
      × ((select_loop result bs ≡ result) ⊎ Mem (select_loop result bs) bs)
unfolding select_loop
select_loop-best result [] s = (Preferred-refl result, tt, inl refl)
select_loop-best result (b ∷ bs) s =
    let r = (compare_block result b).0 in
    let w = compare_block-wins result b s.0 in
    let siblings = Siblings-All r result bs (one_of-Siblings r result b s.0 w.2) s.1 in
    let rest = select_loop-best r bs siblings in
    let best = select_loop r bs in
    (
      Preferred-trans best r result rest.0 w.0,
      (Preferred-trans best r b rest.0 w.1, rest.1),
      found_in best r result b bs w.2 rest.2,
    )

-- From siblings, selectBlockFromList picks a member that is preferred to every member; it picks
-- nothing exactly from the empty list.
pub select_block_from_list_lem :
    (b : Block) (bs : List Block)
    → All (λ x. Siblings x b) bs
    → (best : Block) × (select_block_from_list (b ∷ bs) ≡ some best)
      × Mem best (b ∷ bs)
      × All (λ x. Preferred best x) (b ∷ bs)
      × (select_block_from_list [] ≡ none)
unfolding select_block_from_list
select_block_from_list_lem b bs s =
    let v = select_loop-best b bs s in
    (select_loop b bs, refl, member (select_loop b bs) b bs v.2, (v.0, v.1), refl)
  where
    member : (x y : Block) (ys : List Block) → (x ≡ y) ⊎ Mem x ys → Mem x (y ∷ ys)
    member x y ys (inl e) = rw e mem-cons_self
    member x y ys (inr m) = mem-cons_of_mem y m
