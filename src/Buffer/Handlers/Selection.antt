-- ===== src/Buffer/Handlers/Selection.antt =====
-- Which blocks the view takes: only a block whose predecessor is in view and whose VDF verifies.
use go_norn.Prelude.{
  ℕ, ◌≡◌, sym, ap, ◌∙◌, subst, ◌⊎◌, inl, inr, Bool, true, false, Option, none, some, arith,
  Bool-cases, ltb, if◌then◌else◌, zero, suc, ◌==◌, ==_iff,
}
use go_norn.Prelude.Int64.{Int64, int, add64, sub64}
use go_norn.Prelude.Outcome.{done, >>=-eq-done, done-injective}
use go_norn.Prelude.Maps.{update}
use go_norn.Common.{Block}
use go_norn.Buffer.{Env, BlockBuffer, update_tree_view, update_loop, pop_selected_block, confirm}
use go_norn.Buffer.Handlers.{postpone, mark_processed, choose_block, emit, enter_view}
use go_norn.Buffer.Handlers.View.{choose_block-either}

-- Every selection of `m'` is one of `m`, or is the block at its height, for the reason J.
abbrev pub From {ℓ} : Type ℓ → Block → (m m' : Int64 → Option Block) → Type ℓ
From J block m m' =
    (h : Int64) (x : Block)
    → m' h ≡ some x
    → (m h ≡ some x) ⊎ ((x ≡ block) × (h ≡ block.header.height) × J)

module _ (J : Type 0) (block : Block) where
  pub From-refl : (m : Int64 → Option Block) → From J block m m
  From-refl m h x e = inl e

  pub From-trans :
      (m n p : Int64 → Option Block) → From J block m n → From J block n p → From J block m p
  From-trans m n p f g h x e = elim (g h x e) [ inl old ↦ f h x old | inr new ↦ inr new ]

  From-clear : (m : Int64 → Option Block) (k : Int64) → From J block m (update m k none)
  From-clear m k h x e = inl (ground arith)

  From-choose :
      J
      → (m : Int64 → Option Block)
      → From J block m
          (update m block.header.height (some (choose_block (m block.header.height) block).0))
  From-choose j m h x e = elim (Bool-cases (block.header.height == h)) [
    | inl here ↦
        let same : block.header.height ≡ h = (==_iff _ _).0 here in
        let best = (choose_block (m block.header.height) block).0 in
        let is_best : best ≡ x = ground arith in
        elim (choose_block-either (m block.header.height) block) [
          | inl new ↦ inr (sym is_best ∙ new, sym same, j)
          | inr (old, _) ↦ inl (ap m (sym same) ∙ old ∙ ap (λ (b : Block). some b) is_best)
        ]
    | inr there ↦ inl (ground arith)
  ]

  From-loop :
      (k : ℕ) (buffered height : Int64) (m m' : Int64 → Option Block)
      → update_loop k buffered height m ≡ done m'
      → From J block m m'
  unfolding update_loop
  From-loop zero buffered height m m' e = cc
  From-loop (suc k) buffered height m m' e = elim (Bool-cases (ltb buffered height)) [
    | inl over ↦
        subst (λ (n : Int64 → Option Block). From J block m n) (done-injective (rw over at e))
          (From-refl m)
    | inr going ↦
        let next = add64 height (int 1) in
        From-trans m (update m next none) m' (From-clear m next)
          (From-loop k buffered next (update m next none) m' (rw going at e))
  ]

-- The buffer's selections before and after a part of a handler.
abbrev pub FromB :
    {env : Env} (J : Type 0) (block : Block) → BlockBuffer env → BlockBuffer env → Type 0
FromB J block b c = From J block b.selected_block c.selected_block

module _ {env : Env} (J : Type 0) (block : Block) where
  update_tree_view-From :
      (b c : BlockBuffer env) (start : Int64)
      → update_tree_view b start ≡ done c
      → FromB J block b c
  unfolding update_tree_view
  update_tree_view-From b c start e =
      let (m, looped, rest) = >>=-eq-done (update_loop 2 start start b.selected_block) _ e in
      subst (λ (q : BlockBuffer env). FromB J block b q) (done-injective rest)
        (From-loop J block 2 start start b.selected_block m looped)

  viewed-From :
      (b c : BlockBuffer env) (h : Int64) (replaced : Bool)
      → (if replaced then update_tree_view b h else done b) ≡ done c
      → FromB J block b c
  viewed-From b c h true e = update_tree_view-From b c h e
  viewed-From b c h false e =
      subst (λ (q : BlockBuffer env). FromB J block b q) (done-injective e)
        (From-refl J block b.selected_block)

  confirm-From :
      (b c : BlockBuffer env) (h : Int64) (o : Option Block) (x : Block)
      → confirm b h o ≡ done (x, c)
      → FromB J block b c
  unfolding confirm
  confirm-From b c h none x e = cc
  confirm-From b c h (some y) x e =
      subst (λ (p : Block × BlockBuffer env). FromB J block b p.1) (done-injective e)
        (From-clear J block b.selected_block (sub64 h (int 1)))

  emit-From : (b c : BlockBuffer env) → emit b ≡ done c → FromB J block b c
  unfolding emit pop_selected_block
  emit-From b c e =
      let ((x, d), popped, rest) = >>=-eq-done (pop_selected_block b) _ e in
      subst (λ (q : BlockBuffer env). FromB J block b q) (done-injective rest)
        (confirm-From b d _ _ x popped)

  deep-From :
      (b c : BlockBuffer env) (deep : Bool)
      → (if deep then emit b else done b) ≡ done c
      → FromB J block b c
  deep-From b c true e = emit-From b c e
  deep-From b c false e =
      subst (λ (q : BlockBuffer env). FromB J block b q) (done-injective e)
        (From-refl J block b.selected_block)

  pub enter_view-From :
      J → (b c : BlockBuffer env) → enter_view b block ≡ done c → FromB J block b c
  unfolding enter_view
  enter_view-From j b c e =
      let h = block.header.height in
      let choice = choose_block (b.selected_block h) block in
      let chosen : BlockBuffer env = record b {
        selected_block = update b.selected_block h (some choice.0);
      } in
      let (viewed, e1, e2) =
        >>=-eq-done (if choice.1 then update_tree_view chosen h else done chosen) _ e in
      From-trans J block b.selected_block viewed.selected_block c.selected_block
        (From-trans J block b.selected_block chosen.selected_block viewed.selected_block
          (From-choose J block j b.selected_block) (viewed-From chosen viewed h choice.1 e1))
        (deep-From viewed c _ e2)

  postpone-same :
      (b c : BlockBuffer env) → postpone b block ≡ done c → c.selected_block ≡ b.selected_block
  unfolding postpone mark_processed
  postpone-same b c e = ground arith

  pub postpone-From : (b c : BlockBuffer env) → postpone b block ≡ done c → FromB J block b c
  postpone-From b c e =
      subst (λ (m : Int64 → Option Block). From J block b.selected_block m)
        (sym (postpone-same b c e)) (From-refl J block b.selected_block)
