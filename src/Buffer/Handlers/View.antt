-- ===== src/Buffer/Handlers/View.antt =====
-- The view changes: a block enters it, and the heights above it are cleared.
use go_norn.Prelude.{
  ℕ, ◌+◌, ◌<◌, ◌≡◌, refl, sym, ap, ◌∙◌, subst, ◌⊎◌, inl, inr, Bool, true, false, Option, none, some,
  [], ◌∷◌, ◌++◌, arith, Bool-cases, ltb, ltb→lt, if◌then◌else◌,
}
use go_norn.Prelude.Int64.{Int64, int, modulus, sub64}
use go_norn.Prelude.Outcome.{done, >>=-eq-done, done-injective}
use go_norn.Prelude.Maps.{update}
use go_norn.Common.{Block}
use go_norn.Buffer.{Env, BlockBuffer, update_tree_view, compare_block, max_buffer_size}
use go_norn.Buffer.Handlers.{enter_view, choose_block, emit}
use go_norn.Buffer.Handlers.Validity.{
  IsValid, Confirms, nothing, next, Advances, emit-Advances, update_tree_view_lem,
  update_tree_view-greatest,
}

-- A block more than the buffer's size above the latest one leaves room for the next height.
deep_above :
    (h l : ℕ) → h < modulus → l < h → ltb (int max_buffer_size) (sub64 h l) ≡ true → l + 1 < modulus
deep_above h l r above deep = omega arith

-- The block that is chosen for a height is the new one or the one that was there.
pub choose_block-either :
    (o : Option Block) (block : Block)
    → ((choose_block o block).0 ≡ block)
      ⊎ ((o ≡ some (choose_block o block).0) × ((choose_block o block).1 ≡ false))
unfolding choose_block compare_block
choose_block-either none block = inl refl
choose_block-either (some s) block = ground arith

cleared-keyed :
    (m : Int64 → Option Block) (k : Int64)
    → ((h : Int64) (x : Block) → m h ≡ some x → x.header.height ≡ h)
    → (h : Int64) (x : Block) → update m k none h ≡ some x
    → x.header.height ≡ h
cleared-keyed m k v h x e = ground (arith, v h x)

module _ {env : Env} where
  -- A change of the view alone, to blocks of their heights.
  pub record SameChain (b c : BlockBuffer env) : Type 0 where
    pub pops : c.pop_chan ≡ b.pop_chan
    pub height : c.latest_block_height ≡ b.latest_block_height
    pub latest : c.latest_block ≡ b.latest_block
    pub hash : c.latest_block_hash ≡ b.latest_block_hash
    pub queue : c.second_chan ≡ b.second_chan

  pub SameChain-IsValid :
      (b c : BlockBuffer env)
      → SameChain b c
      → ((h : Int64) (x : Block) → c.selected_block h ≡ some x → x.header.height ≡ h)
      → IsValid b
      → IsValid c
  SameChain-IsValid b c s k v = record {
    keyed = k;
    latest_height = rw (s.latest, s.height) v.latest_height;
    latest_hash = rw (s.latest, s.hash) v.latest_hash;
    in_range = rw s.height v.in_range;
    queued = rw s.queue v.queued;
  }

  chosen_height :
      (b : BlockBuffer env) (block : Block)
      → IsValid b
      → (choose_block (b.selected_block block.header.height) block).0.header.height
        ≡ block.header.height
  chosen_height b block v =
      elim (choose_block-either (b.selected_block block.header.height) block) [
        | inl new ↦ ap (λ (x : Block). x.header.height) new
        | inr (old, _) ↦ v.keyed block.header.height _ old
      ]

  chosen-keyed :
      (b : BlockBuffer env) (block best : Block)
      → IsValid b
      → best.header.height ≡ block.header.height
      → (h : Int64) (x : Block) → update b.selected_block block.header.height (some best) h ≡ some x
      → x.header.height ≡ h
  chosen-keyed b block best v c h x e = ground (arith, v.keyed h x)

  cleared :
      (b : BlockBuffer env) (start : Int64)
      → IsValid b
      → let c : BlockBuffer env = record b {
        selected_block = update b.selected_block (start + 1) none;
        buffered_height = start;
      } in
        IsValid c × SameChain b c
  cleared b start v = (
    record {
      keyed = cleared-keyed b.selected_block (start + 1) v.keyed;
      latest_height = v.latest_height;
      latest_hash = v.latest_hash;
      in_range = v.in_range;
      queued = v.queued;
    },
    record { pops = refl; height = refl; latest = refl; hash = refl; queue = refl },
  )

  update_tree_view-IsValid :
      (b c : BlockBuffer env) (start : Int64)
      → start < modulus
      → IsValid b
      → update_tree_view b start ≡ done c
      → IsValid c × SameChain b c
  update_tree_view-IsValid b c start r v e = elim (Bool-cases (ltb (start + 1) modulus)) [
    | inl below ↦
        let view = update_tree_view_lem b start (ltb→lt _ _ below) in
        subst (λ (q : BlockBuffer env). IsValid q × SameChain b q) (done-injective (sym view ∙ e))
          (cleared b start v)
    | inr top ↦ cc (update_tree_view-greatest b start (ground arith))
  ]

  viewed-IsValid :
      (b c : BlockBuffer env) (h : Int64) (replaced : Bool)
      → h < modulus
      → IsValid b
      → (if replaced then update_tree_view b h else done b) ≡ done c
      → IsValid c × SameChain b c
  viewed-IsValid b c h true r v e = update_tree_view-IsValid b c h r v e
  viewed-IsValid b c h false r v e =
      subst (λ (q : BlockBuffer env). IsValid q × SameChain b q) (done-injective e)
        (v, record { pops = refl; height = refl; latest = refl; hash = refl; queue = refl })

  emit_if_deep-Advances :
      (b c : BlockBuffer env) (h : Int64)
      → h < modulus
      → b.latest_block_height < h
      → IsValid b
      → (if ltb (int max_buffer_size) (sub64 h b.latest_block_height) then emit b else done b)
        ≡ done c
      → Advances b c
  emit_if_deep-Advances b c h r above v e =
      elim (Bool-cases (ltb (int max_buffer_size) (sub64 h b.latest_block_height))) [
        | inl deep ↦
            emit-Advances b c v (deep_above h b.latest_block_height r above deep) (rw deep at e)
        | inr shallow ↦
            subst (λ (q : BlockBuffer env). Advances b q) (done-injective (rw shallow at e))
              (record { valid = v; confirms = nothing refl refl })
      ]

  -- The predecessor's block list grows only through the last part.
  pub SameChain-Advances : (b m c : BlockBuffer env) → SameChain b m → Advances m c → Advances b c
  SameChain-Advances b m c s a = record { valid = a.valid; confirms = from a.confirms }
    where
      from : Confirms m c → Confirms b c
      from (nothing p h) = nothing (p ∙ s.pops) (h ∙ s.height)
      from (next x p h l k) =
          next x (p ∙ ap (λ q. q ++ x ∷ []) s.pops) (h ∙ ap (λ (n : ℕ). n + 1) s.height)
            (l ∙ ap (λ (n : ℕ). n + 1) s.height) k

  pub enter_view-Advances :
      (b c : BlockBuffer env) (block : Block)
      → block.header.height < modulus
      → b.latest_block_height < block.header.height
      → IsValid b
      → enter_view b block ≡ done c
      → Advances b c
  unfolding enter_view
  enter_view-Advances b c block r above v e =
      let h = block.header.height in
      let choice = choose_block (b.selected_block h) block in
      let chosen : BlockBuffer env = record b {
        selected_block = update b.selected_block h (some choice.0);
      } in
      let same : SameChain b chosen = record {
        pops = refl;
        height = refl;
        latest = refl;
        hash = refl;
        queue = refl;
      } in
      let chosen_valid : IsValid chosen =
        SameChain-IsValid b chosen same (chosen-keyed b block choice.0 v (chosen_height b block v))
          v in
      let (viewed, e1, e2) =
        >>=-eq-done (if choice.1 then update_tree_view chosen h else done chosen) _ e in
      let (viewed_valid, same') = viewed-IsValid chosen viewed h choice.1 r chosen_valid e1 in
      let above' : viewed.latest_block_height < h = rw same'.height above in
      SameChain-Advances b viewed c
        (record {
          pops = same'.pops;
          height = same'.height;
          latest = same'.latest;
          hash = same'.hash;
          queue = same'.queue;
        })
        (emit_if_deep-Advances viewed c h r above' viewed_valid e2)
