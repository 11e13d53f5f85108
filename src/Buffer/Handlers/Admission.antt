-- ===== src/Buffer/Handlers/Admission.antt =====
-- Which blocks the view takes: only a block whose predecessor is in view and whose VDF verifies.
use go_norn.Prelude.{
  ◌<◌, ◌≡◌, subst, ◌⊎◌, inl, inr, refl, true, false, not, Option, none, some, Bool-cases, leb,
  leb_false→lt,
}
use go_norn.Prelude.Int64.{Int64, int, sub64}
use go_norn.Prelude.Outcome.{done, >>=-eq-done, done-injective}
use go_norn.Prelude.Bytes.{bytes_eq, bytes_eq→eq}
use go_norn.Prelude.Lru.{contains}
use go_norn.Common.{Block, block_hash, prev_block_hash, set_bytes}
use go_norn.Calculator.{verify_block_vdf}
use go_norn.Buffer.{Env, BlockBuffer}
use go_norn.Buffer.Handlers.{
  State, is_orphan, postpone, mark_processed, mark_known, accept, locked, enter_view, process,
  second_process,
}
use go_norn.Buffer.Handlers.Selection.{FromB, From-refl, enter_view-From, postpone-From}

module _ {env : Env} where
  -- The calculator verifies the block's parameters.
  abbrev pub VdfOk : State env → Block → Type 0
  VdfOk st block =
      let params = env.deserialize_general_params block.header.params in
      verify_block_vdf st.calculator (set_bytes 0 params.result) (set_bytes 0 params.proof) ≡ true

  -- The predecessor that the block names is the latest block, or the block selected one height below.
  abbrev pub Extends : BlockBuffer env → Block → Type 0
  Extends b block =
      (prev_block_hash block ≡ block_hash b.latest_block)
      ⊎ ((parent : Block) × (b.selected_block (sub64 block.header.height (int 1)) ≡ some parent)
          × (prev_block_hash block ≡ block_hash parent))

  Extends-below :
      (b : BlockBuffer env) (block : Block) (below : Option Block)
      → b.selected_block (sub64 block.header.height (int 1)) ≡ below
      → elim below [
        | none ↦ true
        | some parent ↦ not (bytes_eq (prev_block_hash block) (block_hash parent))
      ]
        ≡ false
      → Extends b block
  Extends-below b block none e h = cc
  Extends-below b block (some parent) e h =
      elim (Bool-cases (bytes_eq (prev_block_hash block) (block_hash parent))) [
        | inl same ↦ inr (parent, e, bytes_eq→eq _ _ same)
        | inr other ↦ cc (rw other at h)
      ]

  is_orphan-Extends :
      (b : BlockBuffer env) (block : Block) → is_orphan b block ≡ false → Extends b block
  unfolding is_orphan
  is_orphan-Extends b block h =
      elim (Bool-cases (bytes_eq (prev_block_hash block) (block_hash b.latest_block))) [
        | inl same ↦ inl (bytes_eq→eq _ _ same)
        | inr other ↦
            Extends-below b block (b.selected_block (sub64 block.header.height (int 1))) refl
              (rw other at h)
      ]

  -- The block is above the latest one, its predecessor is in view, and its VDF verifies.
  abbrev pub Admissible : State env → Block → Type 0
  Admissible st block =
      (st.buffer.latest_block_height < block.header.height)
      × Extends st.buffer block
      × VdfOk st block

  accept-From :
      (J : Type 0) (st st' : State env) (block : Block)
      → (VdfOk st block → J)
      → accept st block ≡ done st'
      → FromB J block st.buffer st'.buffer
  unfolding accept
  accept-From J st st' block reason e =
      let params = env.deserialize_general_params block.header.params in
      elim (Bool-cases
        (verify_block_vdf st.calculator (set_bytes 0 params.result) (set_bytes 0 params.proof))) [
          | inl verified ↦
              let (b, entered, rest) =
                >>=-eq-done (enter_view st.buffer block) _ (rw verified at e) in
              subst (λ (q : State env). FromB J block st.buffer q.buffer) (done-injective rest)
                (enter_view-From J block (reason verified) st.buffer b entered)
          | inr refused ↦
              subst (λ (q : State env). FromB J block st.buffer q.buffer)
                (done-injective (rw refused at e)) (From-refl J block st.buffer.selected_block)
        ]

  locked-From :
      (J : Type 0) (st st' : State env) (block : Block)
      → (is_orphan st.buffer block ≡ false → VdfOk st block → J)
      → locked st block ≡ done st'
      → FromB J block st.buffer st'.buffer
  unfolding locked mark_processed
  locked-From J st st' block reason e = elim (Bool-cases (is_orphan st.buffer block)) [
    | inl orphan ↦
        let (b, postponed, rest) = >>=-eq-done (postpone st.buffer block) _ (rw orphan at e) in
        subst (λ (q : State env). FromB J block st.buffer q.buffer) (done-injective rest)
          (postpone-From J block st.buffer b postponed)
    | inr child ↦
        accept-From J (record st { buffer = mark_processed st.buffer block }) st' block
          (reason child) (rw child at e)
  ]

  -- Process: each selection after it was one before, or is the block that arrived, at its height;
  -- and then the block lies above the latest one, its predecessor is the latest or the selected
  -- block below, and the calculator verified its VDF.
  pub process-selects :
      (st st' : State env) (block : Block)
      → process st block ≡ done st'
      → (h : Int64) (x : Block) → st'.buffer.selected_block h ≡ some x
      → (st.buffer.selected_block h ≡ some x)
        ⊎ ((x ≡ block) × (h ≡ block.header.height) × Admissible st block)
  unfolding process mark_known is_orphan
  process-selects st st' block e =
      elim (Bool-cases (leb block.header.height st.buffer.latest_block_height)) [
        | inl low ↦
            subst (λ (q : State env). FromB (Admissible st block) block st.buffer q.buffer)
              (done-injective (rw low at e)) (From-refl _ block st.buffer.selected_block)
        | inr above ↦
            elim (Bool-cases (contains env.lru st.buffer.known_blocks (block_hash block))) [
              | inl known ↦
                  subst (λ (q : State env). FromB (Admissible st block) block st.buffer q.buffer)
                    (done-injective (rw (above, known) at e))
                    (From-refl _ block st.buffer.selected_block)
              | inr fresh ↦
                  locked-From (Admissible st block) (mark_known st block) st' block
                    (λ child ok.
                      (leb_false→lt _ _ above, is_orphan-Extends st.buffer block child, ok))
                    (rw (above, fresh) at e)
            ]
      ]

  -- A block that secondProcess puts into the view has its predecessor there, lies above the latest block and
  -- passed the VDF verification.
  pub second_process-selects :
      (st st' : State env) (block : Block)
      → second_process st block ≡ done st'
      → (h : Int64) (x : Block) → st'.buffer.selected_block h ≡ some x
      → (st.buffer.selected_block h ≡ some x)
        ⊎ ((x ≡ block) × (h ≡ block.header.height) × Admissible st block)
  unfolding second_process
  second_process-selects st st' block e =
      elim (Bool-cases (leb block.header.height st.buffer.latest_block_height)) [
        | inl low ↦
            subst (λ (q : State env). FromB (Admissible st block) block st.buffer q.buffer)
              (done-injective (rw low at e)) (From-refl _ block st.buffer.selected_block)
        | inr above ↦
            locked-From (Admissible st block) st st' block
              (λ child ok. (leb_false→lt _ _ above, is_orphan-Extends st.buffer block child, ok))
              (rw above at e)
      ]
