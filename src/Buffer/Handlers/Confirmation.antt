-- ===== src/Buffer/Handlers/Confirmation.antt =====
-- Every event keeps the buffer valid and confirms nothing or a block of the next height.
use go_norn.Prelude.{
  ◌<◌, ◌≡◌, refl, subst, inl, inr, List, [], ◌∷◌, ◌++◌, All, All-append, Bool-cases, leb, ltb,
  leb_false→lt, length,
}
use go_norn.Prelude.Int64.{modulus}
use go_norn.Prelude.Outcome.{done, >>=-eq-done, done-injective}
use go_norn.Prelude.Lru.{contains}
use go_norn.Common.{Block, block_hash, prev_block_hash, set_bytes}
use go_norn.Calculator.{verify_block_vdf}
use go_norn.Buffer.{Env, BlockBuffer, max_queue_block}
use go_norn.Buffer.Handlers.{
  State, is_orphan, postpone, mark_processed, mark_known, accept, locked, enter_view, process,
  second_process, second_receive, Event, arrives, ticks, step,
}
use go_norn.Buffer.Handlers.Validity.{IsValid, Confirms, nothing, next, Advances}
use go_norn.Buffer.Handlers.View.{SameChain, SameChain-Advances, enter_view-Advances}

-- The block of an event has a height of type int64.
abbrev pub InRangeEvent : Event → Type 0
InRangeEvent (arrives block) = block.header.height < modulus
InRangeEvent ticks = Unit

module _ {env : Env} where
  stays : (b c : BlockBuffer env) → IsValid c → SameChain b c → Advances b c
  stays b c v s = record { valid = v; confirms = nothing s.pops s.height }

  mark_processed-IsValid :
      (b : BlockBuffer env) (block : Block)
      → IsValid b
      → IsValid (mark_processed b block) × SameChain b (mark_processed b block)
  unfolding mark_processed
  mark_processed-IsValid b block v = (
    record {
      keyed = v.keyed;
      latest_height = v.latest_height;
      latest_hash = v.latest_hash;
      in_range = v.in_range;
      queued = v.queued;
    },
    record { pops = refl; height = refl; latest = refl; hash = refl; queue = refl },
  )

  queued-Advances :
      (b : BlockBuffer env) (q : List Block)
      → All (λ (x : Block). x.header.height < modulus) q
      → IsValid b
      → Advances b (record b { second_chan = q })
  queued-Advances b q r v = record {
    valid = record {
      keyed = v.keyed;
      latest_height = v.latest_height;
      latest_hash = v.latest_hash;
      in_range = v.in_range;
      queued = r;
    };
    confirms = nothing refl refl;
  }

  postpone-Advances :
      (b c : BlockBuffer env) (block : Block)
      → block.header.height < modulus
      → IsValid b
      → postpone b block ≡ done c
      → Advances b c
  unfolding postpone
  postpone-Advances b c block r v e =
      elim (Bool-cases (contains env.lru b.processed_blocks (prev_block_hash block))) [
        | inl hit ↦
            let (w, s) = mark_processed-IsValid b block v in
            subst (λ (q : BlockBuffer env). Advances b q) (done-injective (rw hit at e))
              (stays b (mark_processed b block) w s)
        | inr miss ↦ elim (Bool-cases (ltb (length b.second_chan) max_queue_block)) [
          | inl room ↦
              let q = b.second_chan ++ block ∷ [] in
              subst (λ (c : BlockBuffer env). Advances b c) (done-injective (rw (miss, room) at e))
                (queued-Advances b q (All-append _ b.second_chan (block ∷ []) v.queued (r, tt)) v)
          | inr full ↦ cc (rw (miss, full) at e)
        ]
      ]

  accept-Advances :
      (st : State env) (st' : State env) (block : Block)
      → block.header.height < modulus
      → st.buffer.latest_block_height < block.header.height
      → IsValid st.buffer
      → accept st block ≡ done st'
      → Advances st.buffer st'.buffer
  unfolding accept
  accept-Advances st st' block r above v e =
      let params = env.deserialize_general_params block.header.params in
      let ok =
        verify_block_vdf st.calculator (set_bytes 0 params.result) (set_bytes 0 params.proof) in
      elim (Bool-cases ok) [
        | inl verified ↦
            let (b, entered, rest) =
              >>=-eq-done (enter_view st.buffer block) _ (rw verified at e) in
            subst (λ (q : State env). Advances st.buffer q.buffer) (done-injective rest)
              (enter_view-Advances st.buffer b block r above v entered)
        | inr refused ↦
            subst (λ (q : State env). Advances st.buffer q.buffer)
              (done-injective (rw refused at e))
              (stays st.buffer st.buffer v
                (record { pops = refl; height = refl; latest = refl; hash = refl; queue = refl }))
      ]

  locked-Advances :
      (st : State env) (st' : State env) (block : Block)
      → block.header.height < modulus
      → st.buffer.latest_block_height < block.header.height
      → IsValid st.buffer
      → locked st block ≡ done st'
      → Advances st.buffer st'.buffer
  unfolding locked
  locked-Advances st st' block r above v e = elim (Bool-cases (is_orphan st.buffer block)) [
    | inl orphan ↦
        let (b, postponed, rest) = >>=-eq-done (postpone st.buffer block) _ (rw orphan at e) in
        subst (λ (q : State env). Advances st.buffer q.buffer) (done-injective rest)
          (postpone-Advances st.buffer b block r v postponed)
    | inr child ↦
        let (w, s) = mark_processed-IsValid st.buffer block v in
        SameChain-Advances st.buffer (mark_processed st.buffer block) st'.buffer s (
          accept-Advances (record st { buffer = mark_processed st.buffer block }) st' block r
            (rw s.height above) w (rw child at e))
  ]

  mark_known-IsValid :
      (st : State env) (block : Block)
      → IsValid st.buffer
      → IsValid (mark_known st block).buffer × SameChain st.buffer (mark_known st block).buffer
  unfolding mark_known
  mark_known-IsValid st block v = (
    record {
      keyed = v.keyed;
      latest_height = v.latest_height;
      latest_hash = v.latest_hash;
      in_range = v.in_range;
      queued = v.queued;
    },
    record { pops = refl; height = refl; latest = refl; hash = refl; queue = refl },
  )

  unchanged : (b : BlockBuffer env) → IsValid b → Advances b b
  unchanged b v =
      stays b b v (record { pops = refl; height = refl; latest = refl; hash = refl; queue = refl })

  pub process-Advances :
      (st : State env) (st' : State env) (block : Block)
      → block.header.height < modulus
      → IsValid st.buffer
      → process st block ≡ done st'
      → Advances st.buffer st'.buffer
  unfolding process
  process-Advances st st' block r v e =
      elim (Bool-cases (leb block.header.height st.buffer.latest_block_height)) [
        | inl low ↦
            subst (λ (q : State env). Advances st.buffer q.buffer) (done-injective (rw low at e))
              (unchanged st.buffer v)
        | inr above ↦
            elim (Bool-cases (contains env.lru st.buffer.known_blocks (block_hash block))) [
              | inl known ↦
                  subst (λ (q : State env). Advances st.buffer q.buffer)
                    (done-injective (rw (above, known) at e)) (unchanged st.buffer v)
              | inr fresh ↦
                  let (w, s) = mark_known-IsValid st block v in
                  SameChain-Advances st.buffer (mark_known st block).buffer st'.buffer s (
                    locked-Advances (mark_known st block) st' block r
                      (rw s.height (leb_false→lt _ _ above)) w (rw (above, fresh) at e))
            ]
      ]

  pub second_process-Advances :
      (st : State env) (st' : State env) (block : Block)
      → block.header.height < modulus
      → IsValid st.buffer
      → second_process st block ≡ done st'
      → Advances st.buffer st'.buffer
  unfolding second_process
  second_process-Advances st st' block r v e =
      elim (Bool-cases (leb block.header.height st.buffer.latest_block_height)) [
        | inl low ↦
            subst (λ (q : State env). Advances st.buffer q.buffer) (done-injective (rw low at e))
              (unchanged st.buffer v)
        | inr above ↦ locked-Advances st st' block r (leb_false→lt _ _ above) v (rw above at e)
      ]

  second_receive-Advances :
      (st : State env) (st' : State env) (queue : List Block)
      → All (λ (x : Block). x.header.height < modulus) queue
      → IsValid st.buffer
      → second_receive st queue ≡ done st'
      → Advances st.buffer st'.buffer
  unfolding second_receive
  second_receive-Advances st st' [] r v e =
      subst (λ (q : State env). Advances st.buffer q.buffer) (done-injective e)
        (unchanged st.buffer v)
  second_receive-Advances st st' (block ∷ rest) r v e =
      let a = queued-Advances st.buffer rest r.1 v in
      let received : State env = record st { buffer = record st.buffer { second_chan = rest } } in
      let b = second_process-Advances received st' block r.0 a.valid e in
      record { valid = b.valid; confirms = after b.confirms }
    where
      after :
          Confirms (record st.buffer { second_chan = rest }) st'.buffer
          → Confirms st.buffer st'.buffer
      after (nothing p h) = nothing p h
      after (next x p h l k) = next x p h l k

  pub step-Advances :
      (st : State env) (st' : State env) (e : Event)
      → InRangeEvent e
      → IsValid st.buffer
      → step st e ≡ done st'
      → Advances st.buffer st'.buffer
  unfolding step
  step-Advances st st' (arrives block) r v q = process-Advances st st' block r v q
  step-Advances st st' ticks r v q =
      second_receive-Advances st st' st.buffer.second_chan v.queued v q
