-- ===== src/Node/Duplicates.antt =====
-- Blocks and transactions that a node receives more than once.
use go_norn.Prelude.{
  ◌≡◌, ◌≢◌, refl, sym, ap, ◌∙◌, Bool, true, false, ◌||◌, List, ◌∷◌, ◌==◌, if◌then◌else◌, is_some,
  Bool-cases, inl, inr,
}
use go_norn.Prelude.Int64.{int}
use go_norn.Prelude.Bytes.{Bytes, encode_to_string}
use go_norn.Prelude.Outcome.{Outcome, done, ◌>>=◌, >>=-eq-done, done-injective}
use go_norn.Prelude.Lru.{contains}
use go_norn.Common.{Block, block_hash}
use go_norn.Chain.Insert.{append_block_task}
use go_norn.Node.{
  NodeEnv, Peer, Manager, block_queue_cap, tx_queue_cap, push, is_catching_up, mark_block,
  mark_peer_block, insert_later, append_task, broadcast, verify_block_vrf, parse_block,
}
use go_norn.Node.Handlers.{accept_new, take_new, handle_new_block_msg}
use go_norn.Node.Gossip.{
  Gossip, received, add_transaction, receive_transaction, accept_gossip, gossip_turn, go_on,
  gossip_block_subscribe,
}

false-true : false ≢ true
false-true e = cc e

module _ {env : NodeEnv} where
  abbrev known : Manager env → Block → Bool
  known pm block = contains env.known_lru pm.known_block (block_hash block)

  known-mark_block : (pm : Manager env) (block : Block) → known (mark_block pm block) block ≡ true
  known-mark_block pm block =
      ap is_some (env.known_lru.find-add_self pm.known_block (block_hash block) tt)

  -- Neither an appended nor a broadcast block changes what is known.
  append_task-known_block :
      (pm pm' : Manager env) (block : Block)
      → append_task pm block ≡ done pm'
      → pm'.known_block ≡ pm.known_block
  append_task-known_block pm pm' block e =
      let step = >>=-eq-done (append_block_task pm.chain block) _ e in
      sym (ap (λ (q : Manager env). q.known_block) (done-injective step.2))

  broadcast-known_block :
      (pm pm' : Manager env) (block : Block)
      → broadcast pm block ≡ done pm'
      → pm'.known_block ≡ pm.known_block
  broadcast-known_block pm pm' block e =
      let step = >>=-eq-done (push block_queue_cap pm.block_broadcast_queue block) _ e in
      sym (ap (λ (q : Manager env). q.known_block) (done-injective step.2))

  accept_new-known_block :
      (pm pm' : Manager env) (block : Block) (verified : Bool)
      → accept_new pm block verified ≡ done pm'
      → pm'.known_block ≡ pm.known_block
  unfolding accept_new
  accept_new-known_block pm pm' block false e =
      sym (ap (λ (q : Manager env). q.known_block) (done-injective e))
  accept_new-known_block pm pm' block true e =
      let step = >>=-eq-done (append_task pm block) _ e in
      broadcast-known_block step.0 pm' block step.2 ∙ append_task-known_block pm step.0 block step.1

  take_new-known :
      (pm pm' : Manager env) (block : Block) → take_new pm block ≡ done pm' → known pm' block ≡ true
  unfolding take_new
  take_new-known pm pm' block e = elim (Bool-cases (block.header.height == int 0)) [
    | inl genesis ↦
        let taken : done (insert_later (mark_block pm block) block) ≡ done pm' =
          sym (rw genesis refl) ∙ e in
        ap (λ (q : Manager env). known q block) (sym (done-injective taken))
        ∙ known-mark_block pm block
    | inr other ↦
        let taken : (verify_block_vrf env block >>= accept_new (mark_block pm block) block)
            ≡ done pm' =
          sym (rw other refl) ∙ e in
        let step =
          >>=-eq-done (verify_block_vrf env block) (accept_new (mark_block pm block) block) taken in
        ap (λ c. contains env.known_lru c (block_hash block))
          (accept_new-known_block (mark_block pm block) pm' block step.0 step.2)
        ∙ known-mark_block pm block
  ]

  closed-again :
      (t u : Bool) (pm : Manager env) (q : Peer env) (x : Outcome (Manager env × Peer env))
      → u ≡ true
      → (if t || u then done (pm, q) else x) ≡ done (pm, q)
  closed-again true u pm q x e = refl
  closed-again false u pm q x e = rw e refl

  -- A block that came in with a new-block message is not taken twice: once handleNewBlockMsg has handled a message, it
  -- changes nothing when the same message comes in again, from the same peer or from another.
  pub handle_new_block_msg-again :
      (pm pm' : Manager env) (payload : Bytes) (p p' q : Peer env)
      → handle_new_block_msg pm payload p ≡ done (pm', p')
      → handle_new_block_msg pm' payload q ≡ done (pm', q)
  unfolding handle_new_block_msg
  handle_new_block_msg-again pm pm' payload p p' q e =
      let block = parse_block env payload in
      elim (Bool-cases (is_catching_up pm.block_syncer.status || known pm block)) [
        | inl closed ↦
            let nothing : done (pm, p) ≡ done (pm', p') = sym (rw closed refl) ∙ e in
            let same : pm ≡ pm' = ap (λ r. r.0) (done-injective nothing) in
            let still : is_catching_up pm'.block_syncer.status || known pm' block ≡ true =
              ap (λ (m : Manager env). is_catching_up m.block_syncer.status || known m block)
                (sym same)
              ∙ closed in
            rw still refl
        | inr unknown ↦
            let run : (take_new pm block >>= λ m. done (m, mark_peer_block p block))
                ≡ done (pm', p') =
              sym (rw unknown refl) ∙ e in
            let step =
              >>=-eq-done (take_new pm block) (λ m. done (m, mark_peer_block p block)) run in
            let same : step.0 ≡ pm' = ap (λ r. r.0) (done-injective step.2) in
            let now =
              ap (λ (m : Manager env). known m block) (sym same)
              ∙ take_new-known pm step.0 block step.1 in
            closed-again (is_catching_up pm'.block_syncer.status) (known pm' block) pm' q _ now
      ]

  -- The same for a transaction that comes in twice by UDP.
  pub receive_transaction-again :
      (pm pm' : Manager env) (datagram : Bytes)
      → receive_transaction pm datagram ≡ done pm'
      → receive_transaction pm' datagram ≡ done pm'
  unfolding receive_transaction add_transaction
  receive_transaction-again pm pm' datagram e =
      let tx = env.chain_env.deserialize_transaction datagram in
      let key = encode_to_string tx.body.hash in
      elim (Bool-cases (contains env.known_lru pm.known_transaction key)) [
        | inl seen ↦
            let nothing : done pm ≡ done pm' = sym (rw seen refl) ∙ e in
            let still : contains env.known_lru pm'.known_transaction key ≡ true =
              ap (λ (m : Manager env). contains env.known_lru m.known_transaction key)
                (sym (done-injective nothing))
              ∙ seen in
            rw still refl
        | inr new ↦
            let run : add_transaction pm tx ≡ done pm' = sym (rw new refl) ∙ e in
            let step = >>=-eq-done (push tx_queue_cap pm.tx_broadcast_queue tx) _ run in
            let now : contains env.known_lru pm'.known_transaction key ≡ true =
              ap (λ (m : Manager env). contains env.known_lru m.known_transaction key)
                (sym (done-injective step.2))
              ∙ ap is_some (env.known_lru.find-add_self pm.known_transaction key tt) in
            rw now refl
      ]

  accept_gossip-known :
      (pm pm' : Manager env) (block : Block) (verified : Bool)
      → accept_gossip (mark_block pm block) block verified ≡ done pm'
      → (known pm' block ≡ true) × (pm'.block_syncer ≡ pm.block_syncer)
  unfolding accept_gossip
  accept_gossip-known pm pm' block false e =
      let same = done-injective (sym e) in
      (
        ap (λ (m : Manager env). known m block) same ∙ known-mark_block pm block,
        ap (λ (m : Manager env). m.block_syncer) same,
      )
  accept_gossip-known pm pm' block true e =
      let step = >>=-eq-done (append_block_task pm.chain block) _ e in
      let same = sym (done-injective step.2) in
      (
        ap (λ (m : Manager env). known m block) same ∙ known-mark_block pm block,
        ap (λ (m : Manager env). m.block_syncer) same,
      )

  -- After a turn that goes on, while the node takes blocks, the block is known.
  gossip_turn-known :
      (pm pm' : Manager env) (payload : Bytes)
      → is_catching_up pm.block_syncer.status ≡ false
      → gossip_turn pm (received payload) ≡ done (pm', true)
      → gossip_turn pm' (received payload) ≡ done (pm', false)
  unfolding gossip_turn
  gossip_turn-known pm pm' payload taking e =
      let block = parse_block env payload in
      elim (Bool-cases (known pm block)) [
        | inl seen ↦
            let stops : done (pm, false) ≡ done (pm', true) = sym (rw (taking, seen) refl) ∙ e in
            absurd (false-true (ap (λ r. r.1) (done-injective stops)))
        | inr new ↦ elim (Bool-cases (block.header.height == int 0)) [
          | inl genesis ↦
              let stops : done (insert_later (mark_block pm block) block, false)
                  ≡ done (pm', true) =
                sym (rw (taking, new, genesis) refl) ∙ e in
              absurd (false-true (ap (λ r. r.1) (done-injective stops)))
          | inr other ↦
              let marked = mark_block pm block in
              let run : (verify_block_vrf env block >>= λ v.
              accept_gossip marked block v >>= λ m. done (m, true))
                  ≡ done (pm', true) =
                sym (rw (taking, new, other) refl) ∙ e in
              let step = >>=-eq-done (verify_block_vrf env block) _ run in
              let last =
                >>=-eq-done (accept_gossip marked block step.0) (λ m. done (m, true)) step.2 in
              let same : last.0 ≡ pm' = ap (λ r. r.0) (done-injective last.2) in
              let facts = accept_gossip-known pm last.0 block step.0 last.1 in
              let now : known pm' block ≡ true =
                ap (λ (m : Manager env). known m block) (sym same) ∙ facts.0 in
              let still : is_catching_up pm'.block_syncer.status ≡ false =
                ap (λ (m : Manager env). is_catching_up m.block_syncer.status) (sym same)
                ∙ ap (λ s. is_catching_up s.status) facts.1
                ∙ taking in
              rw (still, now) refl
        ]
      ]

  -- If a node takes blocks, gets one from gossip and goes on after it, then
  -- gossipBlockSubscribe returns at a second copy of the block, and whatever comes after it is
  -- lost.
  pub gossip_block_subscribe-second_copy :
      (pm pm' : Manager env) (payload : Bytes) (more : List Gossip)
      → is_catching_up pm.block_syncer.status ≡ false
      → gossip_turn pm (received payload) ≡ done (pm', true)
      → gossip_block_subscribe pm (received payload ∷ received payload ∷ more) ≡ done (pm', false)
  unfolding gossip_block_subscribe go_on
  gossip_block_subscribe-second_copy pm pm' payload more taking e =
      rw (e, gossip_turn-known pm pm' payload taking e) refl
