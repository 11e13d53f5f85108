-- ===== src/Node/Broadcast/Delivery.antt =====
-- node/manager.go: what a transaction that a node sends on by UDP does to the node that it reaches.
use go_norn.Prelude.{
  ℕ, zero, suc, ◌-◌, ◌<◌, ◌≤◌, ◌≡◌, refl, sym, ap, ◌∙◌, arith, Bool, true, false, Option, none,
  some, List, [], ◌∷◌, ◌++◌, length, take, take-short, get_elem?, ltb, is_some, lt→ltb, Bool-cases,
  inl, inr, ltb→lt, ltb_false→le,
}
use mathlib.Core.List.{Mem, mem-cons_self, mem-cons_of_mem}
use go_norn.Prelude.Bytes.{Bytes, encode_to_string}
use go_norn.Prelude.Outcome.{done}
use go_norn.Prelude.Lru.{contains}
use go_norn.Common.{Transaction}
use go_norn.Common.Encodable.{IsSendable}
use go_norn.TxPool.{add}
use go_norn.Node.{NodeEnv, Manager, tx_queue_cap}
use go_norn.Node.Gossip.{add_transaction, receive_transaction}
use go_norn.Node.Duplicates.{receive_transaction-again}
use go_norn.Node.Streams.{PeerId}
use go_norn.Node.Broadcast.{
  Datagram, send_drawn, gossip_nodes, udp_buffer_size, gossip_loop, gossip_text,
  udp_gossip_broadcast, broadcast_transaction, transaction_udp,
}
use go_norn.Wire.{Runtime}
use go_norn.Serializer.{bytes_of, serialize_transaction, deserialize_transaction}
use go_norn.Serializer.Environments.{
  deserialize-serialize_transaction, serialize_transaction-written,
}

send_drawn-keeps :
    (reaches : PeerId → Bool) (text : Bytes) (o : Option (PeerId × ℕ)) (d : Datagram)
    (rest : List Datagram)
    → Mem d rest
    → Mem d (send_drawn reaches text o rest)
send_drawn-keeps reaches text none d rest h = h
send_drawn-keeps reaches text (some q) d rest h = elim (Bool-cases (reaches q.0)) [
  | inl ok ↦ rw ok (mem-cons_of_mem (q.0, text) h)
  | inr bad ↦ rw bad h
]

-- What is drawn in one of the rounds left is sent.
gossip_loop-sends :
    (peer_set : List (PeerId × ℕ)) (draw : ℕ → ℕ) (reaches : PeerId → Bool) (text : Bytes)
    (left j : ℕ) (p : PeerId × ℕ)
    → j < left
    → get_elem? peer_set (draw (gossip_nodes - suc j)) ≡ some p
    → reaches p.0 ≡ true
    → Mem (p.0, text) (gossip_loop peer_set draw reaches text left)
unfolding gossip_loop
gossip_loop-sends peer_set draw reaches text zero j p h e ok = absurd (omega (arith, h))
gossip_loop-sends peer_set draw reaches text (suc left) j p h e ok =
    let rest = gossip_loop peer_set draw reaches text left in
    elim (Bool-cases (ltb j left)) [
      | inl later ↦
          send_drawn-keeps reaches text (get_elem? peer_set (draw (gossip_nodes - suc left)))
            (p.0, text) rest
            (gossip_loop-sends peer_set draw reaches text left j p (ltb→lt _ _ later) e ok)
      | inr last ↦
          let now : j ≡ left = omega (arith, h, ltb_false→le _ _ last) in
          let drawn : get_elem? peer_set (draw (gossip_nodes - suc left)) ≡ some p =
            ap (λ i. get_elem? peer_set (draw (gossip_nodes - suc i))) (sym now) ∙ e in
          rw drawn (rw ok mem-cons_self)
    ]

gossip_text-sends :
    (peer_set : List (PeerId × ℕ)) (draw : ℕ → ℕ) (reaches : PeerId → Bool) (text : Bytes) (j : ℕ)
    (p : PeerId × ℕ)
    → j < gossip_nodes
    → get_elem? peer_set (draw (gossip_nodes - suc j)) ≡ some p
    → reaches p.0 ≡ true
    → Mem (p.0, text) (gossip_text peer_set draw reaches (some text))
gossip_text-sends [] draw reaches text j p h e ok = cc e
gossip_text-sends (q ∷ qs) draw reaches text j p h e ok =
    gossip_loop-sends (q ∷ qs) draw reaches text gossip_nodes j p h e ok

module _ {env : NodeEnv} where
  -- The node after a transaction was added for the first time: it is in the pool and the queue, and known.
  pub record Learned (old new : Manager env) (tx : Transaction) : Type 0 where
    pub in_pool : new.chain.pool ≡ add old.chain.pool tx
    pub queued : new.tx_broadcast_queue ≡ old.tx_broadcast_queue ++ tx ∷ []
    pub known : contains env.known_lru new.known_transaction (encode_to_string tx.body.hash) ≡ true

module _ (k : Runtime) {env : NodeEnv}
    (reads : (text : Bytes)
      → env.chain_env.deserialize_transaction text ≡ deserialize_transaction k text) where
  -- A transaction that comes in by UDP as it was written, whose text the buffer has room for, is added to a node that does
  -- not know it and has room in its queue.
  transaction_udp-new :
      (pm : Manager env) (tx : Transaction) (text : Bytes)
      → deserialize_transaction k text ≡ tx
      → length text ≤ udp_buffer_size
      → contains env.known_lru pm.known_transaction (encode_to_string tx.body.hash) ≡ false
      → transaction_udp pm text ≡ add_transaction pm tx
  unfolding transaction_udp receive_transaction
  transaction_udp-new pm tx text back short new =
      let whole = take-short udp_buffer_size text short in
      let parsed = reads text ∙ back in rw (whole, parsed, new) refl

  -- What broadcastTransaction sends.
  broadcast_transaction-sends :
      (sender : Manager env) (peer_set : List (PeerId × ℕ)) (draw : ℕ → ℕ) (reaches : PeerId → Bool)
      (tx : Transaction) (txs : List Transaction) (text : Bytes) (j : ℕ) (p : PeerId × ℕ)
      → sender.tx_broadcast_queue ≡ tx ∷ txs
      → serialize_transaction k tx ≡ some text
      → j < gossip_nodes
      → get_elem? peer_set (draw (gossip_nodes - suc j)) ≡ some p
      → reaches p.0 ≡ true
      → Mem (p.0, text) (broadcast_transaction k peer_set draw reaches sender).1
  unfolding broadcast_transaction udp_gossip_broadcast
  broadcast_transaction-sends sender peer_set draw reaches tx txs text j p queued written h drawn
        ok =
      rw (queued, written) (gossip_text-sends peer_set draw reaches text j p h drawn ok)

  add_transaction-Learned :
      (pm : Manager env) (tx : Transaction)
      → length pm.tx_broadcast_queue < tx_queue_cap
      → (pm' : Manager env) × (add_transaction pm tx ≡ done pm') × Learned pm pm' tx
  unfolding add_transaction
  add_transaction-Learned pm tx room =
      let open_queue : ltb (length pm.tx_broadcast_queue) tx_queue_cap ≡ true = lt→ltb _ _ room in
      let key = encode_to_string tx.body.hash in
      (
        record pm {
          known_transaction = env.known_lru.add pm.known_transaction key tt;
          tx_broadcast_queue = pm.tx_broadcast_queue ++ tx ∷ [];
          chain = record pm.chain { pool = add pm.chain.pool tx };
        },
        rw open_queue refl,
        record {
          in_pool = refl;
          queued = refl;
          known = ap is_some (env.known_lru.find-add_self pm.known_transaction key tt);
        },
      )

  -- The transaction at the front of the queue, with arrays of their lengths and int64 numbers, is sent by
  -- broadcastTransaction to every peer that one of the eight rounds draws and the network reaches. At such a peer that
  -- reads transactions with DeserializeTransaction, does not know the hash and has room in its queue, TransactionUDP adds
  -- this transaction to the pool and the queue and knows its hash afterwards, if its text has at most 1024 bytes. The same
  -- datagram once more changes nothing.
  pub broadcast_transaction-received :
      (sender receiver : Manager env) (peer_set : List (PeerId × ℕ)) (draw : ℕ → ℕ)
      (reaches : PeerId → Bool) (tx : Transaction) (txs : List Transaction) (j : ℕ) (p : PeerId × ℕ)
      → sender.tx_broadcast_queue ≡ tx ∷ txs
      → IsSendable tx
      → length (bytes_of (serialize_transaction k tx)) ≤ udp_buffer_size
      → j < gossip_nodes
      → get_elem? peer_set (draw (gossip_nodes - suc j)) ≡ some p
      → reaches p.0 ≡ true
      → contains env.known_lru receiver.known_transaction (encode_to_string tx.body.hash) ≡ false
      → length receiver.tx_broadcast_queue < tx_queue_cap
      → (text : Bytes) × (receiver' : Manager env) × (serialize_transaction k tx ≡ some text)
        × Mem (p.0, text) (broadcast_transaction k peer_set draw reaches sender).1
        × (transaction_udp receiver text ≡ done receiver')
        × Learned receiver receiver' tx
        × (transaction_udp receiver' text ≡ done receiver')
  unfolding transaction_udp
  broadcast_transaction-received sender receiver peer_set draw reaches tx txs j p queued fits short
        h drawn ok new room =
      let text = bytes_of (serialize_transaction k tx) in
      let written : serialize_transaction k tx ≡ some text =
        serialize_transaction-written k tx fits in
      let back = deserialize-serialize_transaction k tx fits in
      let added = add_transaction-Learned receiver tx room in
      let run : transaction_udp receiver text ≡ done added.0 =
        transaction_udp-new receiver tx text back short new ∙ added.1 in
      (
        text,
        added.0,
        written,
        broadcast_transaction-sends sender peer_set draw reaches tx txs text j p queued written h
            drawn ok,
        run,
        added.2,
        receive_transaction-again receiver added.0 (take udp_buffer_size text) run,
      )
