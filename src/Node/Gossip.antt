-- ===== src/Node/Gossip.antt =====
-- node/manager.go: the transactions that come in by UDP, and the blocks that come in by gossip.
use go_norn.Prelude.{Bool, true, false, List, [], ◌∷◌, ◌==◌, if◌then◌else◌}
use go_norn.Prelude.Int64.{int}
use go_norn.Prelude.Bytes.{Bytes, encode_to_string}
use go_norn.Prelude.Outcome.{Outcome, done, ◌>>=◌}
use go_norn.Prelude.Lru.{contains}
use go_norn.Common.{Block, Transaction, block_hash}
use go_norn.TxPool.{add}
use go_norn.Node.{
  NodeEnv, Manager, tx_queue_cap, push, is_catching_up, mark_block, insert_later, append_task,
  verify_block_vrf, parse_block,
}

module _ {env : NodeEnv} where
  -- AddTransaction
  unfoldable pub add_transaction : Manager env → Transaction → Outcome (Manager env)
  unfolding add
  add_transaction pm tx = do
    queue ← push tx_queue_cap pm.tx_broadcast_queue tx
    done (record pm {
      known_transaction = env.known_lru.add pm.known_transaction (encode_to_string tx.body.hash) tt;
      tx_broadcast_queue = queue;
      chain = record pm.chain { pool = add pm.chain.pool tx };
    })

  -- TransactionUDP, for one datagram
  unfoldable pub receive_transaction : Manager env → Bytes → Outcome (Manager env)
  unfolding add_transaction
  receive_transaction pm datagram =
      let tx = env.chain_env.deserialize_transaction datagram in
      if contains env.known_lru pm.known_transaction (encode_to_string tx.body.hash)
      then done pm
      else add_transaction pm tx

-- What sub.Next returns: an error, or a message from the node itself or from another.
pub data Gossip : Type 0 where
  failed : Gossip
  own : Gossip
  received : Bytes → Gossip

module _ {env : NodeEnv} where
  unfoldable pub accept_gossip : Manager env → Block → Bool → Outcome (Manager env)
  accept_gossip pm block false = done pm
  accept_gossip pm block true = append_task pm block

  -- One turn of gossipBlockSubscribe, and whether the routine goes on.
  unfoldable pub gossip_turn : Manager env → Gossip → Outcome (Manager env × Bool)
  unfolding verify_block_vrf accept_gossip
  gossip_turn pm failed = done (pm, true)
  gossip_turn pm own = done (pm, true)
  gossip_turn pm (received payload) =
      let block = parse_block env payload in
      let marked = mark_block pm block in
      let verify = do
        verified ← verify_block_vrf env block
        pm' ← accept_gossip marked block verified
        done (pm', true)
      in if is_catching_up pm.block_syncer.status
        then done (pm, true)
        else if contains env.known_lru pm.known_block (block_hash block)
        then done (pm, false)
        else if block.header.height == int 0
        then done (insert_later marked block, false)
        else verify

  unfoldable pub go_on :
      (Manager env → Outcome (Manager env × Bool))
      → Manager env × Bool
      → Outcome (Manager env × Bool)
  go_on more (pm, true) = more pm
  go_on more (pm, false) = done (pm, false)

  -- gossipBlockSubscribe on the messages that come in; false if the routine has returned.
  unfoldable pub gossip_block_subscribe : Manager env → List Gossip → Outcome (Manager env × Bool)
  unfolding gossip_turn go_on
  gossip_block_subscribe pm [] = done (pm, true)
  gossip_block_subscribe pm (m ∷ ms) = do
    r ← gossip_turn pm m
    go_on (λ pm'. gossip_block_subscribe pm' ms) r
