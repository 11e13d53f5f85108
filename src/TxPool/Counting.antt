-- ===== src/TxPool/Counting.antt =====
-- The pool's counter and its limit.
use go_norn.Prelude.{
  ℕ, zero, suc, ◌+◌, ◌≤◌, ◌<◌, ◌≡◌, ◌≢◌, refl, sym, ap, ◌∙◌, subst, ◌⊎◌, inl, inr, true, false,
  arith, none, some, length, Bool-cases, Option-cases, if◌then◌else◌, ltb, ltb→lt, ltb_false→le,
}
use go_norn.Prelude.Bytes.{Bytes, bytes_eq, bytes_eq→eq, bytes_eq_refl, IsBytes}
use go_norn.Common.{Transaction}
use go_norn.TxPool.{
  TxPool, new_tx_pool, load, delete, store, key_of, add, remove_tx, get, max_tx_pool_size,
}
use go_norn.TxPool.Entries.{
  load-delete_self, load-delete_other, length-delete, length-delete_hit, bytes_ne,
}
use go_norn.TxPool.Visits.{IsValid, Bounded}

pub load-add :
    (pool : TxPool) (tx : Transaction)
    → pool.count ≤ max_tx_pool_size
    → load (add pool tx).txs (key_of tx) ≡ some tx
unfolding add store load
load-add pool tx h =
    let room : ltb max_tx_pool_size pool.count ≡ false = ground arith in
    rw (room, bytes_eq_refl (key_of tx)) refl

add-Bounded : (pool : TxPool) (tx : Transaction) → Bounded pool → Bounded (add pool tx)
unfolding add store
add-Bounded pool tx b = ground (arith, b, length-delete pool.txs (key_of tx))

remove_tx-Bounded :
    (pool : TxPool) (tx : Transaction) → Bounded pool → Bounded (remove_tx pool tx.body.hash)
unfolding remove_tx
remove_tx-Bounded pool tx b = elim (Option-cases (load pool.txs (key_of tx))) [
  | inl e ↦ rw e b
  | inr (value, e) ↦
      rw e (omega (arith, b.0, length-delete_hit pool.txs (key_of tx) value e), omega (arith, b.1))
]

load-remove_tx :
    (pool : TxPool) (tx : Transaction) → load (remove_tx pool tx.body.hash).txs (key_of tx) ≡ none
unfolding remove_tx
load-remove_tx pool tx = elim (Option-cases (load pool.txs (key_of tx))) [
  | inl e ↦ rw e e
  | inr (value, e) ↦ rw e (load-delete_self pool.txs (key_of tx))
]

add_full : (pool : TxPool) (tx : Transaction) → (max_tx_pool_size < pool.count) → add pool tx ≡ pool
unfolding add
add_full pool tx h =
    let full : ltb max_tx_pool_size pool.count ≡ true = ground arith in rw full refl

add_other :
    (pool : TxPool) (tx : Transaction)
    → (k : Bytes) → key_of tx ≢ k
    → load (add pool tx).txs k ≡ load pool.txs k
unfolding add store load
add_other pool tx k ne = elim (Bool-cases (ltb max_tx_pool_size pool.count)) [
  | inl e ↦ rw e refl
  | inr e ↦ rw (e, bytes_ne (key_of tx) k ne) (load-delete_other pool.txs (key_of tx) k ne)
]

remove_other :
    (pool : TxPool) (tx : Transaction)
    → (k : Bytes) → key_of tx ≢ k
    → load (remove_tx pool tx.body.hash).txs k ≡ load pool.txs k
unfolding remove_tx
remove_other pool tx k ne = elim (Option-cases (load pool.txs (key_of tx))) [
  | inl e ↦ rw e refl
  | inr (value, e) ↦ rw e (load-delete_other pool.txs (key_of tx) k ne)
]

-- As a map from hashes to transactions, Add on a pool whose counter is at most 20480 puts the transaction
-- under its hash and changes nothing else, on a fuller pool it changes nothing, and RemoveTx takes the
-- hash out and changes nothing else; both keep the counter at least the number of entries and at most
-- 20481.
pub add-remove_tx :
    (pool : TxPool) (tx : Transaction) (k : Bytes)
    → Bounded pool
    → (get (add pool tx) k ≡ (
        if ltb max_tx_pool_size pool.count
        then get pool k
        else if bytes_eq (key_of tx) k
        then some tx
        else get pool k))
      × (get (remove_tx pool tx.body.hash) k
          ≡ (if bytes_eq (key_of tx) k then none else get pool k))
      × Bounded (add pool tx)
      × Bounded (remove_tx pool tx.body.hash)
unfolding get
add-remove_tx pool tx k b = (
  added (Bool-cases (ltb max_tx_pool_size pool.count)) (Bool-cases (bytes_eq (key_of tx) k)),
  removed (Bool-cases (bytes_eq (key_of tx) k)),
  add-Bounded pool tx b,
  remove_tx-Bounded pool tx b,
)
  where
    added :
        (ltb max_tx_pool_size pool.count ≡ true) ⊎ (ltb max_tx_pool_size pool.count ≡ false)
        → (bytes_eq (key_of tx) k ≡ true) ⊎ (bytes_eq (key_of tx) k ≡ false)
        → load (add pool tx).txs k ≡ (
            if ltb max_tx_pool_size pool.count
            then load pool.txs k
            else if bytes_eq (key_of tx) k
            then some tx
            else load pool.txs k)
    added (inl full) c =
        rw full (ap (λ (p : TxPool). load p.txs k) (add_full pool tx (ltb→lt _ _ full)))
    added (inr room) (inl e) =
        rw (room, e)
          (ap (load (add pool tx).txs) (sym (bytes_eq→eq (key_of tx) k e))
            ∙ load-add pool tx (ltb_false→le _ _ room))
    added (inr room) (inr e) =
        rw (room, e) (add_other pool tx k (λ same. cc (bytes_eq_refl k, same, e)))

    removed :
        (bytes_eq (key_of tx) k ≡ true) ⊎ (bytes_eq (key_of tx) k ≡ false)
        → load (remove_tx pool tx.body.hash).txs k
          ≡ (if bytes_eq (key_of tx) k then none else load pool.txs k)
    removed (inl e) = rw e (
        ap (load (remove_tx pool tx.body.hash).txs) (sym (bytes_eq→eq (key_of tx) k e))
        ∙ load-remove_tx pool tx)
    removed (inr e) = rw e (remove_other pool tx k (λ same. cc (bytes_eq_refl k, same, e)))

-- Adding a transaction whose hash has 32 bytes keeps every transaction under its own hash.
pub add-IsValid :
    (pool : TxPool) (tx : Transaction)
    → IsValid pool
    → length tx.body.hash ≡ 32
    → IsBytes tx.body.hash
    → IsValid (add pool tx)
add-IsValid pool tx valid l bytes k found h = elim (Bool-cases (ltb max_tx_pool_size pool.count)) [
  | inl full ↦
      valid k found
        (ap (λ (p : TxPool). load p.txs k) (sym (add_full pool tx (ltb→lt _ _ full))) ∙ h)
  | inr room ↦ elim (Bool-cases (bytes_eq (key_of tx) k)) [
    | inl e ↦
        let same : key_of tx ≡ k = bytes_eq→eq (key_of tx) k e in
        let own : some tx ≡ some found =
          sym (load-add pool tx (ltb_false→le _ _ room)) ∙ ap (load (add pool tx).txs) same ∙ h in
        let is_tx : tx ≡ found = cc own in
        subst
          (λ (t : Transaction). (k ≡ key_of t) × (length t.body.hash ≡ 32) × IsBytes t.body.hash)
          is_tx (sym same, l, bytes)
    | inr e ↦ valid k found (sym (add_other pool tx k (λ same. cc (bytes_eq_refl k, same, e))) ∙ h)
  ]
]

pub new-IsValid : IsValid new_tx_pool
unfolding load
new-IsValid k tx h = cc

-- The same transaction, handed in `n` times.
unfoldable pub add_times : ℕ → TxPool → Transaction → TxPool
unfolding add
add_times zero pool tx = pool
add_times (suc n) pool tx = add (add_times n pool tx) tx

add_times-count :
    (n : ℕ) (tx : Transaction)
    → n ≤ max_tx_pool_size
    → (load (add_times (suc n) new_tx_pool tx).txs (key_of tx) ≡ some tx)
      × (length (add_times (suc n) new_tx_pool tx).txs ≡ 1)
      × ((add_times (suc n) new_tx_pool tx).count ≡ suc n)
unfolding add_times add store load delete
add_times-count zero tx l = (rw (bytes_eq_refl (key_of tx)) refl, refl, refl)
add_times-count (suc n) tx l =
    let before = add_times (suc n) new_tx_pool tx in
    let v = add_times-count n tx (omega arith) in
    let room : ltb max_tx_pool_size before.count ≡ false = ground (arith, v.2) in
    let alone : length (delete before.txs (key_of tx)) + 1 ≤ length before.txs =
      length-delete_hit before.txs (key_of tx) tx v.0 in
    (
      rw (room, bytes_eq_refl (key_of tx)) refl,
      rw room (omega (arith, v.1, alone)),
      rw room (omega (arith, v.2)),
    )

-- A pool that took up one transaction 20481 times, and holds nothing else, refuses every other one.
pub add_times-clogs :
    (tx other : Transaction)
    → (length (add_times (suc max_tx_pool_size) new_tx_pool tx).txs ≡ 1)
      × (add (add_times (suc max_tx_pool_size) new_tx_pool tx) other
          ≡ add_times (suc max_tx_pool_size) new_tx_pool tx)
unfolding add
add_times-clogs tx other =
    let v = add_times-count max_tx_pool_size tx (omega arith) in
    (v.1, add_full (add_times (suc max_tx_pool_size) new_tx_pool tx) other (omega (arith, v.2)))
