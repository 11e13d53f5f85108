-- ===== src/TxPool.antt =====
-- core/txpool.go: the pool of transactions that wait to be packaged into a block. The pool's sync.Map is
-- an association list; the order in which its Range visits the keys is an argument. The handlers run
-- one at a time.
pub mod Entries
pub mod Visits
pub mod Packaging
pub mod Counting
mod Examples
use go_norn.Prelude.{
  ℕ, zero, suc, ◌+◌, ◌-◌, Bool, true, false, Option, none, some, List, [], ◌∷◌, ◌++◌, ltb, leb,
  if◌then◌else◌, length, take, is_some,
}
use go_norn.Prelude.Bytes.{Bytes, bytes_eq, encode_to_string, decode_string}
use go_norn.Prelude.Outcome.{Outcome, done, panicked, ◌>>=◌}
use go_norn.Common.{Transaction, TransactionBody}

abbrev pub max_tx_package_count : ℕ
max_tx_package_count = 10000

abbrev pub max_tx_pool_size : ℕ
max_tx_pool_size = 20480

abbrev pub Entries : Type 0
Entries = List (Bytes × Transaction)

-- sync.Map: Load, Delete and Store.
unfoldable pub load : Entries → Bytes → Option Transaction
load [] k = none
load (e ∷ es) k = let rest = load es k in if bytes_eq e.0 k then some e.1 else rest

unfoldable pub delete : Entries → Bytes → Entries
delete [] k = []
delete (e ∷ es) k = let rest = delete es k in if bytes_eq e.0 k then rest else e ∷ rest

unfoldable pub store : Entries → Bytes → Transaction → Entries
unfolding delete
store es k tx = (k, tx) ∷ delete es k

pub record TxPool : Type 0 where
  pub tx_queue : List Bytes
  pub txs : Entries
  pub count : ℕ

-- NewTxPool, the first time.
abbrev pub new_tx_pool : TxPool
new_tx_pool = record { tx_queue = []; txs = []; count = 0 }

-- The hash of a transaction in hexadecimal.
abbrev pub key_of : Transaction → Bytes
key_of tx = encode_to_string tx.body.hash

unfoldable pub add : TxPool → Transaction → TxPool
unfolding store
add pool tx =
    if ltb max_tx_pool_size pool.count
    then pool
    else record pool { txs = store pool.txs (key_of tx) tx; count = pool.count + 1 }

unfoldable pub contain : TxPool → Bytes → Bool
unfolding load
contain pool hash = is_some (load pool.txs hash)

unfoldable pub get : TxPool → Bytes → Option Transaction
unfolding load
get pool hash = load pool.txs hash

abbrev pub take_out : TxPool → Bytes → TxPool
take_out pool k = record pool { txs = delete pool.txs k; count = pool.count - 1 }

unfoldable pub remove_tx : TxPool → Bytes → TxPool
unfolding load
remove_tx pool hash =
    if is_some (load pool.txs (encode_to_string hash))
    then take_out pool (encode_to_string hash)
    else pool

-- rangeFunc, over the keys that Range visits: it stops at a full package.
unfoldable pub range_func : List Bytes → List Bytes → List Bytes
range_func queue [] = queue
range_func queue (k ∷ ks) =
    let rest = range_func (queue ++ k ∷ []) ks in
    if leb max_tx_package_count (length queue) then queue else rest

-- `chain` is BlockChain.GetTransactionByHash.
module _ (chain : Bytes → Option Transaction) where
  -- The end of an iteration of Package, for a hash that decodes and is in the pool. The conversion of
  -- a slice to a hash panics if the slice is shorter than 32.
  unfoldable pub visit_hit :
      TxPool → Bytes → Bytes → Transaction → Outcome (TxPool × Option Transaction)
  visit_hit pool k hash value =
      if ltb (length hash) 32
      then panicked
      else done (take_out pool k, if is_some (chain (take 32 hash)) then none else some value)

  -- The two early `continue`s, on the decoded hash and on what the pool has for it.
  unfoldable pub visit_found :
      TxPool → Bytes → Option Bytes → Option Transaction → Outcome (TxPool × Option Transaction)
  unfolding visit_hit
  visit_found pool k none found = done (pool, none)
  visit_found pool k (some hash) none = done (pool, none)
  visit_found pool k (some hash) (some value) = visit_hit pool k hash value

  -- One iteration, from the hash that it reads from the queue.
  unfoldable pub visit : TxPool → Bytes → Outcome (TxPool × Option Transaction)
  unfolding visit_found load
  visit pool k = visit_found pool k (decode_string k) (load pool.txs k)

  abbrev pub collect : Option Transaction → List Transaction → List Transaction
  collect none txs = txs
  collect (some tx) txs = tx ∷ txs

  -- The loop of Package, with `rounds` iterations to go; the queue is passed beside the pool.
  unfoldable pub package_loop :
      (rounds count : ℕ) (queue : List Bytes) → TxPool → Outcome (TxPool × List Transaction)
  unfolding visit
  package_loop zero count queue pool = done (record pool { tx_queue = queue }, [])
  package_loop (suc k) count [] pool = done (record pool { tx_queue = [] }, [])
  package_loop (suc k) count (h ∷ queue) pool =
      let rest = visit pool h >>= λ v.
      package_loop k (if is_some v.1 then count + 1 else count) queue v.0 >>= λ r.
      done (r.0, collect v.1 r.1) in
      if ltb max_tx_package_count count
      then done (record pool { tx_queue = h ∷ queue }, [])
      else rest

  -- Package; `ranged` are the keys in the order of Range.
  unfoldable pub package_transactions : List Bytes → TxPool → Outcome (TxPool × List Transaction)
  unfolding package_loop range_func
  package_transactions ranged pool =
      package_loop max_tx_package_count 0 (range_func pool.tx_queue ranged) pool
