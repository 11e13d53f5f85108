-- ===== src/TxPool/Examples.antt =====
-- A pool of two transactions, one of which is on the chain.
use go_norn.Prelude.{
  ℕ, zero, suc, ◌+◌, ◌≤◌, ◌<◌, ◌≡◌, ◌≢◌, refl, Bool, true, false, Option, none, some, List, [], ◌∷◌,
  arith, length, replicate, ltb, if◌then◌else◌, ◌==◌,
}
use go_norn.Prelude.Bytes.{Bytes, bytes_eq, IsBytes}
use go_norn.Prelude.Int64.{int}
use go_norn.Prelude.Outcome.{done}
use go_norn.Common.{Transaction}
use go_norn.TxPool.{
  TxPool, new_tx_pool, key_of, add, package_transactions, max_tx_package_count, max_tx_pool_size,
}
use go_norn.TxPool.Visits.{IsValid, Bounded}
use go_norn.TxPool.Packaging.{Packaged, package_transactions-Packaged}
use go_norn.TxPool.Counting.{add_times, add_times-clogs, add-IsValid, new-IsValid}

abbrev transaction : ℕ → Transaction
transaction n = record {
  body = record {
    hash = n ∷ replicate 31 0;
    address = [];
    receiver = [];
    gas = int 0;
    nonce = int 0;
    event = [];
    opt = [];
    state = [];
    payload = [];
    expire = int 0;
    height = int 0;
    index = int 0;
    block_hash = [];
    timestamp = int 0;
    public = [];
    signature = [];
  };
}

abbrev first : Transaction
first = transaction 1

abbrev second : Transaction
second = transaction 2

abbrev is_second : Bytes → Bool
is_second [] = false
is_second (b ∷ bs) = b == 2

abbrev chain : Bytes → Option Transaction
chain hash = if is_second hash then some second else none

first-IsBytes : IsBytes first.body.hash
first-IsBytes = ground arith

two : TxPool
two = add (add new_tx_pool first) second

second-IsBytes : IsBytes second.body.hash
second-IsBytes = ground arith

two-IsValid : IsValid two
unfolding two
two-IsValid =
    add-IsValid (add new_tx_pool first) second
      (add-IsValid new_tx_pool first new-IsValid refl first-IsBytes) refl second-IsBytes

two-Bounded : Bounded two
unfolding two add bytes_eq go_norn.Prelude.Bytes.encode_to_string
two-Bounded = (omega arith, omega arith)

package_transactions_run :
    package_transactions chain (key_of first ∷ key_of second ∷ []) two
    ≡ done (record { tx_queue = []; txs = []; count = 0 }, first ∷ [])
unfolding two add package_transactions go_norn.Prelude.Bytes.decode_string
    go_norn.Prelude.Bytes.encode_to_string go_norn.Prelude.Bytes.bytes_eq
package_transactions_run = refl

package_transactions-Packaged_example :
    (after : TxPool × List Transaction) × (package_transactions chain
        (key_of first ∷ key_of second ∷ [])
        two
      ≡ done after)
    × Packaged chain two max_tx_package_count after
package_transactions-Packaged_example =
    package_transactions-Packaged chain (key_of first ∷ key_of second ∷ []) two two-IsValid
      two-Bounded

add_times-clogs_example :
    (length (add_times (suc max_tx_pool_size) new_tx_pool first).txs ≡ 1)
    × (add (add_times (suc max_tx_pool_size) new_tx_pool first) second
        ≡ add_times (suc max_tx_pool_size) new_tx_pool first)
add_times-clogs_example = add_times-clogs first second
