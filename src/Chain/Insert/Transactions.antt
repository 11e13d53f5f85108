-- ===== src/Chain/Insert/Transactions.antt =====
-- What insertBlock stores of a block's transactions, and GetTransactionByHash.
use go_norn.Prelude.{[], ◌∷◌}
use go_norn.Prelude.Bytes.{Bytes}
use go_norn.TxPool.{TxPool}

without_prefix : Bytes → Bytes
without_prefix (a ∷ b ∷ c ∷ rest) = rest
without_prefix _ = []
