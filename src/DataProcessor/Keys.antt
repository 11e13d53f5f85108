-- ===== src/DataProcessor/Keys.antt =====
-- The database keys of data do not collide.
use go_norn.Prelude.{ℕ, ap, arith, ◌≡◌, ◌≢◌, [], ◌∷◌}
use go_norn.Prelude.Bytes.{Bytes, IsBytes, encode-cut}
use go_norn.Common.{Hash}
use go_norn.DataProcessor.{block_hash2_db_key, tx_hash2_db_key, data_address_key2_db_key}

first : Bytes → ℕ
first [] = 0
first (b ∷ bs) = b

-- Two data keys are equal only for the same address and the same key, whatever bytes the key has; and no data
-- key is the key of a block or of a transaction.
pub data_address_key2_db_key_injective :
    (address address' key key' : Bytes) (hash : Hash)
    → IsBytes address
    → IsBytes address'
    → data_address_key2_db_key address key ≡ data_address_key2_db_key address' key'
    → ((address ≡ address') × (key ≡ key'))
      × (data_address_key2_db_key address key ≢ block_hash2_db_key hash)
      × (data_address_key2_db_key address key ≢ tx_hash2_db_key hash)
unfolding data_address_key2_db_key first
data_address_key2_db_key_injective address address' key key' hash ha ha' e = (
  encode-cut address address' key key' ha ha' (cc e),
  (λ h. absurd (omega (arith, ap first h))),
  (λ h. absurd (omega (arith, ap first h))),
)
