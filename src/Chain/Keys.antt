-- ===== src/Chain/Keys.antt =====
-- The database keys of blocks, heights, transactions and of the latest block.
use go_norn.Prelude.{
  ℕ, ◌≤◌, ◌≡◌, ◌≢◌, ap, some, List, [], ◌∷◌, length, All, arith, Bool-cases, inl, inr, sym, ◌∙◌,
  refl,
}
use go_norn.Prelude.Int64.{Int64, InRange}
use go_norn.Prelude.Bytes.{Bytes, IsBytes, bytes_eq, bytes_eq→eq, bytes_eq_refl}
use go_norn.Prelude.Decimal.{length-format_int, format_int_injective}
use go_norn.Common.{Hash}
use go_norn.DataProcessor.{block_hash2_db_key}
use go_norn.Chain.{Db, put, batch_insert, block_height2_db_key, latest_key}

-- A SHA-256 hash: 32 bytes.
abbrev pub IsHash : Hash → Type 0
IsHash hash = (length hash ≡ 32) × IsBytes hash

unfoldable pub first : Bytes → ℕ
first [] = 0
first (b ∷ bs) = b

after_prefix : Bytes → Bytes
after_prefix (a ∷ b ∷ c ∷ d ∷ e ∷ f ∷ rest) = rest
after_prefix _ = []

length-block_height2_db_key : (n : Int64) → length (block_height2_db_key n) ≤ 27
unfolding block_height2_db_key
length-block_height2_db_key n = omega (arith, length-format_int n)

pub hash_key-height_key :
    (hash : Hash) (n : Int64) → IsHash hash → block_hash2_db_key hash ≢ block_height2_db_key n
hash_key-height_key hash n h e =
    absurd (omega (arith, ap length e, length-block_height2_db_key n, h.0))

pub hash_key-latest_key : (hash : Hash) → block_hash2_db_key hash ≢ latest_key
unfolding first
hash_key-latest_key hash e = absurd (omega (arith, ap first e))

pub height_key-latest_key : (n : Int64) → block_height2_db_key n ≢ latest_key
unfolding first block_height2_db_key
height_key-latest_key n e = absurd (omega (arith, ap first e))

pub hash_key_injective : (h h' : Hash) → block_hash2_db_key h ≡ block_hash2_db_key h' → h ≡ h'
unfolding after_prefix
hash_key_injective h h' e = ap after_prefix e

pub height_key_injective :
    (n m : Int64) → InRange n → InRange m → block_height2_db_key n ≡ block_height2_db_key m → n ≡ m
unfolding after_prefix block_height2_db_key
height_key_injective n m hn hm e = format_int_injective n m hn hm (ap after_prefix e)

pub put_self : (db : Db) (key value : Bytes) → put db key value key ≡ some value
put_self db key value = rw (bytes_eq_refl key)

pub put_other : (db : Db) (key value k : Bytes) → key ≢ k → put db key value k ≡ db k
put_other db key value k ne = elim (Bool-cases (bytes_eq key k)) [
  | inl e ↦ absurd (ne (bytes_eq→eq key k e))
  | inr e ↦ rw e
]

-- A write under a transaction's key.
unfoldable pub IsTxEntry : Bytes × Bytes → Type 0
unfolding first
IsTxEntry e = first e.0 ≡ b't'

-- A batch of transactions changes nothing under the keys of blocks.
pub batch_insert_other :
    (es : List (Bytes × Bytes)) (db : Db) (k : Bytes)
    → All IsTxEntry es
    → first k ≢ b't'
    → batch_insert db es k ≡ db k
unfolding batch_insert IsTxEntry
batch_insert_other [] db k h ne = refl
batch_insert_other (e ∷ es) db k h ne =
    batch_insert_other es (put db e.0 e.1) k h.1 ne
    ∙ put_other db e.0 e.1 k (λ q. ne (sym (ap first q) ∙ h.0))
