-- ===== src/DataProcessor/Examples.antt =====
-- A stand-in for JSON: a map is a number below 100, written as one byte, a list begins with a byte 100.
use go_norn.Prelude.{
  ℕ, ◌≡◌, ◌≢◌, refl, ◌⊎◌, inl, inr, arith, Bool, true, false, Option, none, some, List, [], ◌∷◌,
  ◌++◌, ◌==◌, if◌then◌else◌,
}
use go_norn.Prelude.Int64.{int}
use go_norn.Prelude.Bytes.{Bytes, IsBytes}
use go_norn.DataProcessor.{
  Json, DataTask, TaskType, append, DataProcessor, process_tasks, stored, data_address_key2_db_key,
  block_hash2_db_key, tx_hash2_db_key,
}
use go_norn.DataProcessor.Keys.{data_address_key2_db_key_injective}

abbrev read_map : Bytes → Option ℕ
read_map [] = none
read_map (b ∷ []) = some b
read_map (b ∷ c ∷ bs) = none

abbrev read_array : Bytes → Option (List ℕ)
read_array [] = none
read_array (b ∷ bs) = if b == 100 then some bs else none

abbrev json : Json
json = record {
  Map = ℕ;
  unmarshal_map = read_map;
  unmarshal_array = read_array;
  marshal = λ ms. 100 ∷ ms;
  unmarshal-marshal = λ ms. refl;
}

abbrev task : TaskType → ℕ → DataTask
task type value = record {
  type = type;
  hash = [];
  height = int 1;
  address = 1 ∷ [];
  key = 2 ∷ [];
  value = value ∷ [];
}

abbrev empty_db : DataProcessor
empty_db = record { db = λ k. none; events = [] }

abbrev two_appends : List DataTask
two_appends = task append 5 ∷ task append 6 ∷ []

abbrev place : Bytes
place = data_address_key2_db_key (1 ∷ []) (2 ∷ [])

appended : (process_tasks json empty_db two_appends).db place ≡ some (100 ∷ 5 ∷ 6 ∷ [])
unfolding process_tasks go_norn.Prelude.Bytes.bytes_eq go_norn.Prelude.Bytes.encode_to_string
appended = refl

nothing_stored : stored json (empty_db.db place) ≡ some []
unfolding stored
nothing_stored = refl

abbrev one : Bytes
one = 1 ∷ []

abbrev name : Bytes
name = 2 ∷ []

data_address_key2_db_key_injective_example :
    ((one ≡ one) × (name ≡ name)) × (place ≢ block_hash2_db_key []) × (place ≢ tx_hash2_db_key [])
data_address_key2_db_key_injective_example =
    data_address_key2_db_key_injective one one name name [] (omega arith, tt) (omega arith, tt) refl
