-- ===== src/DataProcessor.antt =====
-- core/data.go: the processor of the data commands that transactions carry, with the database keys of
-- utils/dbtools.go. A send to the task channel or to the event router is taken when it goes through.
pub mod Keys
pub mod Tasks
mod Examples
use go_norn.Prelude.{◌≡◌, Bool, true, false, Option, none, some, List, [], ◌∷◌, ◌++◌, if◌then◌else◌}
use go_norn.Prelude.Bytes.{Bytes, bytes_eq, encode_to_string}
use go_norn.Prelude.Int64.{Int64}
use go_norn.Common.{Hash}

-- BlockHash2DBKey, TxHash2DBKey and DataAddressKey2DBKey of utils/dbtools.go.
abbrev pub block_hash2_db_key : Hash → Bytes
block_hash2_db_key hash = b'b' ∷ b'l' ∷ b'o' ∷ b'c' ∷ b'k' ∷ b'#' ∷ hash

abbrev pub tx_hash2_db_key : Hash → Bytes
tx_hash2_db_key hash = b't' ∷ b'x' ∷ b'#' ∷ hash

unfoldable pub data_address_key2_db_key : Bytes → Bytes → Bytes
data_address_key2_db_key address key =
    b'd' ∷ b'a' ∷ b't' ∷ b'a' ∷ b'#' ∷ encode_to_string address ++ b'#' ∷ key

-- encoding/json on map[string]string and on lists of it. `Map` stands for the maps that Unmarshal yields;
-- a list of them is read back as it was written.
pub record Json : Type 1 where
  pub Map : Type 0
  pub unmarshal_map : Bytes → Option Map
  pub unmarshal_array : Bytes → Option (List Map)
  pub marshal : List Map → Bytes
  pub unmarshal-marshal : (ms : List Map) → unmarshal_array (marshal ms) ≡ some ms

pub data TaskType : Type 0 where
  set : TaskType
  append : TaskType
  other : TaskType

pub record DataTask : Type 0 where
  pub type : TaskType
  pub hash : Hash
  pub height : Int64
  pub address : Bytes
  pub key : Bytes
  pub value : Bytes

-- pubsub.Event of type "data"; the height is kept as a number.
pub record Event : Type 0 where
  pub hash : Bytes
  pub height : Int64
  pub address : Bytes
  pub key : Bytes
  pub value : Bytes

-- The database and what has been handed to the event router.
pub record DataProcessor : Type 0 where
  pub db : Bytes → Option Bytes
  pub events : List Event

-- db.Insert, whose error the code ignores.
abbrev pub insert : (Bytes → Option Bytes) → Bytes → Bytes → Bytes → Option Bytes
insert db key value k = if bytes_eq key k then some value else db k

abbrev pub event_of : DataTask → Bytes → Event
event_of task value = record {
  hash = encode_to_string task.hash;
  height = task.height;
  address = encode_to_string task.address;
  key = task.key;
  value = value;
}

abbrev pub key_of : DataTask → Bytes
key_of task = data_address_key2_db_key task.address task.key

module _ (json : Json) where
  -- The value that setData announces.
  -- The value that setData announces: a map is announced as a list of one.
  announced : DataTask → Option json.Map → Bytes
  announced task none = task.value
  announced task (some m) = json.marshal (m ∷ [])

  unfoldable pub set_data : DataProcessor → DataTask → DataProcessor
  unfolding announced data_address_key2_db_key
  set_data dp task = record {
    db = insert dp.db (key_of task) task.value;
    events = dp.events ++ event_of task (announced task (json.unmarshal_map task.value)) ∷ [];
  }

  -- The list that appendData extends: that of the database, or an empty one for a missing key. `none`: the
  -- value in the database is no list.
  unfoldable pub stored : Option Bytes → Option (List json.Map)
  stored none = some []
  stored (some value) = json.unmarshal_array value

  extend : DataProcessor → DataTask → Option json.Map → Option (List json.Map) → DataProcessor
  unfolding data_address_key2_db_key
  extend dp task (some m) (some ms) = record {
    db = insert dp.db (key_of task) (json.marshal (ms ++ m ∷ []));
    events = dp.events ++ event_of task (json.marshal (ms ++ m ∷ [])) ∷ [];
  }
  extend dp task _ _ = dp

  unfoldable pub append_data : DataProcessor → DataTask → DataProcessor
  unfolding extend stored data_address_key2_db_key
  append_data dp task =
      extend dp task (json.unmarshal_map task.value) (stored (dp.db (key_of task)))

  -- An append is only handled if its value is a map.
  checked : DataProcessor → DataTask → Option json.Map → DataProcessor
  unfolding append_data
  checked dp task none = dp
  checked dp task (some m) = append_data dp task

  dispatch : DataProcessor → DataTask → TaskType → DataProcessor
  unfolding set_data checked
  dispatch dp task set = set_data dp task
  dispatch dp task append = checked dp task (json.unmarshal_map task.value)
  dispatch dp task other = dp

  -- Run, for one task.
  unfoldable pub process_task : DataProcessor → DataTask → DataProcessor
  unfolding dispatch
  process_task dp task = dispatch dp task task.type

  unfoldable pub process_tasks : DataProcessor → List DataTask → DataProcessor
  unfolding process_task
  process_tasks dp [] = dp
  process_tasks dp (task ∷ tasks) = process_tasks (process_task dp task) tasks
