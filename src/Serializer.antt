-- ===== src/Serializer.antt =====
-- utils/serializer.go and utils/deseralizer.go: structs as bytes and back, over the karmem runtime. A nil error stands beside
-- the bytes of `some`; a function that reads has no error.
pub mod Environments
use go_norn.Prelude.{ℕ, Option, none, some, []}
use go_norn.Prelude.Bytes.{Bytes}
use go_norn.Common.{Block, BlockHeader, Transaction, GenesisParams, GeneralParams, DataCommand}
use go_norn.TimeSync.{TimeSyncMsg}
use go_norn.Node.{SyncStatusMsg}
use go_norn.Wire.{Runtime, new_viewer}
use go_norn.Wire.Blocks.{
  write_block, read_block, write_transaction, read_transaction, transaction_viewer,
}
use go_norn.Wire.Headers.{write_block_header}
use go_norn.Wire.Messages.{write_sync_status_msg, read_sync_status_msg}
use go_norn.Wire.Params.{
  write_genesis_params, read_genesis_params, write_general_params, read_general_params,
  write_data_command, read_data_command,
}
use go_norn.Wire.Clocks.{
  BroadcastMessage, write_time_sync_msg, read_time_sync_msg, write_broadcast_message,
  read_broadcast_message,
}

module _ (k : Runtime) where
  -- SerializeBlock
  unfoldable pub serialize_block : Block → Option Bytes
  unfolding write_block
  serialize_block x = write_block k x

  -- SerializeTransaction
  unfoldable pub serialize_transaction : Transaction → Option Bytes
  unfolding write_transaction
  serialize_transaction x = write_transaction k x

  -- SerializeBlockHeader
  unfoldable pub serialize_block_header : BlockHeader → Option Bytes
  unfolding write_block_header
  serialize_block_header x = write_block_header k x

  -- SerializeStatusMsg
  unfoldable pub serialize_status_msg : SyncStatusMsg → Option Bytes
  unfolding write_sync_status_msg
  serialize_status_msg x = write_sync_status_msg k x

  -- SerializeGenesisParams
  unfoldable pub serialize_genesis_params : GenesisParams → Option Bytes
  unfolding write_genesis_params
  serialize_genesis_params x = write_genesis_params k x

  -- SerializeGeneralParams
  unfoldable pub serialize_general_params : GeneralParams → Option Bytes
  unfolding write_general_params
  serialize_general_params x = write_general_params k x

  -- SerializeTimeSyncMsg
  unfoldable pub serialize_time_sync_msg : TimeSyncMsg → Option Bytes
  unfolding write_time_sync_msg
  serialize_time_sync_msg x = write_time_sync_msg k x

  -- SerializeDataCommand
  unfoldable pub serialize_data_command : DataCommand → Option Bytes
  unfolding write_data_command
  serialize_data_command x = write_data_command k x

  -- SerializeBroadcastMessage
  unfoldable pub serialize_broadcast_message : BroadcastMessage → Option Bytes
  unfolding write_broadcast_message
  serialize_broadcast_message x = write_broadcast_message k x

  -- DeserializeBlock
  unfoldable pub deserialize_block : Bytes → Block
  unfolding read_block new_viewer
  deserialize_block text = read_block k text (new_viewer k text 0)

  -- DeserializeTransaction
  unfoldable pub deserialize_transaction : Bytes → Transaction
  unfolding read_transaction transaction_viewer
  deserialize_transaction text = read_transaction k text (transaction_viewer k text 0)

  -- DeserializeStatusMsg
  unfoldable pub deserialize_status_msg : Bytes → SyncStatusMsg
  unfolding read_sync_status_msg new_viewer
  deserialize_status_msg text = read_sync_status_msg k text (new_viewer k text 0)

  -- DeserializeGenesisParams
  unfoldable pub deserialize_genesis_params : Bytes → GenesisParams
  unfolding read_genesis_params new_viewer
  deserialize_genesis_params text = read_genesis_params k text (new_viewer k text 0)

  -- DeserializeGeneralParams
  unfoldable pub deserialize_general_params : Bytes → GeneralParams
  unfolding read_general_params new_viewer
  deserialize_general_params text = read_general_params k text (new_viewer k text 0)

  -- DeserializeTimeSyncMsg
  unfoldable pub deserialize_time_sync_msg : Bytes → TimeSyncMsg
  unfolding read_time_sync_msg new_viewer
  deserialize_time_sync_msg text = read_time_sync_msg k text (new_viewer k text 0)

  -- DeserializeDataCommand
  unfoldable pub deserialize_data_command : Bytes → DataCommand
  unfolding read_data_command new_viewer
  deserialize_data_command text = read_data_command k text (new_viewer k text 0)

  -- DeserializeBroadcastMessage
  unfoldable pub deserialize_broadcast_message : Bytes → BroadcastMessage
  unfolding read_broadcast_message new_viewer
  deserialize_broadcast_message text = read_broadcast_message k text (new_viewer k text 0)

-- The bytes that a caller goes on with: nil beside an error.
abbrev pub bytes_of : Option Bytes → Bytes
bytes_of none = []
bytes_of (some text) = text
