-- ===== src/Serializer/Environments.antt =====
-- What the chain, the node, the signatures and the RPC take for the encoding of structs, filled in with utils/serializer.go and
-- utils/deseralizer.go over a karmem runtime: their laws hold.
use go_norn.Prelude.{◌^◌, ◌<◌, ◌≡◌, refl, ap, arith, true, Option, some, length, is_some, ◌+◌}
use go_norn.Prelude.Int64.{Int64}
use go_norn.Prelude.Lru.{Lru}
use go_norn.Prelude.Bytes.{Bytes}
use go_norn.Common.{Block, Transaction, TransactionBody, GeneralParams, Hash, DataCommand}
use go_norn.Common.Encodable.{IsFit, IsSendable, IsEncodable, params_size}
use go_norn.Chain.{ChainEnv}
use go_norn.Chain.Packaging.{PackEnv}
use go_norn.Vrf.{Curve}
use go_norn.Signing.{Signatures}
use go_norn.Node.{NodeEnv}
use go_norn.Peer.{Message, Codec, IsWireable}
use go_norn.Wire.Messages.{write_message, read_message, read-write_message}
use go_norn.Wire.{Runtime, new_viewer}
use go_norn.Wire.Root.{write_as_root-IsTable, write_as_root-runs}
use go_norn.Wire.Params.{
  general_params_cells, write_general_params, read-write_general_params, data_command_cells,
  write_data_command, read-write_data_command,
}
use go_norn.Wire.Headers.{
  transaction_body_cells, write_transaction_body, read_transaction_body,
  read-write_transaction_body,
}
use go_norn.Wire.Blocks.Restored.{read-write_transaction, read-write_block}
use go_norn.Serializer.{
  bytes_of, serialize_block, deserialize_block, serialize_transaction, deserialize_transaction,
  serialize_status_msg, serialize_block_header, serialize_general_params,
  deserialize_general_params, serialize_genesis_params, deserialize_genesis_params,
  deserialize_data_command, serialize_data_command,
}

module _ (k : Runtime) where
  pub deserialize-serialize_block :
      (b : Block) → IsEncodable b → deserialize_block k (bytes_of (serialize_block k b)) ≡ b
  unfolding serialize_block deserialize_block
  deserialize-serialize_block b fits =
      let written = read-write_block k b fits.0 fits.1 fits.2 in rw written.1 written.2

  pub deserialize-serialize_transaction :
      (tx : Transaction)
      → IsSendable tx
      → deserialize_transaction k (bytes_of (serialize_transaction k tx)) ≡ tx
  unfolding serialize_transaction deserialize_transaction
  deserialize-serialize_transaction tx fits =
      let written = read-write_transaction k tx fits.0 fits.1 in rw written.1 written.2

  pub serialize_transaction-written :
      (tx : Transaction)
      → IsSendable tx
      → serialize_transaction k tx ≡ some (bytes_of (serialize_transaction k tx))
  unfolding serialize_transaction
  serialize_transaction-written tx fits =
      let written = read-write_transaction k tx fits.0 fits.1 in rw written.1 refl

  general_params_small :
      (p : GeneralParams)
      → length p.random_number ≡ 33
      → length (bytes_of (write_general_params k p)) < 2 ^ 32
      → params_size p < 2 ^ 32
  unfolding write_general_params general_params_cells
  general_params_small p own small =
      let written =
        write_as_root-IsTable k 88 85 (general_params_cells p) (omega (arith, own)) (omega arith)
          (omega arith) in
      omega (arith, small, ap (λ (o : Option Bytes). length (bytes_of o)) written.1, written.3)

  -- Parameters of a proper random number are read back if their text has fewer than 2 ^ 32 bytes.
  pub deserialize-serialize_general_params :
      (p : GeneralParams)
      → length p.random_number ≡ 33
      → length (bytes_of (serialize_general_params k p)) < 2 ^ 32
      → deserialize_general_params k (bytes_of (serialize_general_params k p)) ≡ p
  unfolding serialize_general_params deserialize_general_params
  deserialize-serialize_general_params p own small =
      let size : params_size p < 2 ^ 32 = general_params_small p own small in
      let written = read-write_general_params k p own size in rw written.1 written.2

  data_command_small :
      (x : DataCommand)
      → length (bytes_of (write_data_command k x)) < 2 ^ 32
      → 48 + (length x.opt + (length x.key + length x.value)) < 2 ^ 32
  unfolding write_data_command data_command_cells
  data_command_small x small =
      let written =
        write_as_root-IsTable k 48 40 (data_command_cells x) (omega arith) (omega arith)
          (omega arith) in
      omega (arith, small, ap (λ (o : Option Bytes). length (bytes_of o)) written.1, written.3)

  pub deserialize-serialize_data_command :
      (x : DataCommand)
      → length (bytes_of (serialize_data_command k x)) < 2 ^ 32
      → deserialize_data_command k (bytes_of (serialize_data_command k x)) ≡ x
  unfolding serialize_data_command deserialize_data_command
  deserialize-serialize_data_command x small =
      let size : 48 + (length x.opt + (length x.key + length x.value)) < 2 ^ 32 =
        data_command_small x small in
      let written = read-write_data_command k x size in rw written.1 written.2

  -- The chain's environment over caches and a karmem runtime.
  abbrev pub chain_env :
      (lru : Lru Bytes (Unit {0}))
      → Lru Bytes Block
      → Lru Int64 Hash
      → Lru Bytes Transaction
      → ChainEnv
  chain_env lru blocks heights txs = record {
    buffer_env = record { lru = lru; deserialize_general_params = deserialize_general_params k };
    block_lru = blocks;
    height_lru = heights;
    tx_lru = txs;
    serialize_block = λ b. bytes_of (serialize_block k b);
    deserialize_block = deserialize_block k;
    serialize_transaction = λ tx. bytes_of (serialize_transaction k tx);
    deserialize_transaction = deserialize_transaction k;
    deserialize_data_command = deserialize_data_command k;
    deserialize_genesis_params = deserialize_genesis_params k;
    deserialize-serialize_block = deserialize-serialize_block;
    deserialize-serialize_transaction = deserialize-serialize_transaction;
  }

  -- What a node packages with.
  abbrev pub pack_env : (Bytes → Bytes) → PackEnv
  pack_env sha256 = record {
    sha256 = sha256;
    serialize_block_header = λ h. bytes_of (serialize_block_header k h);
    serialize_general_params = λ p. bytes_of (serialize_general_params k p);
    serialize_genesis_params = λ p. bytes_of (serialize_genesis_params k p);
  }

  abbrev pub node_env :
      ChainEnv → (curve : Curve) → (Bytes → Bytes) → Lru Bytes (Unit {0}) → NodeEnv
  node_env chain curve sha256 known = record {
    chain_env = chain;
    curve = curve;
    sha256 = sha256;
    known_lru = known;
    serialize_status_msg = λ msg. bytes_of (serialize_status_msg k msg);
  }

  pub body_runs : (b : TransactionBody) → is_some (write_transaction_body k b) ≡ true
  unfolding write_transaction_body
  body_runs b = rw (write_as_root-runs k 256 249 (transaction_body_cells b)).1 refl

  pub body_back :
      (b : TransactionBody)
      → IsFit b
      → (let text = bytes_of (write_transaction_body k b) in
          read_transaction_body k text (new_viewer k text 0))
        ≡ b
  body_back b fits =
      let written = read-write_transaction_body k b fits.0 fits.1 in rw written.1 written.2

  -- Any ECDSA, with the bodies of transactions as the generated code writes and reads them.
  abbrev pub signatures :
      {curve : Curve} {sha256 : Bytes → Bytes} → Signatures curve sha256 → Signatures curve sha256
  signatures s = record s {
    write_body = λ b. (is_some (write_transaction_body k b), bytes_of (write_transaction_body k b));
    read_body = λ text. read_transaction_body k text (new_viewer k text 0);
    writes = body_runs;
    read-write_body = body_back;
  }

  pub message_back :
      (m : Message)
      → IsWireable m
      → (let text = bytes_of (write_message k m) in read_message k text (new_viewer k text 0)) ≡ m
  message_back m fits =
      let written = read-write_message k m fits.code fits.size fits.receive_at fits.payload in
      rw written.1 written.2

  -- Any base64, with the messages of the streams as the generated code writes and reads them.
  abbrev pub codec : Codec → Codec
  codec c = record c {
    write_as_root = λ m. bytes_of (write_message k m);
    read_as_root = λ text. read_message k text (new_viewer k text 0);
    read-write = message_back;
  }
