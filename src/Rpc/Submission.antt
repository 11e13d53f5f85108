-- ===== src/Rpc/Submission.antt =====
-- rpc/blockchain.go and rpc/transaction.go: the two ways in which a client adds a transaction, one that the node signs
-- with its own key and one that is signed already.
pub mod Acceptance
pub mod Screening
use go_norn.Prelude.{
  ℕ, ◌≡◌, Bool, true, false, not, ◌||◌, Option, none, some, List, [], ◌∷◌, if◌then◌else◌, replicate,
}
use go_norn.Prelude.Int64.{Int64, int, add64}
use go_norn.Prelude.Bytes.{Bytes, bytes_eq, encode_to_string, decode_string}
use go_norn.Prelude.Outcome.{Outcome, done, panicked, ◌>>=◌}
use go_norn.Common.{Transaction, TransactionBody}
use go_norn.Vrf.{PrivateKey, decode_private_key_from_hex_string, public_key2_bytes, or_panic}
use go_norn.Node.{NodeEnv, Manager}
use go_norn.Node.Gossip.{add_transaction}
use go_norn.Chain.Packaging.{to_array}
use go_norn.Signing.{Signatures, public_key_bytes2_address, verify}
use go_norn.Rpc.{RpcEnv, RpcError, required, type_error, sign_failed, Reply, ok, error}

-- pb.SendTransactionWithDataReq
pub record SendTransactionWithDataReq : Type 0 where
  pub kind : Option Bytes
  pub receiver : Option Bytes
  pub key : Option Bytes
  pub value : Option Bytes

-- setCommandString and appendCommandString
abbrev pub set_command : Bytes
set_command = b's' ∷ b'e' ∷ b't' ∷ []

abbrev pub append_command : Bytes
append_command = b'a' ∷ b'p' ∷ b'p' ∷ b'e' ∷ b'n' ∷ b'd' ∷ []

unfoldable pub is_command : Bytes → Bool
is_command kind = bytes_eq kind set_command || bytes_eq kind append_command

-- 3000 milliseconds
abbrev pub expire_after : Int64
expire_after = int 3000

module _ (env : RpcEnv) where
  abbrev pub Node : Type 0
  Node = Manager env.node_env

  abbrev pub Key : Type 0
  Key = PrivateKey env.node_env.curve

  -- The data of a transaction, which it has if the request has a key and a value.
  unfoldable pub command_bytes : Bytes → Option Bytes → Option Bytes → Bytes
  command_bytes kind none value = []
  command_bytes kind (some key) none = []
  command_bytes kind (some key) (some value) =
      env.write_data_command (record { opt = kind; key = key; value = value })

  -- The body before it is signed.
  abbrev pub body_of : (receiver public address payload : Bytes) → Int64 → TransactionBody
  body_of receiver public address payload timestamp = record {
    hash = replicate 32 0;
    address = address;
    receiver = receiver;
    gas = int 0;
    nonce = int 0;
    event = [];
    opt = [];
    state = [];
    payload = payload;
    expire = add64 timestamp expire_after;
    height = int 0;
    index = int 0;
    block_hash = replicate 32 0;
    timestamp = timestamp;
    public = public;
    signature = [];
  }

  unfoldable pub build_body :
      Key → Bytes → Bytes → Int64 → SendTransactionWithDataReq → Outcome TransactionBody
  unfolding to_array public_key_bytes2_address command_bytes
  build_body prv kind decoded timestamp req = do
    receiver ← to_array 20 decoded
    text ← public_key2_bytes env.node_env.curve prv.public
    public ← to_array 33 text
    address ← public_key_bytes2_address env.signatures public
    done (body_of receiver public address (command_bytes kind req.key req.value) timestamp)

  with_signature : TransactionBody → Bytes → Option Bytes → Outcome (Option Transaction)
  unfolding to_array
  with_signature body tx_hash none = done none
  with_signature body tx_hash (some signature) = do
    hash ← to_array 32 tx_hash
    done (some (record { body = record body { hash = hash; signature = signature } }))

  -- The hash and the signature, with the randomness that is read.
  unfoldable pub sign : Key → ℕ → TransactionBody → Outcome (Option Transaction)
  unfolding with_signature
  sign prv random body =
      let tx_hash = env.node_env.sha256 (env.signatures.write_body body).1 in
      with_signature body tx_hash (env.signatures.sign_asn1 random prv tx_hash)

  add_signed : Node → Option Transaction → Outcome (Node × Reply Bytes)
  unfolding add_transaction
  add_signed pm none = done (pm, error sign_failed)
  add_signed pm (some tx) = do
    pm' ← add_transaction pm tx
    done (pm', ok (encode_to_string tx.body.hash))

  module _ (timestamp : Int64) (random : ℕ) (req : SendTransactionWithDataReq) where
    send_to : Node → Bytes → Key → Option Bytes → Outcome (Node × Reply Bytes)
    unfolding build_body sign add_signed
    send_to pm kind prv none = done (pm, error RpcError.decode_failed)
    send_to pm kind prv (some decoded) = do
      body ← build_body prv kind decoded timestamp req
      tx ← sign prv random body
      add_signed pm tx

    send_with_key : Node → Bytes → Bytes → Option Key → Outcome (Node × Reply Bytes)
    unfolding send_to decode_string
    send_with_key pm kind receiver none = done (pm, error RpcError.decode_failed)
    send_with_key pm kind receiver (some prv) = send_to pm kind prv (decode_string receiver)

    send_typed : Bytes → Node → Bytes → Option Bytes → Outcome (Node × Reply Bytes)
    unfolding is_command send_with_key decode_private_key_from_hex_string
    send_typed prv_hex pm receiver none = done (pm, error type_error)
    send_typed prv_hex pm receiver (some kind) =
        let send =
          send_with_key pm kind receiver
            (decode_private_key_from_hex_string env.node_env.curve prv_hex) in
        if not (is_command kind) then done (pm, error type_error) else send

    send_from : Bytes → Node → Option Bytes → Outcome (Node × Reply Bytes)
    unfolding send_typed
    send_from prv_hex pm none = done (pm, error required)
    send_from prv_hex pm (some receiver) = send_typed prv_hex pm receiver req.kind

    -- SendTransactionWithData, with the configured key.
    unfoldable pub send_transaction_with_data : Bytes → Node → Outcome (Node × Reply Bytes)
    unfolding send_from
    send_transaction_with_data prv_hex pm = send_from prv_hex pm req.receiver

-- pb.SubmitTransactionStatus
pub data SubmitStatus : Type 0 where
  decode_failed : SubmitStatus
  deserialize_failed : SubmitStatus
  signature_failed : SubmitStatus
  format_error : SubmitStatus
  success : SubmitStatus

module _ (env : RpcEnv) where
  -- The node, which is nil before it is made, the status, and whether there is an error beside it.
  abbrev pub Submitted : Type 0
  Submitted = Option (Manager env.node_env) × SubmitStatus × Bool

  add_verified : Option (Manager env.node_env) → Transaction → Bool → Outcome Submitted
  unfolding add_transaction
  add_verified pm tx false = done (pm, signature_failed, false)
  add_verified none tx true = done (none, format_error, false)
  add_verified (some pm) tx true = do pm' ← add_transaction pm tx; done (some pm', success, false)

  submit_decoded : Option (Manager env.node_env) → Option Bytes → Outcome Submitted
  unfolding add_verified verify
  submit_decoded pm none = done (pm, SubmitStatus.decode_failed, true)
  submit_decoded pm (some bytes) =
      let tx = env.node_env.chain_env.deserialize_transaction bytes in
      verify env.signatures tx >>= add_verified pm tx

  -- SubmitTransaction; DeserializeTransaction has no error.
  unfoldable pub submit_transaction : Option (Manager env.node_env) → Bytes → Outcome Submitted
  unfolding submit_decoded decode_string
  submit_transaction pm signed_transaction = submit_decoded pm (decode_string signed_transaction)
